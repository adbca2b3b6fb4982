-- ===== src/Shares/Access.antt =====
-- server/internal/shares/service.go: what a visitor reaches through a link, and what not.
use private_cloud.Prelude.{
  ℕ, ◌≡◌, sym, ap, ◌∙◌, ◌⊎◌, inl, inr, true, false, not, ◌&&◌, some, List, Text, text_eq_iff,
  text_eq_refl, any, Bool-cases, Option-cases, Result, ok, Result-cases, ◌>>=◌, arith,
}
use private_cloud.Shares.{
  Share, Node, Services, Err, has_password, revoked, expired, cap_reached, check_validity,
  unlock_proof, valid_unlock, lookup, valid_share, unlock, is_file, within, resolve_node, view,
  locked_view, node_view, PublicShare, open_content, try_increment_download, may_download, active,
}

-- `n` is the shared node or has a path beneath the shared node's path.
pub record IsConfined (v : Services) (s : Share) (n : Node) : Type 0 where
  pub root : Node
  pub live : v.get_live s.owner_id s.node_id ≡ some root
  pub inside : (n ≡ root) ⊎ (within root n ≡ true)

pub resolve_node-IsConfined :
    (v : Services) (s : Share) (rel : Text) (n : Node)
    → resolve_node v s rel ≡ ok n
    → IsConfined v s n
unfolding resolve_node
resolve_node-IsConfined v s rel n e = elim (Option-cases (v.get_live s.owner_id s.node_id)) [
  | inl dead ↦ absurd (cc (rw dead at e))
  | inr (root, live) ↦ alive root live
]
  where
    alive : (root : Node) → v.get_live s.owner_id s.node_id ≡ some root → IsConfined v s n
    alive root live = record { root = root; live = live; inside = ground arith }

-- The visitor may see the content of `s`: the link is neither revoked nor expired nor spent, and
-- there is no password or the proof is the one that `unlock` gives.
pub record IsAdmitted (v : Services) (now : ℕ) (token proof : Text) (ss : List Share) (s : Share)
    : Type 0 where
  pub named : lookup v token ss ≡ ok s
  pub not_revoked : revoked s ≡ false
  pub not_expired : expired now s ≡ false
  pub not_spent : cap_reached s ≡ false
  pub proved : (has_password s ≡ false) ⊎ (proof ≡ unlock_proof v s)

valid_share-ok :
    (v : Services) (now : ℕ) (token : Text) (ss : List Share) (s : Share)
    → valid_share v now token ss ≡ ok s
    → (lookup v token ss ≡ ok s)
      × (revoked s ≡ false)
      × (expired now s ≡ false)
      × (cap_reached s ≡ false)
unfolding check_validity valid_share
valid_share-ok v now token ss s e = elim (Result-cases (lookup v token ss)) [
  | inl (t, found) ↦ checked t found
  | inr (x, missing) ↦ absurd (cc (rw missing at e))
]
  where
    checked :
        (t : Share)
        → lookup v token ss ≡ ok t
        → (lookup v token ss ≡ ok s)
          × (revoked s ≡ false)
          × (expired now s ≡ false)
          × (cap_reached s ≡ false)
    checked t found =
        let e' : (check_validity now t >>= λ _. ok t) ≡ ok s = rw found at e in
        let same : t ≡ s = ground arith in
        let fine : (revoked t ≡ false) × (expired now t ≡ false) × (cap_reached t ≡ false) =
          ground arith in
        (found ∙ ap ok same, rw (← same) fine.0, rw (← same) fine.1, rw (← same) fine.2)

gate-IsAdmitted :
    (v : Services) (now : ℕ) (token proof : Text) (ss : List Share) (s : Share)
    → valid_share v now token ss ≡ ok s
    → (has_password s && not (valid_unlock v s proof)) ≡ false
    → IsAdmitted v now token proof ss s
unfolding valid_unlock
gate-IsAdmitted v now token proof ss s valid g =
    let (named, live, fresh, unspent) = valid_share-ok v now token ss s valid in
    record {
      named = named;
      not_revoked = live;
      not_expired = fresh;
      not_spent = unspent;
      proved = ground (arith, text_eq_iff proof (unlock_proof v s));
    }

-- What a visitor is shown of an unlocked share.
abbrev pub Shown : Services → ℕ → Text → Text → Text → List Share → PublicShare → Type 0
Shown v now token proof rel ss p =
    (s : Share) × (n : Node) × IsAdmitted v now token proof ss s
    × IsConfined v s n
    × (p ≡ node_view v s rel n)

-- A view that succeeds shows either nothing but that there is a password, or a node that the
-- visitor was admitted to and that lies in the shared subtree.
pub view_guarded :
    (v : Services) (now : ℕ) (token proof rel : Text) (ss : List Share) (p : PublicShare)
    → view v now token proof rel ss ≡ ok p
    → (p ≡ locked_view) ⊎ Shown v now token proof rel ss p
unfolding view
view_guarded v now token proof rel ss p e = elim (Result-cases (valid_share v now token ss)) [
  | inl (s, valid) ↦ passed s valid
  | inr (x, bad) ↦ absurd (cc (rw (view, bad) at e))
]
  where
    node_of :
        (s : Share)
        → valid_share v now token ss ≡ ok s
        → (has_password s && not (valid_unlock v s proof)) ≡ false
        → (n : Node) → resolve_node v s rel ≡ ok n
        → Shown v now token proof rel ss p
    node_of s valid g n found =
        let shown : ok (node_view v s rel n) ≡ ok p = rw (view, valid, g, found) at e in
        (
          s,
          n,
          gate-IsAdmitted v now token proof ss s valid g,
          resolve_node-IsConfined v s rel n found,
          cc,
        )

    open_gate :
        (s : Share)
        → valid_share v now token ss ≡ ok s
        → (has_password s && not (valid_unlock v s proof)) ≡ false
        → Shown v now token proof rel ss p
    open_gate s valid g = elim (Result-cases (resolve_node v s rel)) [
      | inl (n, found) ↦ node_of s valid g n found
      | inr (x, lost) ↦ absurd (cc (rw (view, valid, g, lost) at e))
    ]

    passed :
        (s : Share)
        → valid_share v now token ss ≡ ok s
        → (p ≡ locked_view) ⊎ Shown v now token proof rel ss p
    passed s valid = elim (Bool-cases (has_password s && not (valid_unlock v s proof))) [
      | inl shut ↦
          let shown : ◌≡◌ {A = Result Err PublicShare} (ok locked_view) (ok p) =
            rw (view, valid, shut) at e in
          inl (cc)
      | inr g ↦ inr (open_gate s valid g)
    ]

-- Content is served only to a visitor who was admitted, only a file of the shared subtree, and only
-- after the download was charged: the table left is the one with the charge.
pub open_content_guarded :
    (v : Services) (now later : ℕ) (token proof rel : Text) (ss : List Share) (n : Node)
    → (open_content v now later token proof rel ss).0 ≡ ok n
    → (s : Share) × IsAdmitted v now token proof ss s
      × IsConfined v s n
      × (is_file n ≡ true)
      × (any (may_download s.id later) ss ≡ true)
      × ((open_content v now later token proof rel ss).1 ≡ (try_increment_download s.id later ss).1)
unfolding open_content try_increment_download
open_content_guarded v now later token proof rel ss n e =
    elim (Result-cases (valid_share v now token ss)) [
      | inl (s, valid) ↦ passed s valid
      | inr (x, bad) ↦ absurd (cc (rw (open_content, bad) at e))
    ]
  where
    Served : Type 0
    Served =
        (s : Share) × IsAdmitted v now token proof ss s
        × IsConfined v s n
        × (is_file n ≡ true)
        × (any (may_download s.id later) ss ≡ true)
        × ((open_content v now later token proof rel ss).1
            ≡ (try_increment_download s.id later ss).1)

    node_of :
        (s : Share)
        → valid_share v now token ss ≡ ok s
        → (has_password s && not (valid_unlock v s proof)) ≡ false
        → (m : Node) → resolve_node v s rel ≡ ok m
        → Served
    node_of s valid g m found =
        let served : ((m ≡ n) × (is_file m ≡ true) × (any (may_download s.id later) ss ≡ true)) =
          ground (arith, rw (open_content, valid, g, found) at e) in
        let same = served.0 in
        (
          s,
          gate-IsAdmitted v now token proof ss s valid g,
          resolve_node-IsConfined v s rel n (found ∙ ap ok same),
          ap (λ (k : Node). is_file k) (sym same) ∙ served.1,
          served.2,
          rw (open_content, valid, g, found) (ground arith),
        )

    passed : (s : Share) → valid_share v now token ss ≡ ok s → Served
    passed s valid = elim (Bool-cases (has_password s && not (valid_unlock v s proof))) [
      | inl shut ↦ absurd (cc (rw (open_content, valid, shut) at e))
      | inr g ↦ elim (Result-cases (resolve_node v s rel)) [
        | inl (m, found) ↦ node_of s valid g m found
        | inr (x, lost) ↦ absurd (cc (rw (open_content, valid, g, lost) at e))
      ]
    ]

-- The proof that Unlock returns opens the same share later.
pub unlock_proves :
    (v : Services) (now : ℕ) (token password proof : Text) (ss : List Share) (s : Share)
    → lookup v token ss ≡ ok s
    → unlock v now token password ss ≡ ok proof
    → (valid_unlock v s proof ≡ true)
      × (active now s ≡ true)
      × ((has_password s ≡ false) ⊎ (v.verify_secret password s.password_hash ≡ true))
unfolding unlock valid_share check_validity valid_unlock active
unlock_proves v now token password proof ss s found e =
    let e' = rw (unlock, found) at e in
    ground (arith, text_eq_refl (unlock_proof v s), text_eq_iff proof (unlock_proof v s))
