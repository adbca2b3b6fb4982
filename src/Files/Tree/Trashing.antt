-- ===== src/Files/Tree/Trashing.antt =====
-- server/internal/files/store.go: EnsureRoot and Trash on a tree.
use private_cloud.Prelude.{
  ℕ, ◌≡◌, ◌≢◌, refl, sym, ap, subst, ◌∙◌, Bool, true, false, not, ◌⊎◌, inl, inr, none, [], ◌∷◌, map,
  map-Has, Has-map, Text, codes, any, any-Has, filter, length, Has, ==_refl, if◌then◌else◌,
  Bool-cases, Option-cases, Result, ok, Result-cases, >>=-eq-ok, ◌>>=◌, or_fail, arith,
}
use private_cloud.Files.{
  Err, Node, is_live, is_root, clashes, insert_row, root, get_live, not_found, root_reserved,
}
use private_cloud.Files.Paths.{is_under}
use private_cloud.Files.Tree.{
  Rows, require, new_root, add_root, ensure_root, is_trashed_with, trash_row, trash_rows, trash,
}
use private_cloud.Files.Tree.Shape.{
  IsSegment, IsChild, IsTree, Under, stem, join_path-stem, child-Under, deep-Under, is_under→Under,
  is_under-true,
}
use private_cloud.Files.Tree.Adding.{
  Found, get_live-Found, insert_row-ok, top_apart, require-true, or_fail-ok,
}

module _ (fold : Text → Text) (rows : Rows) (tree : IsTree fold rows) where
  -- A live row that is no root has a path beyond the slash.
  pub inner_path :
      (n : Node) → Has n rows → is_live n ≡ true → n.parent_id ≢ none → n.path ≢ codes "/"
  inner_path n h l ne e = elim (tree.placed n h l) [
    | inl (top, _) ↦ ne top
    | inr (m, _, c) ↦
        top_apart (stem m.path) c.segment c.is_segment.0
          (sym e ∙ (c.path ∙ join_path-stem m.path c.segment))
  ]

  module _ (owner id : ℕ) (fresh : (n : Node) → Has n rows → n.id ≢ id)
      (free : any (clashes (new_root owner id)) rows ≡ false) where
    abbrev top : Node
    top = new_root owner id

    not_taken : (z : Node) → Has z rows → is_live z ≡ true → z.owner_id ≡ owner → z.path ≢ codes "/"
    not_taken z h l own e = elim (Option-cases z.parent_id) [
      | inl none_above ↦ cc (any-Has (clashes top) rows z h (meets none_above), free)
      | inr (p, above) ↦ inner_path z h l (λ no. cc) e
    ]
      where
        meets : z.parent_id ≡ none → clashes top z ≡ true
        meets none_above = rw (l, none_above, own, ==_refl owner) refl

    placed :
        (n : Node)
        → Has n (top ∷ rows)
        → is_live n ≡ true
        → ((n.parent_id ≡ none) × (n.path ≡ codes "/"))
          ⊎ ((m : Node) × Has m (top ∷ rows) × IsChild fold n m)
    placed n (inl e) l = inl (ap (λ (r : Node). r.parent_id) e, ap (λ (r : Node). r.path) e)
    placed n (inr h) l = elim (tree.placed n h l) [
      | inl is_top ↦ inl is_top
      | inr (m, hm, c) ↦ inr (m, inr hm, c)
    ]

    rooted : (n : Node) → Has n (top ∷ rows) → is_live n ≡ true → (s : Text) × (n.path ≡ b'/' ∷ s)
    rooted n (inl e) l = ([], ap (λ (r : Node). r.path) e)
    rooted n (inr h) l = tree.rooted n h l

    named :
        (n : Node) → Has n (top ∷ rows) → is_live n ≡ true → n.parent_id ≢ none → IsSegment n.name
    named n (inl e) l ne = absurd (ne (ap (λ (r : Node). r.parent_id) e))
    named n (inr h) l ne = tree.named n h l ne

    ids : (n m : Node) → Has n (top ∷ rows) → Has m (top ∷ rows) → n.id ≡ m.id → n ≡ m
    ids n m (inl e) (inl f) same = e ∙ sym f
    ids n m (inl e) (inr h) same = absurd (fresh m h (sym same ∙ ap (λ (r : Node). r.id) e))
    ids n m (inr h) (inl f) same = absurd (fresh n h (same ∙ ap (λ (r : Node). r.id) f))
    ids n m (inr h) (inr g) same = tree.ids n m h g same

    paths :
        (n m : Node)
        → Has n (top ∷ rows)
        → Has m (top ∷ rows)
        → is_live n ≡ true
        → is_live m ≡ true
        → n.owner_id ≡ m.owner_id
        → n.path ≡ m.path
        → n ≡ m
    paths n m (inl e) (inl f) ln lm own same = e ∙ sym f
    paths n m (inl e) (inr h) ln lm own same = absurd (
        not_taken m h lm (sym own ∙ ap (λ (r : Node). r.owner_id) e)
          (sym same ∙ ap (λ (r : Node). r.path) e))
    paths n m (inr h) (inl f) ln lm own same = absurd (
        not_taken n h ln (own ∙ ap (λ (r : Node). r.owner_id) f)
          (same ∙ ap (λ (r : Node). r.path) f))
    paths n m (inr h) (inr g) ln lm own same = tree.paths n m h g ln lm own same

    top-IsTree : IsTree fold (top ∷ rows)
    top-IsTree = record {
      placed = placed;
      rooted = rooted;
      named = named;
      ids = ids;
      paths = paths;
    }

  pub add_root-IsTree :
      (owner id : ℕ) → ((n : Node) → Has n rows → n.id ≢ id) → IsTree fold (add_root owner id rows)
  unfolding add_root
  add_root-IsTree owner id fresh = elim (Result-cases (insert_row (new_root owner id) rows)) [
    | inr (e, h) ↦ rw (add_root, h) tree
    | inl (out, h) ↦
        let (free, added) = insert_row-ok (new_root owner id) rows out h in
        rw (add_root, h) (subst (IsTree fold) (sym added) (top-IsTree owner id fresh free))
  ]

  pub ensure_root-IsTree :
      (owner id : ℕ)
      → ((n : Node) → Has n rows → n.id ≢ id)
      → IsTree fold (ensure_root owner id rows).1
  unfolding ensure_root
  ensure_root-IsTree owner id fresh = elim (Option-cases (root owner rows)) [
    | inl missing ↦ rw (ensure_root, missing) (add_root-IsTree owner id fresh)
    | inr (n, there) ↦ rw (ensure_root, there) tree
  ]

  module _ (now owner : ℕ) (node : Node) (found : Found owner node.id rows node)
      (inner : node.parent_id ≢ none) where
    abbrev mark : Node → Node
    mark n = if is_trashed_with node n then trash_row now node.id n else n

    -- A row that is still live afterwards was live, was left alone, and is as it was.
    left_alone :
        (r : Node)
        → is_live (mark r) ≡ true
        → (is_trashed_with node r ≡ false) × (mark r ≡ r) × (is_live r ≡ true)
    left_alone r l = elim (Bool-cases (is_trashed_with node r)) [
      | inl gone ↦ absurd (cc (rw gone at l))
      | inr stays ↦
          let same : mark r ≡ r =
            ap (λ (b : Bool). if b then trash_row now node.id r else r) stays in
          (stays, same, ap is_live (sym same) ∙ l)
    ]

    mark-id : (r : Node) → (mark r).id ≡ r.id
    mark-id r = elim (Bool-cases (is_trashed_with node r)) [
      | inl gone ↦ ap (λ (b : Bool). (if b then trash_row now node.id r else r).id) gone
      | inr stays ↦ ap (λ (b : Bool). (if b then trash_row now node.id r else r).id) stays
    ]

    trashed_cases :
        (m : Node)
        → is_trashed_with node m ≡ true
        → (m.id ≡ node.id)
          ⊎ ((node.is_folder ≡ true)
              × (m.owner_id ≡ node.owner_id)
              × (is_under node.path m.path ≡ true))
    unfolding is_trashed_with
    trashed_cases m h = ground arith

    trashed_below :
        (n : Node)
        → is_live n ≡ true
        → node.is_folder ≡ true
        → n.owner_id ≡ node.owner_id
        → is_under node.path n.path ≡ true
        → is_trashed_with node n ≡ true
    unfolding is_trashed_with
    trashed_below n l dir own under = ground arith

    -- The parent of a row that was left alone was left alone.
    parent_stays :
        (n m : Node)
        → Has m rows
        → is_trashed_with node n ≡ false
        → is_live n ≡ true
        → IsChild fold n m
        → is_trashed_with node m ≡ false
    parent_stays n m hm stays ln c = elim (Bool-cases (is_trashed_with node m)) [
      | inr ok_then ↦ ok_then
      | inl gone ↦ absurd (elim (trashed_cases m gone) [
        | inl same ↦
            let is_node = tree.ids m node hm found.there same in
            let not_top : m.path ≢ codes "/" =
              inner_path m hm c.live
                (λ e. inner (ap (λ (r : Node). r.parent_id) (sym is_node) ∙ e)) in
            let under = child-Under fold n m c not_top in
            let below = subst (λ (r : Node). Under r.path n.path) is_node under in
            cc (
              trashed_below n ln (ap (λ (r : Node). r.is_folder) (sym is_node) ∙ c.folder)
                  (sym c.owner ∙ ap (λ (r : Node). r.owner_id) is_node)
                  (is_under-true node.path n.path below),
              stays,
            )
        | inr (dir, own, under) ↦
            let below =
              deep-Under fold n m node.path c (is_under→Under node.path m.path under) not_empty in
            cc (
              trashed_below n ln dir (sym c.owner ∙ own) (is_under-true node.path n.path below),
              stays,
            )
      ])
    ]
      where
        not_empty : node.path ≢ []
        not_empty e = let (s, f) = tree.rooted node found.there found.live in cc

    trashed-IsTree : IsTree fold (trash_rows now node rows)
    unfolding trash_rows
    trashed-IsTree = record {
      placed = λ n h l.
          let (r, hr, e) = map-Has mark rows n h in
          let (stays, same, lr) = left_alone r (ap is_live (sym e) ∙ l) in
          let is_r : n ≡ r = e ∙ same in
          elim (tree.placed r hr lr) [
            | inl top ↦
                inl
                  (subst (λ (x : Node). (x.parent_id ≡ none) × (x.path ≡ codes "/")) (sym is_r) top)
            | inr (m, hm, c) ↦
                let kept = parent_stays r m hm stays lr c in
                let as_was : mark m ≡ m =
                  ap (λ (b : Bool). if b then trash_row now node.id m else m) kept in
                inr (
                  m,
                  subst (λ (x : Node). Has x (map mark rows)) as_was (Has-map mark rows m hm),
                  subst (λ (x : Node). IsChild fold x m) (sym is_r) c,
                )
          ];
      rooted = λ n h l.
          let (r, hr, e) = map-Has mark rows n h in
          let (_, same, lr) = left_alone r (ap is_live (sym e) ∙ l) in
          let (s, f) = tree.rooted r hr lr in (s, ap (λ (x : Node). x.path) (e ∙ same) ∙ f);
      named = λ n h l ne.
          let (r, hr, e) = map-Has mark rows n h in
          let (_, same, lr) = left_alone r (ap is_live (sym e) ∙ l) in
          let is_r : n ≡ r = e ∙ same in
          subst (λ (x : Node). IsSegment x.name) (sym is_r)
            (tree.named r hr lr (λ top. ne (ap (λ (x : Node). x.parent_id) is_r ∙ top)));
      ids = λ n m h g same.
          let (r, hr, e) = map-Has mark rows n h in
          let (q, hq, f) = map-Has mark rows m g in
          let ids : r.id ≡ q.id =
            sym (mark-id r)
            ∙ (ap (λ (x : Node). x.id) (sym e)
                ∙ (same ∙ (ap (λ (x : Node). x.id) f ∙ mark-id q))) in
          e ∙ (ap mark (tree.ids r q hr hq ids) ∙ sym f);
      paths = λ n m h g ln lm own same.
          let (r, hr, e) = map-Has mark rows n h in
          let (q, hq, f) = map-Has mark rows m g in
          let (_, r_same, lr) = left_alone r (ap is_live (sym e) ∙ ln) in
          let (_, q_same, lq) = left_alone q (ap is_live (sym f) ∙ lm) in
          let n_r : n ≡ r = e ∙ r_same in
          let m_q : m ≡ q = f ∙ q_same in
          n_r
          ∙ (tree.paths r q hr hq lr lq
                (ap (λ (x : Node). x.owner_id) (sym n_r)
                  ∙ (own ∙ ap (λ (x : Node). x.owner_id) m_q))
                (ap (λ (x : Node). x.path) (sym n_r) ∙ (same ∙ ap (λ (x : Node). x.path) m_q))
              ∙ sym m_q);
    }

ok_parts :
    {a c : ℕ} {b d : Rows}
    → ◌≡◌ {A = Result Err (ℕ × Rows)} (ok (a, b)) (ok (c, d))
    → (c ≡ a) × (d ≡ b)
ok_parts e = (cc, cc)

trash-ok :
    (now owner id : ℕ) (rows out : Rows) (count : ℕ)
    → trash now owner id rows ≡ ok (count, out)
    → (node : Node) × Found owner node.id rows node
      × (node.parent_id ≢ none)
      × (count ≡ length (filter (is_trashed_with node) rows))
      × (out ≡ trash_rows now node rows)
unfolding trash
trash-ok now owner id rows out count h =
    let (node, e, h') =
      >>=-eq-ok (or_fail (get_live owner id rows) not_found)
        (λ (n : Node). require (not (is_root n)) root_reserved >>= λ (u : Unit {0}).
          ok (length (filter (is_trashed_with n) rows), trash_rows now n rows))
        h in
    let (u, deep, same) =
      >>=-eq-ok (require (not (is_root node)) root_reserved)
        (λ (u : Unit {0}).
          ok (length (filter (is_trashed_with node) rows), trash_rows now node rows))
        h' in
    let found =
      get_live-Found owner id rows node (or_fail-ok (get_live owner id rows) not_found node e) in
    (
      node,
      record { there = found.there; same_id = refl; own = found.own; live = found.live },
      λ top. cc (require-true (not (is_root node)) root_reserved u deep, top_root node top),
      (ok_parts same).0,
      (ok_parts same).1,
    )
  where
    top_root : (n : Node) → n.parent_id ≡ none → not (is_root n) ≡ false
    top_root n e = rw e refl

pub trash-IsTree :
    (fold : Text → Text) (now owner id : ℕ) (rows out : Rows) (count : ℕ)
    → IsTree fold rows
    → trash now owner id rows ≡ ok (count, out)
    → IsTree fold out
trash-IsTree fold now owner id rows out count tree h =
    let (node, found, inner, _, e) = trash-ok now owner id rows out count h in
    subst (IsTree fold) (sym e) (trashed-IsTree fold rows tree now owner node found inner)
