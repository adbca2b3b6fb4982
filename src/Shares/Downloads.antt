-- ===== src/Shares/Downloads.antt =====
-- server/internal/shares/store.go: the download cap and the revocation, over any interleaving of the
-- statements of any number of visitors and of the owner.
use private_cloud.Prelude.{
  ℕ, ◌+◌, ◌-◌, ◌≤◌, ◌≡◌, refl, ap, inl, inr, Bool, true, false, Option, none, some, is_some, List,
  [], ◌∷◌, Text, text_eq, All, Bool-cases, if◌then◌else◌, ◌==◌, ok, err, arith,
}
use private_cloud.Shares.{
  Share, Services, not_found, try_increment_download, may_revoke, revoke, find_by_token_hash,
  valid_share, lookup, check_validity,
}

-- One statement on the table: a visitor's charge for a share, or an owner's revocation.
pub data Event : Type 0 where
  downloads : (id now : ℕ) → Event
  revokes : (now owner id : ℕ) → Event

pub step : Event → List Share → Bool × List Share
unfolding try_increment_download revoke
step (downloads id now) ss = try_increment_download id now ss
step (revokes now owner id) ss = revoke now owner id ss

abbrev is_served : ℕ → Event → Bool → ℕ
is_served id (downloads i now) true = if i == id then 1 else 0
is_served id (downloads i now) false = 0
is_served id (revokes now owner i) b = 0

-- How often the visitors of the share `id` were served.
pub served : ℕ → List Event → List Share → ℕ
unfolding step
served id [] ss = 0
served id (e ∷ es) ss = is_served id e (step e ss).0 + served id es (step e ss).1

-- The downloads that the rows with this id have left.
abbrev pub left_of : Option ℕ → ℕ → ℕ
left_of none count = 0
left_of (some m) count = m - count

pub left : ℕ → List Share → ℕ
left id [] = 0
left id (s ∷ ss) = (if s.id == id then left_of s.max_downloads s.download_count else 0) + left id ss

-- Each row with this id has a cap.
abbrev pub IsCapped : ℕ → List Share → Type 0
IsCapped id = All (λ s. s.id ≡ id → is_some s.max_downloads ≡ true)

revoke-left :
    (now owner i id : ℕ) (ss : List Share) → left id (revoke now owner i ss).1 ≡ left id ss
unfolding left revoke
revoke-left now owner i id [] = refl
revoke-left now owner i id (s ∷ ss) = ground (arith, revoke-left now owner i id ss)

revoke-IsCapped :
    (now owner i id : ℕ) (ss : List Share) → IsCapped id ss → IsCapped id (revoke now owner i ss).1
unfolding revoke
revoke-IsCapped now owner i id [] c = tt
revoke-IsCapped now owner i id (s ∷ ss) c = (ground arith, revoke-IsCapped now owner i id ss c.1)

download-IsCapped :
    (now i id : ℕ) (ss : List Share)
    → IsCapped id ss
    → IsCapped id (try_increment_download i now ss).1
unfolding try_increment_download
download-IsCapped now i id [] c = tt
download-IsCapped now i id (s ∷ ss) c = (ground arith, download-IsCapped now i id ss c.1)

-- A charge that goes through takes at least one of the downloads left; no charge adds one.
download-left :
    (now i id : ℕ) (ss : List Share)
    → IsCapped id ss
    → is_served id (downloads i now) (try_increment_download i now ss).0
        + left id (try_increment_download i now ss).1
      ≤ left id ss
unfolding left try_increment_download
download-left now i id [] c = omega arith
download-left now i id (s ∷ ss) c = ground (arith, download-left now i id ss c.1)

-- However the visitors' charges and the owner's revocations interleave, a share with a cap is served at most as
-- often as it had downloads left.
pub served-le-left :
    (id : ℕ) (es : List Event) (ss : List Share) → IsCapped id ss → served id es ss ≤ left id ss
unfolding served step
served-le-left id [] ss c = omega arith
served-le-left id (downloads i now ∷ es) ss c = omega (
  arith,
  download-left now i id ss c,
  served-le-left id es (try_increment_download i now ss).1 (download-IsCapped now i id ss c),
)
served-le-left id (revokes now owner i ∷ es) ss c = omega (
  arith,
  revoke-left now owner i id ss,
  served-le-left id es (revoke now owner i ss).1 (revoke-IsCapped now owner i id ss c),
)

abbrev revoked_row : ℕ → ℕ → ℕ → Share → Share
revoked_row now owner id s = if may_revoke owner id s then record s { revoked_at = some now } else s

find-revoked :
    (h : Text) (now : ℕ) (s : Share) (ss : List Share)
    → find_by_token_hash h ss ≡ ok s
    → find_by_token_hash h (revoke now s.owner_id s.id ss).1
      ≡ ok (revoked_row now s.owner_id s.id s)
unfolding find_by_token_hash revoke
find-revoked h now s [] e = cc
find-revoked h now s (x ∷ ss) e = elim (Bool-cases (text_eq x.token_hash h)) [
  | inl hit ↦ first hit
  | inr miss ↦ later miss (find-revoked h now s ss (rw miss at e))
]
  where
    kept : text_eq (revoked_row now s.owner_id s.id x).token_hash h ≡ text_eq x.token_hash h
    kept = ground arith

    first :
        text_eq x.token_hash h ≡ true
        → find_by_token_hash h (revoke now s.owner_id s.id (x ∷ ss)).1
          ≡ ok (revoked_row now s.owner_id s.id s)
    first hit =
        let same : x ≡ s = ground arith in
        rw (find_by_token_hash, kept, hit)
          (ap (λ (y : Share). ok (revoked_row now s.owner_id s.id y)) same)

    later :
        text_eq x.token_hash h ≡ false
        → find_by_token_hash h (revoke now s.owner_id s.id ss).1
          ≡ ok (revoked_row now s.owner_id s.id s)
        → find_by_token_hash h (revoke now s.owner_id s.id (x ∷ ss)).1
          ≡ ok (revoked_row now s.owner_id s.id s)
    later miss r = rw (find_by_token_hash, kept, miss) r

-- A link that its owner has revoked answers like one that never existed, at once and at any time.
pub revoke_kills :
    (v : Services) (token : Text) (ss : List Share) (s : Share) (now later : ℕ)
    → lookup v token ss ≡ ok s
    → valid_share v later token (revoke now s.owner_id s.id ss).1 ≡ err not_found
unfolding valid_share lookup check_validity
revoke_kills v token ss s now later e = elim (Bool-cases (text_eq token [])) [
  | inl blank ↦ rw (valid_share, blank) refl
  | inr named ↦ dead named
]
  where
    dead :
        text_eq token [] ≡ false
        → valid_share v later token (revoke now s.owner_id s.id ss).1 ≡ err not_found
    dead named =
        let found : find_by_token_hash (v.hash_token token) ss ≡ ok s = rw named at e in
        rw (valid_share, named, find-revoked (v.hash_token token) now s ss found) (ground arith)
