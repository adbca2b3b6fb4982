-- ===== src/Blob/Keys.antt =====
-- server/internal/blob/blob.go: validKey and pathFor, and of Go's path/filepath the functions Join and
-- Rel as far as these use them: a path is the list of its segments, and `..` takes one away.
use private_cloud.Prelude.{
  ℕ, ◌≡◌, refl, sym, ap, ◌∙◌, inl, inr, Bool, true, false, not, ◌||◌, List, [], ◌∷◌, ◌++◌,
  append-nil, append_assoc, ==_iff, Text, codes, text_eq, has_prefix, any, length, ltb, ◌==◌,
  if◌then◌else◌, Bool-cases, arith,
}

-- The errors of the stores; `io` is that of a system call.
pub data Call : Type 0 where
  stat_call mkdir create_temp copy sync close rename chmod open_call remove truncate_call : Call
  seek read : Call

pub data Err : Type 0 where
  not_found invalid_key escapes_root : Err
  io : Call → Err
  stream_ended no_cold_tier cold_mismatch restoring cancelled unreachable : Err

pub push : ℕ → List Text → List Text
push c [] = (c ∷ []) ∷ []
push c (s ∷ ss) = (c ∷ s) ∷ ss

-- strings.Split(key, "/")
unfoldable pub split_slash : Text → List Text
unfolding push
split_slash [] = [] ∷ []
split_slash (c ∷ s) = let rest = split_slash s in if c == b'/' then [] ∷ rest else push c rest

unfoldable pub join_slash : List Text → Text
join_slash [] = []
join_slash (s ∷ []) = s
join_slash (s ∷ t ∷ ss) = s ++ (b'/' ∷ join_slash (t ∷ ss))

abbrev pub is_dots : Text → Bool
is_dots seg = text_eq seg [] || (text_eq seg (codes ".") || text_eq seg (codes ".."))

abbrev pub is_host_syntax : ℕ → Bool
is_host_syntax c = c == b'\\' || c == b':'

abbrev pub is_control : ℕ → Bool
is_control c = ltb c 0x20 || c == 0x7f

unfoldable pub valid_key : Text → Bool
unfolding split_slash text_eq has_prefix
valid_key key =
    if text_eq key [] || ltb 512 (length key)
    then false
    else if any is_host_syntax key
    then false
    else if has_prefix key (codes "/")
    then false
    else if any is_dots (split_slash key)
    then false
    else not (any is_control key)

pub init : List Text → List Text
init [] = []
init (s ∷ []) = []
init (s ∷ t ∷ ss) = s ∷ init (t ∷ ss)

-- filepath.Join of a path and further segments, cleaned.
unfoldable pub join_path : List Text → List Text → List Text
unfolding init
join_path path [] = path
join_path path (seg ∷ segs) =
    if text_eq seg [] || text_eq seg (codes ".")
    then join_path path segs
    else (let up = join_path (init path) segs in
        let down = join_path (path ++ (seg ∷ [])) segs in
        if text_eq seg (codes "..") then up else down)

-- strings.HasPrefix(rel, ".."), where rel is filepath.Rel of the root and a path.
unfoldable pub rel_goes_up : List Text → List Text → Bool
rel_goes_up [] path = has_prefix (join_slash path) (codes "..")
rel_goes_up (r ∷ root) [] = true
rel_goes_up (r ∷ root) (s ∷ path) =
    let rest = rel_goes_up root path in if text_eq r s then rest else true

pub data Located : Type 0 where
  refused : Err → Located
  at : List Text → Located

unfoldable pub path_for : List Text → Text → Located
unfolding valid_key join_path rel_goes_up
path_for root key =
    if not (valid_key key)
    then refused invalid_key
    else (let full = join_path root (split_slash key) in
        if rel_goes_up root full then refused escapes_root else at full)

join-push : (c : ℕ) (ss : List Text) → join_slash (push c ss) ≡ c ∷ join_slash ss
unfolding join_slash push
join-push c [] = refl
join-push c (s ∷ []) = refl
join-push c (s ∷ t ∷ ss) = refl

push-cons : (c : ℕ) (ss : List Text) → (t : Text) × (ts : List Text) × (push c ss ≡ t ∷ ts)
unfolding push
push-cons c [] = (c ∷ [], [], refl)
push-cons c (s ∷ ss) = (c ∷ s, ss, refl)

split-cons : (key : Text) → (t : Text) × (ts : List Text) × (split_slash key ≡ t ∷ ts)
unfolding split_slash
split-cons [] = ([], [], refl)
split-cons (c ∷ s) = elim (Bool-cases (c == b'/')) [
  | inl slash ↦ ([], split_slash s, rw (split_slash, slash) refl)
  | inr other ↦ rw (split_slash, other) (push-cons c (split_slash s))
]

join-next :
    (ss : List Text) (t : Text) (ts : List Text)
    → ss ≡ t ∷ ts
    → join_slash ([] ∷ ss) ≡ b'/' ∷ join_slash ss
unfolding join_slash
join-next ss t ts e = rw e refl

-- Joining what was split gives the key back.
join-split : (key : Text) → join_slash (split_slash key) ≡ key
unfolding split_slash join_slash
join-split [] = refl
join-split (c ∷ s) = elim (Bool-cases (c == b'/')) [
  | inl slash ↦
      let (t, ts, e) = split-cons s in
      rw (split_slash, slash)
        (join-next (split_slash s) t ts e
          ∙ (ap (λ (r : Text). b'/' ∷ r) (join-split s)
              ∙ ap (λ (d : ℕ). d ∷ s) (sym ((==_iff c b'/').0 slash))))
  | inr other ↦
      rw (split_slash, other)
        (join-push c (split_slash s) ∙ ap (λ (r : Text). c ∷ r) (join-split s))
]

-- No segment is empty, `.` or `..`.
abbrev pub IsPlain : List Text → Type 0
IsPlain segs = any is_dots segs ≡ false

join_path-IsPlain : (segs path : List Text) → IsPlain segs → join_path path segs ≡ path ++ segs
unfolding join_path
join_path-IsPlain [] path h = sym (append-nil path)
join_path-IsPlain (seg ∷ segs) path h =
    let step : join_path path (seg ∷ segs) ≡ join_path (path ++ (seg ∷ [])) segs = ground arith in
    let rest : IsPlain segs = ground arith in
    step ∙ (join_path-IsPlain segs (path ++ (seg ∷ [])) rest ∙ append_assoc path (seg ∷ []) segs)

valid_key-IsPlain : (key : Text) → valid_key key ≡ true → IsPlain (split_slash key)
unfolding valid_key
valid_key-IsPlain key h = ground arith

append_cancel : (path xs ys : List Text) → path ++ xs ≡ path ++ ys → xs ≡ ys
append_cancel [] xs ys e = e
append_cancel (p ∷ path) xs ys e = append_cancel path xs ys (cc)

path_for-eq :
    (root : List Text) (key : Text) (path : List Text)
    → path_for root key ≡ at path
    → (path ≡ root ++ split_slash key) × IsPlain (split_slash key)
unfolding path_for
path_for-eq root key path h = elim (Bool-cases (valid_key key)) [
  | inr bad ↦ absurd (cc (rw (path_for, bad) at h))
  | inl good ↦
      let plain = valid_key-IsPlain key good in
      let full = join_path-IsPlain (split_slash key) root plain in
      elim (Bool-cases (rel_goes_up root (join_path root (split_slash key)))) [
        | inl up ↦ absurd (cc (rw (path_for, good, up) at h))
        | inr under ↦
            let h' : at (join_path root (split_slash key)) ≡ at path =
              rw (path_for, good, under) at h in
            (cc, plain)
      ]
]

-- A key that pathFor accepts stands for the file under the root that its segments name, none of which
-- is empty, `.` or `..`; and two keys that it accepts stand for the same file only if they are equal.
pub path_for_confined :
    (root : List Text) (a b : Text) (p q : List Text)
    → path_for root a ≡ at p
    → path_for root b ≡ at q
    → (p ≡ root ++ split_slash a) × (any is_dots (split_slash a) ≡ false) × (p ≡ q → a ≡ b)
path_for_confined root a b p q ha hb =
    let (ea, plain) = path_for-eq root a p ha in
    let (eb, _) = path_for-eq root b q hb in
    (
      ea,
      plain,
      λ same.
          let segs = append_cancel root (split_slash a) (split_slash b) (sym ea ∙ (same ∙ eb)) in
          sym (join-split a) ∙ (ap join_slash segs ∙ join-split b),
    )
