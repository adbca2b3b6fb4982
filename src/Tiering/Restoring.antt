-- ===== src/Tiering/Restoring.antt =====
-- server/internal/jobs/tiering/tiering.go: Restore, and the rate limit of Touch. What the successive
-- calls of TieredStore.Warm answer for a key is an argument; where the answers end while the content is
-- still on its way, the context has ended.
use private_cloud.Prelude.{
  ℕ, suc, ◌+◌, ◌-◌, ◌≡◌, refl, sym, ap, subst, ◌∙◌, Bool, true, false, Option, none, some, List, [],
  ◌∷◌, map, Text, text_eq, length, ltb, if◌then◌else◌, All, inl, inr, Result, ok, err, Result-cases,
  arith,
}
use private_cloud.Tiering.{Row, Tables, heat, mark_hot}

pub data Warmed : Type 0 where
  local restoring broken : Warmed

pub data RestoreErr : Type 0 where
  context_done warm_failed : RestoreErr

-- Warm, and the loop that waits while it answers ErrRestoring.
unfoldable pub wait_warm : List Warmed → Result RestoreErr (Unit {0})
wait_warm [] = err context_done
wait_warm (local ∷ ws) = ok tt
wait_warm (broken ∷ ws) = err warm_failed
wait_warm (restoring ∷ ws) = wait_warm ws

-- Restore: how many keys are back, the error, and the tables.
unfoldable pub restore :
    (Text → List Warmed) → ℕ → List Text → ℕ × Tables → ℕ × Option RestoreErr × Tables
unfolding wait_warm mark_hot
restore warm now [] (n, db) = (n, none, db)
restore warm now (k ∷ ks) (n, db) =
    let rest = restore warm now ks (suc n, mark_hot now k db) in
    elim (wait_warm (warm k)) [ err e ↦ (n, some e, db) | ok u ↦ rest ]

abbrev pub touch_interval : ℕ
touch_interval = 3_600_000_000

abbrev pub max_touched : ℕ
max_touched = 50000

unfoldable pub last_touch : Text → List (Text × ℕ) → Option ℕ
last_touch key [] = none
last_touch key ((k, t) ∷ ts) = if text_eq k key then some t else last_touch key ts

-- touched[key] = now
unfoldable pub set_touch : Text → ℕ → List (Text × ℕ) → List (Text × ℕ)
set_touch key now [] = (key, now) ∷ []
set_touch key now ((k, t) ∷ ts) =
    let rest = set_touch key now ts in if text_eq k key then (k, now) ∷ ts else (k, t) ∷ rest

abbrev pub is_recent : ℕ → Option ℕ → Bool
is_recent now none = false
is_recent now (some t) = ltb (now - t) touch_interval

abbrev pub access : ℕ → Text → Row → Row
access now key r = if text_eq r.key key then record r { last_access_at = some now } else r

-- Touch: whether it writes, the cache, and the tables once the write is done.
unfoldable pub touch : ℕ → Text → List (Text × ℕ) × Tables → Bool × List (Text × ℕ) × Tables
unfolding last_touch set_touch
touch now key (touched, db) =
    if is_recent now (last_touch key touched)
    then (false, touched, db)
    else (let put = set_touch key now touched in
        (
          true,
          (if ltb max_touched (length put) then (key, now) ∷ [] else put),
          record { blobs = map (access now key) db.blobs; chunks = map (access now key) db.chunks },
        ))

-- Every row of the key says 'hot'.
abbrev pub RowHot : Text → Row → Type 0
RowHot key r = text_eq r.key key ≡ true → r.is_hot ≡ true

abbrev pub IsHot : Tables → Text → Type 0
IsHot db key = All (RowHot key) db.blobs × All (RowHot key) db.chunks

heat-new : (now : ℕ) (key : Text) (rs : List Row) → All (RowHot key) (map (heat now key) rs)
heat-new now key [] = tt
heat-new now key (r ∷ rs) = (ground arith, heat-new now key rs)

heat-kept :
    (now : ℕ) (key other : Text) (rs : List Row)
    → All (RowHot other) rs
    → All (RowHot other) (map (heat now key) rs)
heat-kept now key other [] h = tt
heat-kept now key other (r ∷ rs) h = (ground arith, heat-kept now key other rs h.1)

mark_hot-IsHot : (now : ℕ) (key : Text) (db : Tables) → IsHot (mark_hot now key db) key
unfolding mark_hot
mark_hot-IsHot now key db = (heat-new now key db.blobs, heat-new now key db.chunks)

mark_hot-kept :
    (now : ℕ) (key other : Text) (db : Tables) → IsHot db other → IsHot (mark_hot now key db) other
unfolding mark_hot
mark_hot-kept now key other db h =
    (heat-kept now key other db.blobs h.0, heat-kept now key other db.chunks h.1)

restore-kept :
    (warm : Text → List Warmed) (now : ℕ) (ks : List Text) (n : ℕ) (db : Tables) (key : Text)
    → IsHot db key
    → IsHot (restore warm now ks (n, db)).2 key
unfolding restore
restore-kept warm now [] n db key h = h
restore-kept warm now (k ∷ ks) n db key h = elim (Result-cases (wait_warm (warm k))) [
  | inl (u, w) ↦
      rw (restore, w)
        (restore-kept warm now ks (suc n) (mark_hot now k db) key (mark_hot-kept now k key db h))
  | inr (e, w) ↦ rw (restore, w) h
]

-- The keys are counted on from n, and each is hot.
abbrev Restored : List Text → ℕ → ℕ × Option RestoreErr × Tables → Type 0
Restored ks n out = (out.0 ≡ n + length ks) × All (IsHot out.2) ks

restore-more :
    (warm : Text → List Warmed) (now : ℕ) (k : Text) (ks : List Text) (n : ℕ) (db : Tables)
    (u : Unit {0})
    → wait_warm (warm k) ≡ ok u
    → restore warm now (k ∷ ks) (n, db) ≡ restore warm now ks (suc n, mark_hot now k db)
unfolding restore
restore-more warm now k ks n db u w = rw (restore, w) refl

-- A Restore that reports no error has counted every key that it was given, and every row of each of
-- these keys says 'hot' after it.
pub restore-IsHot :
    (warm : Text → List Warmed) (now : ℕ) (ks : List Text) (n : ℕ) (db : Tables)
    → (restore warm now ks (n, db)).1 ≡ none
    → ((restore warm now ks (n, db)).0 ≡ n + length ks)
      × All (IsHot (restore warm now ks (n, db)).2) ks
unfolding restore
restore-IsHot warm now [] n db h = (omega arith, tt)
restore-IsHot warm now (k ∷ ks) n db h = elim (Result-cases (wait_warm (warm k))) [
  | inl (u, w) ↦
      let db' = mark_hot now k db in
      let on = restore-more warm now k ks n db u w in
      let done = restore-IsHot warm now ks (suc n) db' (ap (λ out. out.1) (sym on) ∙ h) in
      let first = restore-kept warm now ks (suc n) db' k (mark_hot-IsHot now k db) in
      subst (Restored (k ∷ ks) n) (sym on) (omega (arith, done.0), (first, done.1))
  | inr (e, w) ↦ absurd (cc (rw (restore, w) at h))
]
