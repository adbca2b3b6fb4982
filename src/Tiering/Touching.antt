-- ===== src/Tiering/Touching.antt =====
-- server/internal/jobs/tiering/tiering.go, Touch: one call after another, for any keys.
use private_cloud.Prelude.{
  ℕ, suc, ◌+◌, ◌-◌, ◌≤◌, ◌<◌, ◌≡◌, refl, sym, ap, subst, ◌∙◌, true, false, some, List, [], ◌∷◌,
  Text, text_eq, text_eq_refl, text_eq_iff, length, ltb, if◌then◌else◌, All, Bool-cases, inl, inr,
  arith,
}
use private_cloud.Tiering.{Tables}
use private_cloud.Tiering.Restoring.{
  touch, last_touch, set_touch, is_recent, max_touched, touch_interval,
}

last_touch-set :
    (key : Text) (now : ℕ) (ts : List (Text × ℕ)) → last_touch key (set_touch key now ts) ≡ some now
unfolding last_touch set_touch
last_touch-set key now [] = rw (text_eq_refl key) refl
last_touch-set key now ((k, t) ∷ ts) = elim (Bool-cases (text_eq k key)) [
  | inl hit ↦ rw (hit, last_touch, hit) refl
  | inr miss ↦ rw (miss, last_touch, miss) (last_touch-set key now ts)
]

-- The cache that a Touch leaves is within its bound and knows the key's time.
abbrev pub Notes : ℕ → Text → List (Text × ℕ) → Type 0
Notes now key ts = (length ts ≤ max_touched) × (last_touch key ts ≡ some now)

bound-Notes :
    (now : ℕ) (key : Text) (put : List (Text × ℕ))
    → last_touch key put ≡ some now
    → Notes now key (if ltb max_touched (length put) then (key, now) ∷ [] else put)
unfolding last_touch
bound-Notes now key put h = elim (Bool-cases (ltb max_touched (length put))) [
  | inl over ↦ rw over (omega arith, rw (text_eq_refl key) refl)
  | inr within ↦ rw within (ground arith, h)
]

touch-Notes :
    (now : ℕ) (key : Text) (ts : List (Text × ℕ)) (db : Tables)
    → (touch now key (ts, db)).0 ≡ true
    → Notes now key (touch now key (ts, db)).1
unfolding touch
touch-Notes now key ts db h = elim (Bool-cases (is_recent now (last_touch key ts))) [
  | inl recent ↦ absurd (cc (rw (touch, recent) at h))
  | inr stale ↦
      rw (touch, stale) (bound-Notes now key (set_touch key now ts) (last_touch-set key now ts))
]

touch_recent :
    (later now : ℕ) (key : Text) (ts : List (Text × ℕ)) (db : Tables)
    → last_touch key ts ≡ some now
    → ltb (later - now) touch_interval ≡ true
    → touch later key (ts, db) ≡ (false, ts, db)
unfolding touch
touch_recent later now key ts db noted soon = rw (touch, noted, soon) refl

-- Calls of Touch, one after the other, each with its time.
abbrev pub touches : List (ℕ × Text) → List (Text × ℕ) → Tables → List (Text × ℕ) × Tables
touches [] ts db = (ts, db)
touches ((t, k) ∷ es) ts db = let out = touch t k (ts, db) in touches es out.1 out.2

-- The cache has no more than `n` keys, and a time for the key that is not before `now`.
Known : ℕ → Text → ℕ → List (Text × ℕ) → Type 0
Known now key n ts = (length ts ≤ n) × ((t : ℕ) × (last_touch key ts ≡ some t) × (now ≤ t))

last_touch-set_other :
    (k key : Text) (now : ℕ) (ts : List (Text × ℕ))
    → text_eq k key ≡ false
    → last_touch key (set_touch k now ts) ≡ last_touch key ts
unfolding last_touch set_touch
last_touch-set_other k key now [] other = rw other refl
last_touch-set_other k key now ((j, t) ∷ ts) other = elim (Bool-cases (text_eq j k)) [
  | inl hit ↦
      let apart : text_eq j key ≡ false =
        subst (λ (x : Text). text_eq x key ≡ false) (sym ((text_eq_iff j k).0 hit)) other in
      rw (hit, last_touch, apart) refl
  | inr miss ↦ elim (Bool-cases (text_eq j key)) [
    | inl mine ↦ rw (miss, last_touch, mine) refl
    | inr apart ↦ rw (miss, last_touch, apart) (last_touch-set_other k key now ts other)
  ]
]

length-set_touch :
    (k : Text) (now : ℕ) (ts : List (Text × ℕ)) → length (set_touch k now ts) ≤ suc (length ts)
unfolding set_touch
length-set_touch k now [] = omega arith
length-set_touch k now ((j, t) ∷ ts) = ground (arith, length-set_touch k now ts)

set_touch-Known :
    (now t n : ℕ) (k key : Text) (ts : List (Text × ℕ))
    → now ≤ t
    → Known now key n ts
    → Known now key (suc n) (set_touch k t ts)
unfolding Known
set_touch-Known now t n k key ts fresh (small, (t', noted, late)) = (
  omega (arith, length-set_touch k t ts),
  elim (Bool-cases (text_eq k key)) [
    | inl mine ↦ (
      t,
      subst (λ (x : Text). last_touch x (set_touch k t ts) ≡ some t) ((text_eq_iff k key).0 mine)
          (last_touch-set k t ts),
      fresh,
    )
    | inr other ↦ (t', last_touch-set_other k key t ts other ∙ noted, late)
  ],
)

touch-Known :
    (now t n : ℕ) (k key : Text) (ts : List (Text × ℕ)) (db : Tables)
    → n < max_touched
    → now ≤ t
    → Known now key n ts
    → Known now key (suc n) (touch t k (ts, db)).1
unfolding touch Known
touch-Known now t n k key ts db room fresh h = elim (Bool-cases (is_recent t (last_touch k ts))) [
  | inl recent ↦ rw (touch, recent) (omega (arith, h.0), h.1)
  | inr stale ↦
      let put = set_touch-Known now t n k key ts fresh h in
      let within : ltb max_touched (length (set_touch k t ts)) ≡ false = ground (arith, put.0) in
      rw (touch, stale, within) put
]

touches-Known :
    (now n : ℕ) (key : Text) (es : List (ℕ × Text)) (ts : List (Text × ℕ)) (db : Tables)
    → All (λ e. now ≤ e.0) es
    → n + length es ≤ max_touched
    → Known now key n ts
    → Known now key (n + length es) (touches es ts db).0
unfolding Known
touches-Known now n key [] ts db late room h = (omega (arith, h.0), h.1)
touches-Known now n key ((t, k) ∷ es) ts db late room h =
    let out = touch t k (ts, db) in
    let one = touch-Known now t n k key ts db (omega (arith, room)) late.0 h in
    let rest = touches-Known now (suc n) key es out.1 out.2 late.1 (omega (arith, room)) one in
    (omega (arith, rest.0), rest.1)

-- A Touch that writes leaves a cache within its bound. After calls for any keys that come no earlier and
-- for which there is room in the cache, so that it is not emptied, a Touch of the same key less than an
-- hour after the first writes nothing, whatever the tables hold by then.
pub touch_limited :
    (now later : ℕ) (key : Text) (ts : List (Text × ℕ)) (es : List (ℕ × Text)) (db db' : Tables)
    → (touch now key (ts, db)).0 ≡ true
    → All (λ e. now ≤ e.0) es
    → length (touch now key (ts, db)).1 + length es ≤ max_touched
    → ltb (later - now) touch_interval ≡ true
    → (length (touch now key (ts, db)).1 ≤ max_touched)
      × ((touch later key ((touches es (touch now key (ts, db)).1 db).0, db')).0 ≡ false)
unfolding Known
touch_limited now later key ts es db db' h late room soon =
    let (bounded, noted) = touch-Notes now key ts db h in
    let cache = (touch now key (ts, db)).1 in
    let known =
      touches-Known now (length cache) key es cache db late room
        (omega arith, (now, noted, omega arith)) in
    let (t, last, after) = known.1 in
    let recent : ltb (later - t) touch_interval ≡ true = ground arith in
    (bounded, ap (λ out. out.0) (touch_recent later t key (touches es cache db).0 db' last recent))
