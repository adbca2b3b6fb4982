-- ===== src/Prelude/Lists.antt =====
-- Lists measured and indexed by native numbers, Boolean filters, and predicates by recursion.
use Prim.Native.Nat.{ℕ, zero, suc, ◌+◌, ◌-◌, ◌≤◌, min}
use mathlib.Core.Path.{◌≡◌, refl, ap}
use mathlib.Core.Logic.{◌⊎◌, inl, inr}
use mathlib.Core.Bool.{Bool, true, false, ◌||◌}
use mathlib.Core.List.{List, [], ◌∷◌, ◌++◌, map}
use mathlib.Core.Option.{Option, none, some}
use native.Mathlib.Omega.{arith}

module _ {ℓ} {A : Type ℓ} where
  abbrev pub length : List A → ℕ
  length [] = 0
  length (x ∷ xs) = suc (length xs)

  abbrev pub take : ℕ → List A → List A
  take zero xs = []
  take (suc n) [] = []
  take (suc n) (x ∷ xs) = x ∷ take n xs

  abbrev pub drop : ℕ → List A → List A
  drop zero xs = xs
  drop (suc n) [] = []
  drop (suc n) (x ∷ xs) = drop n xs

  abbrev pub any : (A → Bool) → List A → Bool
  any p [] = false
  any p (x ∷ xs) = p x || any p xs

  -- The rows for which a test holds, in their order.
  abbrev pub filter : (A → Bool) → List A → List A
  filter p [] = []
  filter p (x ∷ xs) = let rest = filter p xs in elim (p x) [ true ↦ x ∷ rest | false ↦ rest ]

  abbrev pub head? : List A → Option A
  head? [] = none
  head? (x ∷ xs) = some x

-- `a` is one of the elements.
abbrev pub Has : {A : Type 0} → A → List A → Type 0
Has a [] = ⊥
Has a (x ∷ xs) = (a ≡ x) ⊎ Has a xs

module _ {ℓ κ} {A : Type ℓ} where
  abbrev pub All : (A → Type κ) → List A → Type κ
  All P [] = Unit
  All P (x ∷ xs) = P x × All P xs

  pub All-append : (P : A → Type κ) (xs ys : List A) → All P xs → All P ys → All P (xs ++ ys)
  All-append P [] ys hx hy = hy
  All-append P (x ∷ xs) ys hx hy = (hx.0, All-append P xs ys hx.1 hy)

  pub All-filter : (P : A → Type κ) (p : A → Bool) (xs : List A) → All P xs → All P (filter p xs)
  All-filter P p [] h = h
  All-filter P p (x ∷ xs) h = ground (arith, All-filter P p xs h.1)

  pub All-map :
      (P : A → Type κ) (f : A → A)
      → ((a : A) → P a → P (f a))
      → (xs : List A) → All P xs
      → All P (map f xs)
  All-map P f keep [] h = h
  All-map P f keep (x ∷ xs) h = (keep x h.0, All-map P f keep xs h.1)

module _ {ℓ} {A : Type ℓ} where
  pub length-append : (xs ys : List A) → length (xs ++ ys) ≡ length xs + length ys
  length-append [] ys = omega arith
  length-append (x ∷ xs) ys = omega (arith, length-append xs ys)

  pub length-take : (n : ℕ) (xs : List A) → length (take n xs) ≡ min n (length xs)
  length-take zero xs = omega arith
  length-take (suc n) [] = omega arith
  length-take (suc n) (x ∷ xs) = omega (arith, length-take n xs)

  pub length-drop : (n : ℕ) (xs : List A) → length (drop n xs) ≡ length xs - n
  length-drop zero xs = omega arith
  length-drop (suc n) [] = omega arith
  length-drop (suc n) (x ∷ xs) = omega (arith, length-drop n xs)

  pub take-append-drop : (n : ℕ) (xs : List A) → take n xs ++ drop n xs ≡ xs
  take-append-drop zero xs = refl
  take-append-drop (suc n) [] = refl
  take-append-drop (suc n) (x ∷ xs) = rw (take-append-drop n xs)

  pub drop-append_add : (xs ys : List A) (k : ℕ) → drop (length xs + k) (xs ++ ys) ≡ drop k ys
  drop-append_add [] ys k = ground arith
  drop-append_add (x ∷ xs) ys k =
      let e : suc (length xs) + k ≡ suc (length xs + k) = omega arith in
      rw e (drop-append_add xs ys k)

  pub drop-append_self : (xs ys : List A) → drop (length xs) (xs ++ ys) ≡ ys
  drop-append_self [] ys = refl
  drop-append_self (x ∷ xs) ys = drop-append_self xs ys

  pub drop-append_le :
      (k : ℕ) (xs ys : List A) → k ≤ length xs → drop k (xs ++ ys) ≡ drop k xs ++ ys
  drop-append_le zero xs ys h = refl
  drop-append_le (suc k) [] ys h = elim h [ ]
  drop-append_le (suc k) (x ∷ xs) ys h = drop-append_le k xs ys (omega arith)

  drop-nil : (n : ℕ) → drop {A = A} n [] ≡ []
  drop-nil zero = refl
  drop-nil (suc n) = refl

  pub drop-drop : (m k : ℕ) (xs : List A) → drop k (drop m xs) ≡ drop (m + k) xs
  drop-drop zero k xs = ground arith
  drop-drop (suc m) k [] = rw (drop-nil k, drop-nil (suc m + k)) refl
  drop-drop (suc m) k (x ∷ xs) =
      let e : suc m + k ≡ suc (m + k) = omega arith in rw e (drop-drop m k xs)

  pub filter-yes :
      (p : A → Bool) (x : A) (xs : List A) → p x ≡ true → filter p (x ∷ xs) ≡ x ∷ filter p xs
  filter-yes p x xs h =
      ap (λ (b : Bool). elim b as (λ c. List A) [ true ↦ x ∷ filter p xs | false ↦ filter p xs ]) h

  pub filter-no :
      (p : A → Bool) (x : A) (xs : List A) → p x ≡ false → filter p (x ∷ xs) ≡ filter p xs
  filter-no p x xs h =
      ap (λ (b : Bool). elim b as (λ c. List A) [ true ↦ x ∷ filter p xs | false ↦ filter p xs ]) h

  pub length-filter-le : (p : A → Bool) (xs : List A) → length (filter p xs) ≤ length xs
  length-filter-le p [] = omega arith
  length-filter-le p (x ∷ xs) = ground (arith, length-filter-le p xs)

module _ {A : Type 0} where
  pub All-Has : (P : A → Type 0) (xs : List A) (a : A) → All P xs → Has a xs → P a
  All-Has P [] a h m = absurd m
  All-Has P (x ∷ xs) a h (inl e) = rw e h.0
  All-Has P (x ∷ xs) a h (inr m) = All-Has P xs a h.1 m

  pub All-intro : (P : A → Type 0) (xs : List A) → ((a : A) → Has a xs → P a) → All P xs
  All-intro P [] h = tt
  All-intro P (x ∷ xs) h = (h x (inl refl), All-intro P xs (λ a m. h a (inr m)))

  pub Has-map : {B : Type 0} (f : A → B) (xs : List A) (a : A) → Has a xs → Has (f a) (map f xs)
  Has-map f [] a m = absurd m
  Has-map f (x ∷ xs) a (inl e) = inl (ap f e)
  Has-map f (x ∷ xs) a (inr m) = inr (Has-map f xs a m)

  pub Has-filter :
      (p : A → Bool) (xs : List A) (a : A) → Has a (filter p xs) → Has a xs × (p a ≡ true)
  Has-filter p [] a m = absurd m
  Has-filter p (x ∷ xs) a m = ground (arith, Has-filter p xs a)

  pub filter-Has :
      (p : A → Bool) (xs : List A) (a : A) → Has a xs → p a ≡ true → Has a (filter p xs)
  filter-Has p [] a m h = absurd m
  filter-Has p (x ∷ xs) a m h = ground (arith, filter-Has p xs a)

  pub Has-take : (n : ℕ) (xs : List A) (a : A) → Has a (take n xs) → Has a xs
  Has-take zero xs a m = absurd m
  Has-take (suc n) [] a m = absurd m
  Has-take (suc n) (x ∷ xs) a (inl e) = inl e
  Has-take (suc n) (x ∷ xs) a (inr m) = inr (Has-take n xs a m)

  pub none_Has :
      (p : A → Bool) (xs : List A) → ((a : A) → Has a xs → p a ≡ false) → any p xs ≡ false
  none_Has p [] h = refl
  none_Has p (x ∷ xs) h = rw (h x (inl refl), none_Has p xs (λ a m. h a (inr m))) refl

  pub Has-append : (xs ys : List A) (a : A) → Has a (xs ++ ys) → Has a xs ⊎ Has a ys
  Has-append [] ys a m = inr m
  Has-append (x ∷ xs) ys a m = ground (arith, Has-append xs ys a)

  pub map-Has :
      {B : Type 0} (f : B → A) (xs : List B) (a : A)
      → Has a (map f xs)
      → (b : B) × Has b xs × (a ≡ f b)
  map-Has f [] a m = absurd m
  map-Has f (x ∷ xs) a (inl e) = (x, inl refl, e)
  map-Has f (x ∷ xs) a (inr m) = let (b, h, e) = map-Has f xs a m in (b, inr h, e)

  pub any-Has : (p : A → Bool) (xs : List A) (a : A) → Has a xs → p a ≡ true → any p xs ≡ true
  any-Has p [] a m h = absurd m
  any-Has p (x ∷ xs) a (inl e) h = ground (arith, ap p e)
  any-Has p (x ∷ xs) a (inr m) h = ground (arith, any-Has p xs a m h)
