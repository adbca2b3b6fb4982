-- ===== src/Prelude/Results.antt =====
-- A call that returns a value or one of its module's errors, and its `do` notation.
use mathlib.Core.Path.{◌≡◌, refl}
use mathlib.Core.Logic.{◌⊎◌, inl, inr}
use mathlib.Core.Option.{Option, none, some}

pub data Result {κ ℓ} (Err : Type κ) (Val : Type ℓ) : Type (κ ⊔ ℓ) where
  err : Err → Result Err Val
  ok : Val → Result Err Val

module _ {κ ℓ μ} {Err : Type κ} {Val : Type ℓ} {Out : Type μ} where
  infixl 5 ◌>>=◌
  abbrev pub ◌>>=◌ : Result Err Val → (Val → Result Err Out) → Result Err Out
  err why >>= rest = err why
  ok v >>= rest = rest v

  pub >>=-eq-ok :
      (r : Result Err Val) (rest : Val → Result Err Out) {out : Out}
      → r >>= rest ≡ ok out
      → (v : Val) × (r ≡ ok v) × (rest v ≡ ok out)
  >>=-eq-ok (err why) rest e = cc
  >>=-eq-ok (ok v) rest e = (v, refl, e)

module _ {κ ℓ} {Err : Type κ} {Val : Type ℓ} where
  abbrev pub or_fail : Option Val → Err → Result Err Val
  or_fail (some v) why = ok v
  or_fail none why = err why

  pub Result-cases : (r : Result Err Val) → ((v : Val) × (r ≡ ok v)) ⊎ ((why : Err) × (r ≡ err why))
  Result-cases (err why) = inr (why, refl)
  Result-cases (ok v) = inl (v, refl)
