-- ===== src/Common/Results.antt =====
-- Go's (value, error) pairs: a function that may fail returns a value or an error, never both.
use mathlib.Core.Path.{◌≡◌, refl}
use mathlib.Core.Bool.{Bool, true, false}

pub data Result {ℓ} (Problem : Type 0) (Value : Type ℓ) : Type ℓ where
  err : Problem → Result Problem Value
  ok : Value → Result Problem Value

module _ {Problem : Type 0} where
  -- `if err != nil { return err }`
  module _ {ℓ κ} {Value : Type ℓ} {Next : Type κ} where
    infixl 5 ◌>>=◌
    abbrev pub ◌>>=◌ : Result Problem Value → (Value → Result Problem Next) → Result Problem Next
    err problem >>= _ = err problem
    ok value >>= next = next value

    pub >>=-eq-ok :
        (first : Result Problem Value) (next : Value → Result Problem Next) {last : Next}
        → first >>= next ≡ ok last
        → (value : Value) × (first ≡ ok value) × (next value ≡ ok last)
    >>=-eq-ok (err _) _ succeeded = absurd (cc succeeded)
    >>=-eq-ok (ok value) _ succeeded = (value, refl, succeeded)

  infixl 5 ◌>>◌
  abbrev pub ◌>>◌ {κ} :
      {Next : Type κ} → Result Problem (Unit {0}) → Result Problem Next → Result Problem Next
  check >> next = check >>= λ _. next

  -- `if !holds { return problem }`
  abbrev pub guard : Bool → Problem → Result Problem (Unit {0})
  guard false problem = err problem
  guard true _ = ok tt

  pub guard-eq-ok :
      (holds : Bool) (problem : Problem) {u : Unit {0}} → guard holds problem ≡ ok u → holds ≡ true
  guard-eq-ok false _ passed = absurd (cc passed)
  guard-eq-ok true _ _ = refl

  pub ok-injective {ℓ} :
      {Value : Type ℓ} {x y : Value} → ◌≡◌ {A = Result Problem Value} (ok x) (ok y) → x ≡ y
  ok-injective same = cc
