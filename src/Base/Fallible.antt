-- ===== src/Base/Fallible.antt =====
-- A call that returns a value and an error: one of the two. `do` blocks chain the early returns.
use mathlib.Core.Path.{◌≡◌, refl}
use mathlib.Core.Logic.{◌⊎◌, inl, inr}
use mathlib.Core.Bool.{Bool, true, false}
use mathlib.Core.Option.{Option, none, some}

pub data Fallible (E A : Type 0) : Type 0 where
  err : E → Fallible E A
  ok : A → Fallible E A

module _ {E : Type 0} where
  infixl 5 ◌>>=◌
  abbrev pub ◌>>=◌ : {A B : Type 0} → Fallible E A → (A → Fallible E B) → Fallible E B
  err failure >>= next = err failure
  ok value >>= next = next value

  -- A guard: the error where the test holds.
  abbrev pub fail_if : Bool → E → Fallible E (Unit {0})
  fail_if false failure = ok tt
  fail_if true failure = err failure

  abbrev pub require : {A : Type 0} → E → Option A → Fallible E A
  require failure (some value) = ok value
  require failure none = err failure

  module _ {A : Type 0} where
    pub ok-injective : {x y : A} → ◌≡◌ {A = Fallible E A} (ok x) (ok y) → x ≡ y
    ok-injective same = cc

    pub require-eq-ok : (failure : E) (o : Option A) {x : A} → require failure o ≡ ok x → o ≡ some x
    require-eq-ok failure (some value) same = cc
    require-eq-ok failure none same = cc

    -- What a chain that succeeds has passed through.
    pub passed :
        {B : Type 0} (first : Fallible E A) (next : A → Fallible E B) {y : B}
        → (first >>= next) ≡ ok y
        → (x : A) × (first ≡ ok x) × (next x ≡ ok y)
    passed (err failure) next same = cc
    passed (ok value) next same = (value, refl, same)

    pub Fallible-cases : (r : Fallible E A) → ((e : E) × (r ≡ err e)) ⊎ ((x : A) × (r ≡ ok x))
    Fallible-cases (err e) = inl (e, refl)
    Fallible-cases (ok x) = inr (x, refl)
