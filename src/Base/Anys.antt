-- ===== src/Base/Anys.antt =====
-- A loop that looks for an element, by what its test means.
use mathlib.Core.Path.{◌≡◌, refl}
use mathlib.Core.Bool.{Bool, true, false}
use mathlib.Core.List.{List, [], ◌∷◌}
use mathlib.Core.Logic.{◌↔◌}
use native.Mathlib.Omega.{arith}
use bg_pls.Base.Lists.{any, All, Any}

module _ {A : Type 0} (p : A → Bool) (P : A → Type 0) where
  pub any-false : ((x : A) → (p x ≡ false) ↔ P x) → (xs : List A) → (any p xs ≡ false) ↔ All P xs
  any-false h [] = (λ _. tt, λ _. refl)
  any-false h (x ∷ xs) = ground (arith, h x, any-false h xs)

  pub any-true : ((x : A) → (p x ≡ true) ↔ P x) → (xs : List A) → (any p xs ≡ true) ↔ Any P xs
  any-true h [] = (λ e. absurd (cc), λ e. absurd e)
  any-true h (x ∷ xs) = ground (arith, h x, any-true h xs)
