-- ===== src/Base/Dict.antt =====
-- `map[string]T`: an association list with at most one entry for a key. The order of the entries
-- is the order in which a loop over the map meets them.
use mathlib.Core.Path.{◌≡◌, refl, sym, ap, ◌∙◌}
use mathlib.Core.List.{List, [], ◌∷◌, map}
use mathlib.Core.Logic.{inl, inr}
use mathlib.Core.Option.{Option, none, some}
use native.Mathlib.Omega.{arith}
use bg_pls.Base.Tests.{if◌then◌else◌, Bool-cases}
use bg_pls.Base.Strings.{Text, text_eq, text_eq_iff, eq_of_text_eq}

abbrev pub Dict {ℓ} : Type ℓ → Type ℓ
Dict V = List (Text × V)

module _ {ℓ} {V : Type ℓ} where
  -- `m[k]`, with the `ok` of the two-valued form.
  unfoldable pub lookup : Text → Dict V → Option V
  lookup k [] = none
  lookup k ((j, v) ∷ m) = if text_eq j k then some v else lookup k m

  -- `m[k] = v`.
  unfoldable pub insert : Text → V → Dict V → Dict V
  insert k v [] = (k, v) ∷ []
  insert k v ((j, w) ∷ m) = if text_eq j k then (k, v) ∷ m else (j, w) ∷ insert k v m

  -- `delete(m, k)`.
  unfoldable pub erase : Text → Dict V → Dict V
  erase k [] = []
  erase k ((j, w) ∷ m) = if text_eq j k then erase k m else (j, w) ∷ erase k m

  abbrev pub values : Dict V → List V
  values = map (λ e. e.1)

  abbrev pub keys : Dict V → List Text
  keys = map (λ e. e.0)

  pub lookup-insert :
      (k j : Text) (v : V) (m : Dict V)
      → lookup j (insert k v m) ≡ (if text_eq k j then some v else lookup j m)
  unfolding lookup insert
  lookup-insert k j v [] = refl
  lookup-insert k j v ((i, w) ∷ m) =
      ground (arith, text_eq_iff k j, text_eq_iff i k, text_eq_iff i j, lookup-insert k j v m)

  pub lookup-erase :
      (k j : Text) (m : Dict V) → lookup j (erase k m) ≡ (if text_eq k j then none else lookup j m)
  unfolding lookup erase
  lookup-erase k j [] = ground arith
  lookup-erase k j ((i, w) ∷ m) =
      ground (arith, text_eq_iff k j, text_eq_iff i k, text_eq_iff i j, lookup-erase k j m)

  -- What a loop leaves at one key: an entry or none.
  abbrev pub put : Text → Option V → Dict V → Dict V
  put k none m = erase k m
  put k (some v) m = insert k v m

  pub lookup-put :
      (k j : Text) (o : Option V) (m : Dict V)
      → lookup j (put k o m) ≡ (if text_eq k j then o else lookup j m)
  lookup-put k j none m = lookup-erase k j m
  lookup-put k j (some v) m = lookup-insert k j v m

  -- To put back what was there undoes any change at the key.
  pub put_back :
      (k j : Text) (o : Option V) (m : Dict V)
      → lookup j (put k (lookup k m) (put k o m)) ≡ lookup j m
  put_back k j o m =
      rw (lookup-put k j (lookup k m) (put k o m), lookup-put k j o m)
        (elim (Bool-cases (text_eq k j)) [
          | inl e ↦ rw e (ap (λ i. lookup i m) (eq_of_text_eq k j e))
          | inr e ↦ rw e refl
        ])

  -- Maps that agree at every key still agree after the same assignment or deletion.
  pub insert-agree :
      (k : Text) (v : V) (m n : Dict V)
      → ((j : Text) → lookup j m ≡ lookup j n)
      → (j : Text) → lookup j (insert k v m) ≡ lookup j (insert k v n)
  insert-agree k v m n h j =
      lookup-insert k j v m
      ∙ ap (λ x. if text_eq k j then some v else x) (h j)
      ∙ sym (lookup-insert k j v n)

  pub erase-agree :
      (k : Text) (m n : Dict V)
      → ((j : Text) → lookup j m ≡ lookup j n)
      → (j : Text) → lookup j (erase k m) ≡ lookup j (erase k n)
  erase-agree k m n h j =
      lookup-erase k j m
      ∙ ap (λ x. if text_eq k j then none else x) (h j)
      ∙ sym (lookup-erase k j n)
