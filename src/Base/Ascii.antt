-- ===== src/Base/Ascii.antt =====
-- `strings.ToLower` on ASCII text, `strings.Contains`, `strings.Join` and `fmt.Sprint` of an
-- unsigned number.
use Prim.Native.Nat.{ℕ, zero, suc, ◌+◌, ◌/◌, ◌%◌}
use mathlib.Core.Bool.{Bool, true, false, ◌&&◌, ◌||◌}
use mathlib.Core.List.{List, [], ◌∷◌, ◌++◌, map}
use bg_pls.Base.Tests.{ltb, leb, ◌==◌, if◌then◌else◌}
use bg_pls.Base.Strings.{Text}

unfoldable pub lower_byte : ℕ → ℕ
lower_byte c = if leb b'A' c && leb c b'Z' then c + 32 else c

abbrev pub to_lower : Text → Text
to_lower = map lower_byte

unfoldable pub starts_with : Text → Text → Bool
starts_with s [] = true
starts_with [] (q ∷ qs) = false
starts_with (c ∷ s) (q ∷ qs) = c == q && starts_with s qs

-- `strings.Contains(s, q)`.
unfoldable pub contains : Text → Text → Bool
unfolding starts_with
contains [] q = starts_with [] q
contains (c ∷ s) q = starts_with (c ∷ s) q || contains s q

unfoldable pub join : Text → List Text → Text
join sep [] = []
join sep (x ∷ []) = x
join sep (x ∷ y ∷ xs) = x ++ (sep ++ join sep (y ∷ xs))

-- Decimal digits; the fuel bounds the number of digits after the first.
unfoldable pub digits : ℕ → ℕ → Text
digits zero n = (b'0' + n % 10) ∷ []
digits (suc f) n =
    let more = digits f (n / 10) in
    if ltb n 10 then (b'0' + n) ∷ [] else more ++ (b'0' + n % 10) ∷ []

-- A uint64 has at most twenty digits.
unfoldable pub sprint : ℕ → Text
unfolding digits
sprint = digits 19
