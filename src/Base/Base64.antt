-- ===== src/Base/Base64.antt =====
-- `base64.RawURLEncoding`: six bits to a character, no padding. Decoding drops line breaks and
-- keeps what stands before the first group that is not valid, as Go's decoder returns it beside
-- its error.
use Prim.Native.Nat.{ℕ, ◌+◌, ◌-◌, ◌*◌, ◌/◌, ◌%◌, ◌<◌}
use mathlib.Core.Bool.{Bool, true, false, not, ◌&&◌, ◌||◌}
use mathlib.Core.List.{[], ◌∷◌}
use mathlib.Core.Option.{Option, none, some}
use mathlib.Core.Path.{◌≡◌, refl}
use native.Mathlib.Omega.{arith}
use bg_pls.Base.Tests.{ltb, leb, ◌==◌, if◌then◌else◌}
use bg_pls.Base.Lists.{filter, any, length, All}
use bg_pls.Base.Strings.{Text}

encode_digit : ℕ → ℕ
encode_digit v =
    if ltb v 26
    then v + b'A'
    else if ltb v 52
    then v + 71
    else if ltb v 62
    then v - 4
    else if v == 62
    then b'-'
    else b'_'

decode_digit : ℕ → Option ℕ
decode_digit c =
    if leb b'A' c && leb c b'Z'
    then some (c - b'A')
    else if leb b'a' c && leb c b'z'
    then some (c - 71)
    else if leb b'0' c && leb c b'9'
    then some (c + 4)
    else if c == b'-'
    then some 62
    else if c == b'_'
    then some 63
    else none

unfoldable pub encode : Text → Text
unfolding encode_digit
encode [] = []
encode (a ∷ []) = encode_digit (a / 4) ∷ encode_digit (a % 4 * 16) ∷ []
encode (a ∷ b ∷ []) =
    encode_digit (a / 4) ∷ encode_digit (a % 4 * 16 + b / 16) ∷ encode_digit (b % 16 * 4) ∷ []
encode (a ∷ b ∷ c ∷ s) =
    encode_digit (a / 4)
    ∷ encode_digit (a % 4 * 16 + b / 16)
    ∷ encode_digit (b % 16 * 4 + c / 64)
    ∷ encode_digit (c % 64)
    ∷ encode s

digits2 : Option ℕ → Option ℕ → Text
digits2 (some x) (some y) = (x * 4 + y / 16) ∷ []
digits2 _ _ = []

digits3 : Option ℕ → Option ℕ → Option ℕ → Text
digits3 (some x) (some y) (some z) = (x * 4 + y / 16) ∷ (y % 16 * 16 + z / 4) ∷ []
digits3 _ _ _ = []

digits4 : Option ℕ → Option ℕ → Option ℕ → Option ℕ → Text → Text
digits4 (some x) (some y) (some z) (some w) rest =
    (x * 4 + y / 16) ∷ (y % 16 * 16 + z / 4) ∷ (z % 4 * 64 + w) ∷ rest
digits4 _ _ _ _ rest = []

decode_groups : Text → Text
unfolding decode_digit digits2 digits3 digits4
decode_groups [] = []
decode_groups (a ∷ []) = []
decode_groups (a ∷ b ∷ []) = digits2 (decode_digit a) (decode_digit b)
decode_groups (a ∷ b ∷ c ∷ []) = digits3 (decode_digit a) (decode_digit b) (decode_digit c)
decode_groups (a ∷ b ∷ c ∷ d ∷ s) =
    digits4 (decode_digit a) (decode_digit b) (decode_digit c) (decode_digit d) (decode_groups s)

unfoldable pub decode : Text → Text
unfolding decode_groups
decode s = decode_groups (filter (λ c. not (c == 10 || c == 13)) s)

-- Whether the decoder answers without an error.
unfoldable pub is_encoding : Text → Bool
unfolding decode_digit
is_encoding s =
    let t = filter (λ c. not (c == 10 || c == 13)) s in
    not (any (λ c. elim (decode_digit c) [ none ↦ true | some _ ↦ false ]) t)
    && not (length t % 4 == 1)

decode-encode_digit : (v : ℕ) → v < 64 → decode_digit (encode_digit v) ≡ some v
unfolding decode_digit encode_digit
decode-encode_digit v h = ground arith

encode_digit-IsLine : (v : ℕ) → v < 64 → not (encode_digit v == 10 || encode_digit v == 13) ≡ true
unfolding encode_digit
encode_digit-IsLine v h = ground arith

-- What the encoder writes holds no line break.
filter-encode :
    (s : Text) → All (λ b. b < 256) s → filter (λ c. not (c == 10 || c == 13)) (encode s) ≡ encode s
unfolding encode
filter-encode [] h = refl
filter-encode (a ∷ []) h =
    rw (encode_digit-IsLine (a / 4) (omega arith), encode_digit-IsLine (a % 4 * 16) (omega arith))
filter-encode (a ∷ b ∷ []) h = rw (
  encode_digit-IsLine (a / 4) (omega arith),
  encode_digit-IsLine (a % 4 * 16 + b / 16) (omega arith),
  encode_digit-IsLine (b % 16 * 4) (omega arith),
)
filter-encode (a ∷ b ∷ c ∷ s) h = rw (
  encode_digit-IsLine (a / 4) (omega arith),
  encode_digit-IsLine (a % 4 * 16 + b / 16) (omega arith),
  encode_digit-IsLine (b % 16 * 4 + c / 64) (omega arith),
  encode_digit-IsLine (c % 64) (omega arith),
  filter-encode s h.1.1.1,
)

groups-encode : (s : Text) → All (λ b. b < 256) s → decode_groups (encode s) ≡ s
unfolding encode decode_groups digits2 digits3 digits4
groups-encode [] h = refl
groups-encode (a ∷ []) h =
    rw (decode-encode_digit (a / 4) (omega arith), decode-encode_digit (a % 4 * 16) (omega arith))
      (ground arith)
groups-encode (a ∷ b ∷ []) h =
    rw
      (
        decode-encode_digit (a / 4) (omega arith),
        decode-encode_digit (a % 4 * 16 + b / 16) (omega arith),
        decode-encode_digit (b % 16 * 4) (omega arith),
      )
      (ground arith)
groups-encode (a ∷ b ∷ c ∷ s) h =
    rw
      (
        decode-encode_digit (a / 4) (omega arith),
        decode-encode_digit (a % 4 * 16 + b / 16) (omega arith),
        decode-encode_digit (b % 16 * 4 + c / 64) (omega arith),
        decode-encode_digit (c % 64) (omega arith),
        groups-encode s h.1.1.1,
      )
      (ground arith)

pub decode-encode : (s : Text) → All (λ b. b < 256) s → decode (encode s) ≡ s
unfolding decode
decode-encode s h = rw (filter-encode s h) (groups-encode s h)
