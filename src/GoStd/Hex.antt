-- ===== src/GoStd/Hex.antt =====
-- `encoding/hex`: two lower-case digits for each byte.
use urlshortner.Prelude.{
  ℕ, ◌+◌, ◌-◌, ◌*◌, ◌/◌, ◌%◌, ◌<◌, Str, IsBytes, ◌≡◌, refl, ◌&&◌, Option, none, some, [], ◌∷◌,
  arith, leb, ltb, if◌then◌else◌, length,
}

hex_digit : ℕ → ℕ
hex_digit n = if ltb n 10 then n + 48 else n + 87

-- `EncodeToString`.
unfoldable pub encode : Str → Str
unfolding hex_digit
encode [] = []
encode (b ∷ s) = hex_digit (b / 16) ∷ hex_digit (b % 16) ∷ encode s

-- Digits of either case are read; `none` is `InvalidByteError`.
from_hex : ℕ → Option ℕ
from_hex c =
    if leb 48 c && leb c 57
    then some (c - 48)
    else if leb 97 c && leb c 102
    then some (c - 87)
    else if leb 65 c && leb c 70
    then some (c - 55)
    else none

abbrev join_digits : Option ℕ → Option ℕ → Option Str → Option Str
join_digits (some hi) (some lo) (some s) = some ((hi * 16 + lo) ∷ s)
join_digits _ _ _ = none

-- `DecodeString`; an odd length is an error.
unfoldable pub decode : Str → Option Str
unfolding from_hex
decode [] = some []
decode (c ∷ []) = none
decode (c ∷ d ∷ s) = join_digits (from_hex c) (from_hex d) (decode s)

from_hex-hex_digit : (n : ℕ) → n < 16 → from_hex (hex_digit n) ≡ some n
unfolding from_hex hex_digit
from_hex-hex_digit n h = ground arith

byte_digits : (b : ℕ) → (b / 16) * 16 + b % 16 ≡ b
byte_digits b = omega arith

pub decode-encode : (s : Str) → IsBytes s → decode (encode s) ≡ some s
unfolding encode decode
decode-encode [] h = refl
decode-encode (b ∷ s) (hb, hs) = rw (
  from_hex-hex_digit (b / 16) (omega arith),
  from_hex-hex_digit (b % 16) (omega arith),
  decode-encode s hs,
  byte_digits b,
)

pub length-encode : (s : Str) → length (encode s) ≡ 2 * length s
unfolding encode
length-encode [] = refl
length-encode (b ∷ s) = omega (arith, length-encode s)

hex_digit-lt : (n : ℕ) → n < 16 → hex_digit n < 256
unfolding hex_digit
hex_digit-lt n h = ground arith

pub encode-IsBytes : (s : Str) → IsBytes s → IsBytes (encode s)
unfolding encode
encode-IsBytes [] h = tt
encode-IsBytes (b ∷ s) (hb, hs) = (
  hex_digit-lt (b / 16) (omega arith),
  (hex_digit-lt (b % 16) (omega arith), encode-IsBytes s hs),
)
