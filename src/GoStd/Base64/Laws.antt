-- ===== src/GoStd/Base64/Laws.antt =====
-- The laws of `base64.RawURLEncoding`: its inverse, its lengths and its alphabet.
use urlshortner.Prelude.{
  ℕ, ◌+◌, ◌-◌, ◌*◌, ◌/◌, ◌%◌, ◌<◌, Str, IsBytes, All, ◌≡◌, ◌⊎◌, true, refl, ap, ◌∙◌, sym, ◌&&◌, [],
  ◌∷◌, arith, leb, nat_eq, if◌then◌else◌, length,
}
use urlshortner.GoStd.Base64.{encode_digit, encode}

-- The value of a digit.
decode_digit : ℕ → ℕ
decode_digit c =
    if leb 97 c
    then c - 71
    else if nat_eq c 95
    then 63
    else if leb 65 c
    then c - 65
    else if leb 48 c
    then c + 4
    else 62

decode_digit-encode_digit : (n : ℕ) → n < 64 → decode_digit (encode_digit n) ≡ n
unfolding decode_digit encode_digit
decode_digit-encode_digit n h = ground arith

-- The inverse of `encode`, on its outputs.
decode : Str → Str
decode (p ∷ q ∷ []) = (decode_digit p * 4 + decode_digit q / 16) ∷ []
decode (p ∷ q ∷ r ∷ []) =
    (decode_digit p * 4 + decode_digit q / 16)
    ∷ (decode_digit q % 16 * 16 + decode_digit r / 4)
    ∷ []
decode (p ∷ q ∷ r ∷ t ∷ s) =
    (decode_digit p * 4 + decode_digit q / 16)
    ∷ (decode_digit q % 16 * 16 + decode_digit r / 4)
    ∷ (decode_digit r % 4 * 64 + decode_digit t)
    ∷ decode s
decode _ = []

decode-encode : (s : Str) → IsBytes s → decode (encode s) ≡ s
unfolding decode encode
decode-encode [] h = refl
decode-encode (a ∷ []) (ha, h) =
    ground (arith, decode_digit-encode_digit (a / 4), decode_digit-encode_digit (a % 4 * 16))
decode-encode (a ∷ b ∷ []) (ha, (hb, h)) = ground (
  arith,
  decode_digit-encode_digit (a / 4),
  decode_digit-encode_digit (a % 4 * 16 + b / 16),
  decode_digit-encode_digit (b % 16 * 4),
)
decode-encode (a ∷ b ∷ c ∷ s) (ha, (hb, (hc, h))) = ground (
  arith,
  decode_digit-encode_digit (a / 4),
  decode_digit-encode_digit (a % 4 * 16 + b / 16),
  decode_digit-encode_digit (b % 16 * 4 + c / 64),
  decode_digit-encode_digit (c % 64),
  decode-encode s h,
)

-- Texts with the same encoding are the same text.
pub encode_injective : (s t : Str) → IsBytes s → IsBytes t → encode s ≡ encode t → s ≡ t
encode_injective s t hs ht e = sym (decode-encode s hs) ∙ ap decode e ∙ decode-encode t ht

-- A text of n bytes has ⌈4n/3⌉ digits.
pub length-encode : (s : Str) → length (encode s) ≡ (4 * length s + 2) / 3
unfolding encode
length-encode [] = refl
length-encode (a ∷ []) = refl
length-encode (a ∷ b ∷ []) = refl
length-encode (a ∷ b ∷ c ∷ s) = omega (arith, length-encode s)

-- Letters, digits, `-` and `_` alone.
abbrev pub IsUrlSafe : ℕ → Type 0
IsUrlSafe c =
    ((leb 65 c && leb c 90) ≡ true)
    ⊎ ((leb 97 c && leb c 122) ≡ true)
    ⊎ ((leb 48 c && leb c 57) ≡ true)
    ⊎ (c ≡ 45)
    ⊎ (c ≡ 95)

encode_digit-IsUrlSafe : (n : ℕ) → IsUrlSafe (encode_digit n)
unfolding encode_digit
encode_digit-IsUrlSafe n = ground arith

pub encode-IsUrlSafe : (s : Str) → All IsUrlSafe (encode s)
unfolding encode
encode-IsUrlSafe [] = tt
encode-IsUrlSafe (a ∷ []) = (encode_digit-IsUrlSafe _, (encode_digit-IsUrlSafe _, tt))
encode-IsUrlSafe (a ∷ b ∷ []) =
    (encode_digit-IsUrlSafe _, (encode_digit-IsUrlSafe _, (encode_digit-IsUrlSafe _, tt)))
encode-IsUrlSafe (a ∷ b ∷ c ∷ s) =
    let first = encode_digit-IsUrlSafe (a / 4) in
    let second = encode_digit-IsUrlSafe (a % 4 * 16 + b / 16) in
    let third = encode_digit-IsUrlSafe (b % 16 * 4 + c / 64) in
    let fourth = encode_digit-IsUrlSafe (c % 64) in
    (first, (second, (third, (fourth, encode-IsUrlSafe s))))
