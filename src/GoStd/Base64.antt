-- ===== src/GoStd/Base64.antt =====
-- `base64.RawURLEncoding` of `encoding/base64`: the URL-safe alphabet, with no padding.
pub mod Laws
use urlshortner.Prelude.{ℕ, ◌+◌, ◌-◌, ◌*◌, ◌/◌, ◌%◌, Str, [], ◌∷◌, ltb, nat_eq, if◌then◌else◌}

-- The alphabet is `A-Z a-z 0-9 - _`.
unfoldable pub encode_digit : ℕ → ℕ
encode_digit n =
    if ltb n 26
    then n + 65
    else if ltb n 52
    then n + 71
    else if ltb n 62
    then n - 4
    else if nat_eq n 62
    then 45
    else 95

-- `EncodeToString`: four digits for three bytes, and two or three for what is left.
unfoldable pub encode : Str → Str
encode [] = []
encode (a ∷ []) = encode_digit (a / 4) ∷ encode_digit (a % 4 * 16) ∷ []
encode (a ∷ b ∷ []) =
    encode_digit (a / 4) ∷ encode_digit (a % 4 * 16 + b / 16) ∷ encode_digit (b % 16 * 4) ∷ []
encode (a ∷ b ∷ c ∷ s) =
    encode_digit (a / 4)
    ∷ encode_digit (a % 4 * 16 + b / 16)
    ∷ encode_digit (b % 16 * 4 + c / 64)
    ∷ encode_digit (c % 64)
    ∷ encode s
