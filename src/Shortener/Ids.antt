-- ===== src/Shortener/Ids.antt =====
-- The ids of `ShortenURL`.
use urlshortner.Prelude.{◌+◌, ◌*◌, ◌/◌, ◌≤◌, Str, str, IsBytes, All, length, ◌≡◌, refl, ◌++◌, arith}
use urlshortner.GoStd.Base64.Laws.{encode_injective, encode-IsUrlSafe, length-encode, IsUrlSafe}
use urlshortner.Config.{Config}
use urlshortner.Shortener.{make_url, shorten_url}

-- Two URLs, which are texts of bytes, have the same id only if they are the same.
pub shorten_url_injective :
    (c : Config) (url url' : Str)
    → IsBytes url
    → IsBytes url'
    → (shorten_url c url).0 ≡ (shorten_url c url').0
    → url ≡ url'
unfolding shorten_url
shorten_url_injective c url url' h h' e = encode_injective url url' h h' e

-- The id is made of letters, digits, `-` and `_` alone, so it stands in the path of the short URL as
-- it is. It is never shorter than the URL: n bytes give ⌈4n/3⌉ of them.
pub shorten_url_lem :
    (c : Config) (url : Str)
    → (let (id, short) = shorten_url c url in
        (short ≡ c.base_url ++ str "/" ++ id)
        × All IsUrlSafe id
        × (length id ≡ (4 * length url + 2) / 3)
        × (length url ≤ length id))
unfolding shorten_url make_url
shorten_url_lem c url =
    (refl, encode-IsUrlSafe url, length-encode url, omega (arith, length-encode url))
