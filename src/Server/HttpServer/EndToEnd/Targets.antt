-- ===== src/Server/HttpServer/EndToEnd/Targets.antt =====
-- Where `http.Redirect`, which internal/server/httpserver/handlers.go calls, sends a client.
use urlshortner.Prelude.{
  Str, str, nat_eq, ltb, Bool, true, false, ◌&&◌, ◌||◌, Bool-cases, inl, inr, ◌≡◌, refl, [], ◌∷◌,
  if◌then◌else◌,
}
use urlshortner.Server.HttpServer.Handlers.{Wire}

begins : Str → Str → Bool
begins [] s = true
begins (b ∷ pre) [] = false
begins (b ∷ pre) (c ∷ s) = nat_eq b c && begins pre s

is_printable : Str → Bool
is_printable [] = true
is_printable (b ∷ s) = ltb 32 b && ltb b 127 && is_printable s

-- The URL begins with its scheme, HTTP or HTTPS, and has printable ASCII alone.
unfoldable pub is_absolute : Str → Bool
unfolding begins is_printable
is_absolute url = (begins (str "http://") url || begins (str "https://") url) && is_printable url

-- `http.Redirect` completes a URL without a scheme by the path of the request, and it escapes what is
-- not ASCII; a URL with both is left as it is.
pub record IsRedirect (wire : Wire) : Type 0 where
  pub leaves : (path url : Str) → is_absolute url ≡ true → wire.location path url ≡ url

module _ (wire : Wire) (path url : Str) where
  -- The very URL, or what `http.Redirect` makes of one that is not absolute.
  abbrev pub target : Str
  target = if is_absolute url then url else wire.location path url

  pub location-target : IsRedirect wire → wire.location path url ≡ target
  location-target laws = elim (Bool-cases (is_absolute url)) [
    | inl absolute ↦ rw absolute (laws.leaves path url absolute)
    | inr other ↦ rw other refl
  ]
