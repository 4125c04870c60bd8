-- ===== src/Tests/Service.antt =====
-- The service between the servers and the storage, on concrete inputs.
use urlshortner.Prelude.{str, All, length, ◌≡◌, ◌≤◌, ◌+◌, ◌*◌, ◌/◌, ◌++◌, refl}
use urlshortner.GoStd.Base64
use urlshortner.GoStd.Base64.Laws.{IsUrlSafe}
use urlshortner.Shortener.{shorten_url, make_url}
use urlshortner.Shortener.Ids.{shorten_url_lem}
use urlshortner.Tests.Fixtures.{url, cfg}

shorten_url_test :
    shorten_url cfg (str "ya.ru") ≡ (str "eWEucnU", str "http://localhost:8080/eWEucnU")
unfolding shorten_url make_url Base64.encode Base64.encode_digit
shorten_url_test = refl

shorten_url_lem_example :
    (let (id, short) = shorten_url cfg url in
      (short ≡ cfg.base_url ++ str "/" ++ id)
      × All IsUrlSafe id
      × (length id ≡ (4 * length url + 2) / 3)
      × (length url ≤ length id))
shorten_url_lem_example = shorten_url_lem cfg url
