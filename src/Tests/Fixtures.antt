-- ===== src/Tests/Fixtures.antt =====
-- Concrete values that the tests share.
use urlshortner.Prelude.{
  ℕ, zero, suc, ◌<◌, Str, str, IsBytes, ◌≡◌, refl, true, false, Option, none, some, List, [], ◌∷◌,
  ◌++◌, arith, ◌==◌, contains, load, Bool-cases, inl, inr, eq_sound, sym, ◌∙◌, if◌then◌else◌,
}
use urlshortner.GoStd.Base64
use urlshortner.Shortener.Finding.{IsShortened}
use urlshortner.Config.{Config, empty_config}
use urlshortner.Storage.Errors.{Error}
use urlshortner.Storage.Filestorage.{Disk}
use urlshortner.Storage.Inmemory.{Storer, ims_storer, Ims}
use urlshortner.Storage.Inmemory.Invariant.{IsWf}
use urlshortner.Server.Auth.{Gcm}
use urlshortner.Server.Auth.Sessions.{IsCipher}
use urlshortner.Server.Http.{Request, no_cookie}
use urlshortner.Server.HttpServer.EndToEnd.Targets.{is_absolute}
use urlshortner.Server.HttpServer.Handlers.{Wire}

abbrev pub url : Str
url = str "http://ya.ru/test"

-- What `base64` gives for it.
abbrev pub url_id : Str
url_id = str "aHR0cDovL3lhLnJ1L3Rlc3Q"

abbrev pub owned : Storer
owned = record { url = url; user_id = str "u1"; deleted = false }

abbrev pub empty_storage : Ims
empty_storage = record { entries = []; sessions = []; file_manager = none }

-- One URL, of the user "u1", and one session of that user.
abbrev pub storage : Ims
storage = record {
  entries = (url_id, ims_storer owned) ∷ [];
  sessions = (str "5e55", str "u1") ∷ [];
  file_manager = some (record { file_path = str "db.csv" });
}

pub storage-IsWf : IsWf storage
unfolding contains
storage-IsWf = record { distinct = (refl, tt); own = (tt, tt) }

pub url-IsBytes : IsBytes url
url-IsBytes = grind arith

pub url_id_test : Base64.encode url ≡ url_id
unfolding Base64.encode Base64.encode_digit
url_id_test = refl

-- Its record stands under the id of its URL.
pub storage-IsShortened : IsShortened storage
unfolding load
storage-IsShortened = record {
  ids = λ id r e. elim (Bool-cases (url_id == id)) [
    | inl hit ↦
        let one : owned ≡ r = ground arith in
        let here : url_id ≡ id = eq_sound url_id id hit in
        rw (sym one) (sym here ∙ sym url_id_test, url-IsBytes)
    | inr miss ↦ absurd (ground arith)
  ];
}

abbrev pub disk : Disk
disk = record {
  files = [];
  open_error = λ path. none;
  append = λ path text more. (text ++ more, none);
}

-- A text for a record, in the place of `encoding/csv`'s.
abbrev pub join_fields : List Str → Str
join_fields [] = b'\n' ∷ []
join_fields (f ∷ fs) = f ++ b',' ∷ join_fields fs

-- One record, in the place of what `encoding/csv` reads.
abbrev pub one_record : Str → List (List Str) × Option Error
one_record text = ((url_id ∷ url ∷ str "u1" ∷ str "false" ∷ []) ∷ [], none)

abbrev pub cfg : Config
cfg = record empty_config { base_url = str "http://localhost:8080"; trusted_subnet = str "10." }

-- A cipher of the right shape: sixteen bytes in front.
abbrev tag : Str
tag = 0 ∷ 0 ∷ 0 ∷ 0 ∷ 0 ∷ 0 ∷ 0 ∷ 0 ∷ 0 ∷ 0 ∷ 0 ∷ 0 ∷ 0 ∷ 0 ∷ 0 ∷ 0 ∷ []

abbrev untag : ℕ → Str → Option Str
untag zero t = some t
untag (suc n) [] = none
untag (suc n) (b ∷ t) = untag n t

abbrev pub tagging : Gcm
tagging = record { seal = λ k n t. tag ++ t; open_sealed = λ k n t. untag 16 t }

pub tagging-IsCipher : IsCipher tagging
tagging-IsCipher = record {
  opens = λ k n t h. refl;
  bytes = λ k n t h.
      let z : 0 < 256 = omega arith in
      (z, (z, (z, (z, (z, (z, (z, (z, (z, (z, (z, (z, (z, (z, (z, (z, h))))))))))))))));
  tagged = λ k n t. omega arith;
}

-- The standard library behind the handlers, on the little that the tests use.
abbrev pub wire : Wire
wire = record {
  decode_urlreq = λ s. (s, none);
  decode_batch = λ s. ([], none);
  decode_ids = λ s. (s ∷ [], none);
  encode_urlres = λ s. s;
  encode_batch = λ res. [];
  encode_pairs = λ p. [];
  encode_stats = λ st. st.urls ∷ st.users ∷ [];
  gunzip = λ b. b;
  location = λ path u. if is_absolute u then u else path ++ u;
  redirect_text = λ u. u;
  Ip = Str;
  Subnet = Str;
  parse_ip = λ s. if s == [] then none else some s;
  parse_cidr = λ s. if s == [] then none else some s;
  in_subnet = λ n ip. true;
  pinger = record {
    open_dsn = λ dsn. none;
    conn = λ dsn. none;
    ping_conn = λ dsn. none;
    ping_db = λ dsn. none;
  };
}

-- A request with no header, for a path, a user and a body.
abbrev pub request : Str → Str → Str → Request
request path user_id body = record {
  method = str "GET";
  path = path;
  raw_path = [];
  get_header = λ name. [];
  header_values = λ name. [];
  cookie = no_cookie;
  user_id = some user_id;
  body = (body, none);
}
