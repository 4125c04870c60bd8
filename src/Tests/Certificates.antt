-- ===== src/Tests/Certificates.antt =====
-- The command that makes a certificate, and the server that looks for it.
use urlshortner.Prelude.{
  Str, str, load, ◌==◌, returned, ◌≡◌, refl, true, false, Option, none, some, List, [], ◌∷◌, ◌++◌,
}
use urlshortner.Config.{Config}
use urlshortner.Storage.Errors.{Error, message}
use urlshortner.Storage.Filestorage.{Disk}
use urlshortner.Server.HttpServer.Running.{HttpServer, run}
use urlshortner.Crtgen.{Crypto, folder, main}
use urlshortner.Crtgen.Files.{crt_path, key_path, HasPem, main-files}
use urlshortner.Crtgen.Servers.{NeedsCertificate, cert_path, generated_not_served}
use urlshortner.Tests.Fixtures.{cfg}

abbrev joined : Str → Str → Str
joined path name = path ++ str "/" ++ name

-- A block is its type and its bytes.
abbrev crypto : Crypto
crypto = record {
  Time = Str;
  PrivateKey = Str;
  now = str "2023";
  now_again = str "2023";
  add_date = λ time years months days. str "2033";
  generate_key = λ bits. (str "secret", none);
  create_certificate = λ template key. (str "signed", none);
  marshal_key = λ key. key;
  pem_encode = λ block bytes. (block ++ b'\n' ∷ bytes, none);
  join = joined;
}

-- The certificate of an earlier run, with a longer text.
abbrev old_disk : Disk
old_disk = record {
  files = (str "ssl/.crt", str "CERTIFICATE of an earlier run") ∷ [];
  open_error = λ path. none;
  append = λ path text more. (text ++ more, none);
}

abbrev os_args : List Str
os_args = str "crtgen" ∷ str "ssl" ∷ []

apart_test : (crt_path crypto os_args == key_path crypto os_args) ≡ false
unfolding folder ◌==◌
apart_test = refl

main-files_example :
    (d' : Disk) × (main crypto os_args old_disk ≡ (returned none, d'))
    × HasPem crypto (crt_path crypto os_args) (str "CERTIFICATE") (str "signed") old_disk d'
    × HasPem crypto (key_path crypto os_args) (str "RSA PRIVATE KEY") (str "secret") old_disk d'
main-files_example =
    main-files crypto os_args (str "secret") (str "signed") old_disk refl refl (λ path. refl)
      (λ block bytes. refl) apart_test

abbrev tls_cfg : Config
tls_cfg = record cfg { use_tls = true; ssl_path = str "ssl" }

abbrev no_file : Error
no_file = message (str "no such file or directory")

-- A server that serves at once, when there is a certificate.
abbrev httpsrv : HttpServer Disk
httpsrv = record {
  join = joined;
  listen_and_serve = λ addr d. (returned none, d);
  listen_and_serve_tls = λ addr cert key d. elim (load cert d.files) [
    | some text ↦ (returned none, d)
    | none ↦ (returned (some no_file), d)
  ];
  shutdown = λ d. (returned none, d);
}

httpsrv-NeedsCertificate : NeedsCertificate httpsrv
httpsrv-NeedsCertificate = record {
  fails = λ addr cert key d missing. (no_file, rw (missing, httpsrv) refl);
}

crt_apart : (crt_path crypto os_args == cert_path httpsrv tls_cfg) ≡ false
unfolding folder ◌==◌
crt_apart = refl

key_apart : (key_path crypto os_args == cert_path httpsrv tls_cfg) ≡ false
unfolding folder ◌==◌
key_apart = refl

missing_test : load (cert_path httpsrv tls_cfg) old_disk.files ≡ none
unfolding load ◌==◌
missing_test = refl

generated_not_served_example :
    (err : Option Error) × (d' : Disk) × (e : Error) × (main crypto os_args old_disk
      ≡ (returned err, d'))
    × (run httpsrv tls_cfg d' ≡ (returned (some e), d'))
generated_not_served_example =
    generated_not_served crypto httpsrv tls_cfg os_args old_disk httpsrv-NeedsCertificate refl
      crt_apart key_apart missing_test
