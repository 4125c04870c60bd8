-- ===== src/Crtgen/Servers.antt =====
-- The HTTPS server after cmd/crtgen: internal/server/httpserver/httpserver.go, `Run`, looks for
-- files of other names.
use urlshortner.Prelude.{
  Str, str, load, ◌==◌, returned, ◌≡◌, ◌∙◌, true, false, Option, none, some, List,
}
use urlshortner.Config.{Config}
use urlshortner.Storage.Errors.{Error}
use urlshortner.Storage.Filestorage.{Disk}
use urlshortner.Server.HttpServer.Running.{HttpServer, run}
use urlshortner.Crtgen.{Crypto, main}
use urlshortner.Crtgen.Files.{crt_path, key_path, main-elsewhere}

-- `ListenAndServeTLS` fails when there is no file with the certificate.
pub record NeedsCertificate (httpsrv : HttpServer Disk) : Type 0 where
  pub fails :
      (addr cert key : Str) (d : Disk)
      → load cert d.files ≡ none
      → (e : Error) × (httpsrv.listen_and_serve_tls addr cert key d ≡ (returned (some e), d))

-- Where the HTTP server looks for the certificate.
abbrev pub cert_path : HttpServer Disk → Config → Str
cert_path httpsrv cfg = httpsrv.join cfg.ssl_path (str "example.crt")

-- With TLS on, and no file `example.crt` in the server's folder before: the command, whatever it is
-- given and however it ends, makes none, as long as its own two files are other ones. So the HTTP
-- server still ends with an error.
pub generated_not_served :
    (x : Crypto) (httpsrv : HttpServer Disk) (cfg : Config) (os_args : List Str) (d : Disk)
    → NeedsCertificate httpsrv
    → cfg.use_tls ≡ true
    → (crt_path x os_args == cert_path httpsrv cfg) ≡ false
    → (key_path x os_args == cert_path httpsrv cfg) ≡ false
    → load (cert_path httpsrv cfg) d.files ≡ none
    → (err : Option Error) × (d' : Disk) × (e : Error) × (main x os_args d ≡ (returned err, d'))
      × (run httpsrv cfg d' ≡ (returned (some e), d'))
unfolding run
generated_not_served x httpsrv cfg os_args d needs tls no_crt no_key missing =
    let cert = cert_path httpsrv cfg in
    let (err, d', ended, same) = main-elsewhere x os_args cert d no_crt no_key in
    let (e, failed) =
      needs.fails cfg.srv_addr cert (httpsrv.join cfg.ssl_path (str "example.key")) d'
        (same ∙ missing) in
    (err, d', e, ended, rw tls failed)
