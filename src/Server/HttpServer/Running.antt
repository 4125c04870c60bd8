-- ===== src/Server/HttpServer/Running.antt =====
-- internal/server/httpserver/httpserver.go: `Run` and `Shutdown`. The `http.Server` is a parameter.
use urlshortner.Prelude.{Str, str, Exec, pure, ◌>>=◌, Option, none, if◌then◌else◌}
use urlshortner.Config.{Config}
use urlshortner.Storage.Errors.{Error}

pub record HttpServer (W : Type 0) : Type 0 where
  pub join : Str → Str → Str
  pub listen_and_serve : Str → Exec W (Option Error)
  pub listen_and_serve_tls : Str → Str → Str → Exec W (Option Error)
  pub shutdown : Exec W (Option Error)

module _ {W : Type 0} (httpsrv : HttpServer W) (cfg : Config) where
  unfoldable pub run : Exec W (Option Error)
  run =
      if cfg.use_tls
      then httpsrv.listen_and_serve_tls cfg.srv_addr (httpsrv.join cfg.ssl_path (str "example.crt"))
          (httpsrv.join cfg.ssl_path (str "example.key"))
      else httpsrv.listen_and_serve cfg.srv_addr

  -- The error of the shutdown is dropped.
  unfoldable pub shutdown : Exec W (Option Error)
  shutdown = httpsrv.shutdown >>= λ err. pure none
