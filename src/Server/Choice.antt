-- ===== src/Server/Choice.antt =====
-- Which of the two servers the program starts.
use urlshortner.Prelude.{Str, List, ◌≡◌, refl}
use urlshortner.Config
use urlshortner.Config.{Files, ConfigOption}
use urlshortner.Config.Priority.{new-use_grpc}
use urlshortner.Server.{http_server, new}

-- Whatever the options, the command line, the environment and the file say, `server.New` makes the
-- HTTP server: `fillCfg` drops the gRPC mode.
pub new-http_server :
    (os_args : List Str) (getenv : Str → Str) (files : Files) (opts : List ConfigOption)
    → new (Config.new os_args getenv files opts) ≡ http_server
unfolding new
new-http_server os_args getenv files opts = rw (new-use_grpc os_args getenv files opts) refl
