-- ===== src/Server/HttpServer/Handlers/Stats.antt =====
-- `stats` and `pingStorage`.
use urlshortner.Prelude.{
  ℕ, Str, str, Exec, ◌>>=◌, ◌>>◌, Bool, false, not, Option, none, some, [], ◌∷◌, ◌++◌,
  if◌then◌else◌, nat_eq,
}
use urlshortner.Storage.Database.Ping.{pingdb}
use urlshortner.Storage.Errors.{Error, error_text}
use urlshortner.Shortener
use urlshortner.Shortener.{MyShortener, shorten_url}
use urlshortner.Server.Http.{
  Response, Handler, on_store, respond, http_error, write_header, write_body,
}
use urlshortner.Server.HttpServer.Handlers.{Wire}

-- `strings.Split(s, ",")`, its last part.
unfoldable pub last_part : Str → Str → Str
last_part cur [] = cur
last_part cur (b ∷ s) = last_part (if nat_eq b b',' then [] else cur ++ b ∷ []) s

module _ (wire : Wire) {S : Type 0} (m : MyShortener S) where
  open wire use {encode_stats, parse_ip, parse_cidr, in_subnet, pinger}

  ping_answer : Option Error → Exec (S × Response) (Unit {0})
  ping_answer (some e) = do respond (http_error (error_text e) 500); respond (write_header 200)
  ping_answer none = respond (write_header 200)

  unfoldable pub ping_storage : Handler S
  unfolding ping_answer
  ping_storage r = ping_answer (pingdb pinger m.config.db_dsn)

  stats_users : ℕ → ℕ × Option Error → Exec (S × Response) (Unit {0})
  stats_users urls (users, some e) =
      respond (http_error (str "failed to get data from storage: " ++ error_text e) 500)
  stats_users urls (users, none) =
      respond (write_body (encode_stats (record { urls = urls; users = users })))

  stats_urls : ℕ × Option Error → Exec (S × Response) (Unit {0})
  unfolding stats_users
  stats_urls (urls, some e) =
      respond (http_error (str "failed to get data from storage: " ++ error_text e) 500)
  stats_urls (urls, none) = on_store (Shortener.count_users m) >>= stats_users urls

  -- `ip == nil || !net.Contains(ip)`.
  abbrev trusts : wire.Subnet → Option wire.Ip → Bool
  trusts subnet none = false
  trusts subnet (some ip) = in_subnet subnet ip

  unfoldable pub stats : Handler S
  unfolding stats_urls
  stats r =
      let ip = parse_ip (last_part [] (r.get_header (str "X-Real-IP"))) in
      elim (parse_cidr m.config.trusted_subnet) [
        | none ↦ respond (
            http_error
              (str "failed to parse trusted subnet from config: " ++ m.config.trusted_subnet) 500)
        | some subnet ↦
            if not (trusts subnet ip)
            then respond (http_error [] 403)
            else (on_store (Shortener.count_urls m) >>= stats_urls)
      ]
