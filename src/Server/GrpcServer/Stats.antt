-- ===== src/Server/GrpcServer/Stats.antt =====
-- `Stats` and `PingStorage` of `grpcserver.go`. `net` and `database/sql` are parameters.
use urlshortner.Prelude.{
  ℕ, Str, str, Exec, panic, pure, ◌>>=◌, Bool, false, not, Option, none, some, ◌++◌, if◌then◌else◌,
  [],
}
use urlshortner.Storage.Database.Ping.{Pinger, pingdb}
use urlshortner.Storage.Errors.{Error, error_text}
use urlshortner.Shortener
use urlshortner.Shortener.{MyShortener}
use urlshortner.Server.GrpcServer.{internal, unauthenticated, Reply, failure}

pub record StatsResponse : Type 0 where
  pub urls : ℕ
  pub users : ℕ
  pub error : Str

pub record PingStorageResponse : Type 0 where
  pub error : Str

-- The peer of a call, and the text `Addr.String()` of its address, which may be nil. Over TCP that
-- is the host with the port.
pub data Peer : Type 0 where
  no_peer : Peer
  no_addr : Peer
  addr : Str → Peer

-- `net.ParseIP` gives a nil IP for a text that is none, and no subnet contains it.
pub record Net : Type 1 where
  pub Ip : Type 0
  pub Subnet : Type 0
  pub parse_ip : Str → Option Ip
  pub parse_cidr : Str → Option Subnet
  pub in_subnet : Subnet → Ip → Bool

-- A value of Go's type `interface{}`, as the two counts come out of `singleflight`: they are of the
-- type `int`, and the handler asserts `int32`.
pub data Dynamic : Type 0 where
  go_int go_int32 : ℕ → Dynamic

unfoldable pub as_int32 : {S : Type 0} → Dynamic → Exec S ℕ
as_int32 (go_int n) = panic
as_int32 (go_int32 n) = pure n

module _ (net : Net) {S : Type 0} (m : MyShortener S) where
  open net use {parse_ip, parse_cidr, in_subnet}

  abbrev refused : Str → StatsResponse
  refused text = record { urls = 0; users = 0; error = text }

  -- `sfgr.Do` hands a count on as an `interface{}`.
  abbrev as_dynamic : ℕ × Option Error → Dynamic × Option Error
  as_dynamic (n, err) = (go_int n, err)

  stats_done : Dynamic → Dynamic × Option Error → Exec S (Reply StatsResponse)
  unfolding as_int32
  stats_done urls (users, some e) = pure (refused (error_text e), failure internal (error_text e))
  stats_done urls (users, none) = do
    users_count ← as_int32 users
    urls_count ← as_int32 urls
    pure (record { urls = urls_count; users = users_count; error = [] }, none)

  stats_urls : Dynamic × Option Error → Exec S (Reply StatsResponse)
  unfolding stats_done
  stats_urls (urls, some e) = pure (refused (error_text e), failure internal (error_text e))
  stats_urls (urls, none) = do
    counted ← Shortener.count_users m
    stats_done urls (as_dynamic counted)

  abbrev contains_ip : net.Subnet → Option net.Ip → Bool
  contains_ip subnet none = false
  contains_ip subnet (some ip) = in_subnet subnet ip

  stats_from : Str → Exec S (Reply StatsResponse)
  unfolding stats_urls
  stats_from address = elim (parse_cidr m.config.trusted_subnet) [
    | none ↦
        let text = str "failed to parse trusted subnet from config: " ++ m.config.trusted_subnet in
        pure (refused text, failure internal text)
    | some subnet ↦
        if not (contains_ip subnet (parse_ip address))
        then pure (
          refused (str "call from unathorized subnet"),
          failure unauthenticated (str "call from unathorized subnet"),
        )
        else (do counted ← Shortener.count_urls m; stats_urls (as_dynamic counted))
  ]

  unfoldable pub stats : Peer → Exec S (Reply StatsResponse)
  unfolding stats_from
  stats no_peer =
      let text = str "failed to get peer from ctx" in
      pure (refused text, failure unauthenticated text)
  stats no_addr =
      let text = str "failed to get peer address" in
      pure (refused text, failure unauthenticated text)
  stats (addr address) = stats_from address

  unfoldable pub ping_storage : Pinger → Exec S (Reply PingStorageResponse)
  ping_storage sql = elim (pingdb sql m.config.db_dsn) [
    | none ↦ pure (record { error = [] }, none)
    | some e ↦ pure (record { error = error_text e }, failure internal (error_text e))
  ]
