-- ===== src/Server.antt =====
-- internal/server: sessions, and the two servers that carry the service to a client.
pub mod Auth
pub mod Http
pub mod Router
pub mod HttpServer
pub mod GrpcServer
pub mod Choice
pub mod Missing
use urlshortner.Prelude.{if◌then◌else◌}
use urlshortner.Config.{Config}

pub data ServerKind : Type 0 where
  http_server grpc_server : ServerKind

-- `server.New`.
unfoldable pub new : Config → ServerKind
new c = if c.use_grpc then grpc_server else http_server
