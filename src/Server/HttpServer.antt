-- ===== src/Server/HttpServer.antt =====
-- internal/server/httpserver: the middlewares and the handlers of the HTTP server.
pub mod Middleware
pub mod Handlers
pub mod RoundTrip
pub mod Deletion
pub mod Delayed
pub mod Lengths
pub mod Counting
pub mod Sessions
pub mod Routes
pub mod Serving
pub mod Running
pub mod Answers
pub mod Batch
pub mod EndToEnd
