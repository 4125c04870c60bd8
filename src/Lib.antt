-- ===== src/Lib.antt =====
-- A model of the URL shortener, with the theorems that make it correct.
--
-- The parts of the program and their modules:
--   * GoStd: the functions of Go's standard library that the program computes with
--     (strconv.ParseBool, encoding/hex, encoding/base64's RawURLEncoding, the decimal numbers of
--     fmt, and bufio.Writer).
--   * Storage: internal/storage. Storage.Interface is the interface storerLoader of storage.go as
--     a record of operations, with Storage.LoadByUser, and Storage.Opening is New of that file;
--     Storage.Errors is storageerrors; Storage.Inmemory is inmemory/inmemory.go, a function for
--     each method of ims; Storage.Filestorage is inmemory/filestorage/filestorage.go.
--     Storage.Database is database/database.go: its queries and insertions; Storage.Database.Buffer
--     has DeleteURLs, Write, Flush and the ticker over the buffer of the deletions,
--     Storage.Database.Loader puts the two together, Storage.Database.Setup has New, and
--     Storage.Database.Tables and Storage.Database.Users have what the methods rely on of
--     PostgreSQL; Storage.Database.Ping is Pingdb.
--   * Config: internal/config. The options of funcoptions.go and New of config.go; Config.Fields and
--     Config.Sources have the other functions of config.go, Config.Flags the package flag.
--   * Shortener: internal/shortener/shortener.go, over any storage.
--   * Server.Auth: internal/server/auth/auth.go. Server.Http is net/http as the handlers use it;
--     Server.HttpServer is internal/server/httpserver with its middleware and its handlers, and
--     Server.GrpcServer is internal/server/grpcserver/grpcserver.go. Server itself is server.go.
--     Server.Router is internal/router/router.go over chi, and Server.HttpServer.Serving what the
--     http.Server of httpserver.go does with a request; Server.HttpServer.Answers has requests one
--     after the other, and Server.HttpServer.EndToEnd a URL on its way in and out.
--     Server.HttpServer.Running and Server.GrpcServer.Running have Run and Shutdown.
--   * Program: cmd/shortener/main.go. Crtgen: cmd/crtgen/main.go.
--   * Staticlint: the list of cmd/staticlint/main.go, in Staticlint.Analysers, and the analyzer of
--     cmd/staticlint/osexitcheck/osexitcheck.go.
--   * Tests: runs on concrete inputs and instances of the theorems.
--
-- How the parts meet: a handler runs behind AuthMW (or the gRPC interceptor), which finds or opens
-- a session in the storage; it calls the service, and the service calls the storage. The state is
-- passed along: a method of the storage has the type Exec S A, from a state to an outcome (a value,
-- or a panic) and the next state, and a handler works on the pair of that state and the response.
-- An error is a value of type Option Error beside the result, as in Go.
--
-- The deletions of the database wait in the 4096 bytes of a bufio.Writer, until a tick or an
-- overflow hands them to Write. Each method is one step there, as its mutex has it, but
-- Storage.Database.Buffer.Overlap takes the two critical sections of DeleteURLs apart.
--
-- Text is a list of bytes, and a number is a natural number; the program does no arithmetic that
-- could overflow. A sync.Map is an association list; the order of Range is the order of the list.
-- Every loop is structural recursion over the list or the tree that the source ranges over, but for
-- two: the digits of a number run on fuel, the number and one more, which is more than it has
-- digits; and the loop in the Write of a bufio.Writer, which runs twice at most, is written out.
--
-- LoadUrlsByUser and DeleteURLs of the memory each run a goroutine that ranges over the map beside
-- one that receives. In Storage.Inmemory they are one walk; Storage.Inmemory.Interleaving has the
-- two goroutines of DeleteURLs as a step relation over the same map. Requests are otherwise handled
-- one at a time, so singleflight runs every count.
--
-- Parameters: encoding/csv (a text for each record, and the records of a text), encoding/json,
-- encoding/gob, compress/gzip, net (addresses and subnets), path/filepath, AES-GCM, uuid,
-- crypto/rand, crypto/x509 and encoding/pem, chi, the suites of analyzers, the environment, the
-- files of the configuration, database/sql, and what net/http and google.golang.org/grpc do to
-- listen, to serve and to stop.
-- Of AES-GCM the theorems ask that opening undoes sealing, that a sealed text is bytes, and that
-- it is longer by the tag of 16 bytes; of encoding/gob that a decoder reads what one encoder has
-- written, and fails at a message that is cut short; of chi (Server.Router.Matching) that a
-- request runs the route of its method and path (of RawPath where that is set) behind the route's
-- middlewares, a route without a parameter going before one with a parameter, and that a request
-- with no route reaches no handler; of ListenAndServeTLS that it fails without the file of the
-- certificate; of http.Redirect that it leaves an absolute URL of printable ASCII as it is; of
-- net.ParseIP that it reads no address with a port; of the names of the analyzers that different
-- packages have different ones; of PostgreSQL what its manual says of the tables that initDB
-- creates, of ON CONFLICT, of UPDATE and of transactions, for texts of ASCII without NUL, since
-- it refuses a NUL and what is not UTF-8.
-- A turn of the HTTP server draws a user id from uuid, whose New panics when crypto/rand fails, and
-- bytes from crypto/rand, with its error. A file may fail to open, and appending to it may fail.
--
-- Not modelled: the printing of the data of the build in cmd/shortener; the generated protobuf code.
pub mod Prelude
pub mod GoStd
pub mod Storage
pub mod Config
pub mod Shortener
pub mod Server
pub mod Program
pub mod Crtgen
pub mod Staticlint
pub mod Tests
