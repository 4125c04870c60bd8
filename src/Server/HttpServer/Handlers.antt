-- ===== src/Server/HttpServer/Handlers.antt =====
-- internal/server/httpserver/handlers.go and httpdatastruct.go: the handlers of the routes.
-- `encoding/json`, `compress/gzip`, `net` and `http.Redirect`'s text are parameters; encoding the
-- messages of this file does not fail. `singleflight` is the call itself, since one request runs at
-- a time.
pub mod Shorten
pub mod Lookup
pub mod Stats
use urlshortner.Prelude.{
  ℕ, Str, str, ◌==◌, length, Exec, returned, pure, panic, ◌>>=◌, ◌>>◌, Bool, true, false, not,
  Option, none, some, List, [], ◌∷◌, ◌++◌, if◌then◌else◌, nat_eq,
}
use urlshortner.Storage.Errors.{Error, error_text, is_conflict, is_url_gone}
use urlshortner.Storage.Database.Ping.{Pinger}
use urlshortner.Storage.Interface.{Pair, Pairs}
use urlshortner.Shortener
use urlshortner.Shortener.{MyShortener, shorten_url}
use urlshortner.Server.Http.{
  Request, Response, Handler, on_store, respond, http_error, set_header, write_header, write_body,
}

pub record Urlwid : Type 0 where
  pub correlation_id : Str
  pub original_url : Str

pub record Urlwidres : Type 0 where
  pub correlation_id : Str
  pub short_url : Str

pub record StatsData : Type 0 where
  pub urls : ℕ
  pub users : ℕ

-- The standard library behind the handlers.
pub record Wire : Type 1 where
  -- `json.Decoder`: the value that it leaves, and its error. A `urlreq` is its URL.
  pub decode_urlreq : Str → Str × Option Error
  pub decode_batch : Str → List Urlwid × Option Error
  pub decode_ids : Str → List Str × Option Error
  -- `json.Encoder`. A `urlres` is its result.
  pub encode_urlres : Str → Str
  pub encode_batch : List Urlwidres → Str
  pub encode_pairs : Pairs → Str
  pub encode_stats : StatsData → Str
  -- The body behind `Content-Encoding: gzip`, read to its end.
  pub gunzip : Str × Option Error → Str × Option Error
  -- `http.Redirect`: the location for a URL at a path, and the text below it.
  pub location : Str → Str → Str
  pub redirect_text : Str → Str
  -- `net.ParseIP`, `net.ParseCIDR` and `Contains`.
  pub Ip : Type 0
  pub Subnet : Type 0
  pub parse_ip : Str → Option Ip
  pub parse_cidr : Str → Option Subnet
  pub in_subnet : Subnet → Ip → Bool
  -- `database/sql`, for `database.Pingdb`.
  pub pinger : Pinger

abbrev pub ct_json : Str
ct_json = str "application/json"

abbrev pub set_content_type : Response → Response
set_content_type w = set_header (str "Content-Type") ct_json w

module _ (wire : Wire) where
  open wire use {gunzip}

  abbrev no_body : Str × Option Error → Str × Option Error
  no_body (b, none) = (b, none)
  no_body (b, some e) = ([], some e)

  unfoldable pub read_body : Request → Str × Option Error
  read_body r =
      no_body
        (if r.get_header (str "Content-Encoding") == str "gzip" then gunzip r.body else r.body)

-- The user of the context, or "" where none is set.
abbrev pub or_empty : Option Str → Str
or_empty none = []
or_empty (some s) = s
