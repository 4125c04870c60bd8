-- ===== src/Tests/Servers.antt =====
-- The two servers on concrete inputs.
use urlshortner.Prelude.{
  Str, str, contains, length, ◌==◌, returned, ◌≡◌, ◌++◌, refl, true, false, none, some, nat_eq,
  Bool, ◌&&◌, ◌||◌, inr, arith, List, [], ◌∷◌, if◌then◌else◌,
}
use urlshortner.Config
use urlshortner.Config.{ignore_os_args}
use urlshortner.Storage.Inmemory.Counts.{HasNoRepeats, owners}
use urlshortner.Storage.Inmemory.Table.{entry, delete_in}
use urlshortner.Shortener.{in_memory, shorten_url}
use urlshortner.Server.{http_server, new}
use urlshortner.Server.Choice.{new-http_server}
use urlshortner.Server.Http.{Request, new_response, http_error, status}
use urlshortner.Server.HttpServer.Handlers.{Wire, Urlwid, ct_json, read_body}
use urlshortner.Server.HttpServer.Handlers.Shorten.{shorten_batch_json}
use urlshortner.Server.HttpServer.Batch.{
  all_new, ids_of, results_of, batch_response, conflict_response, shorten_batch_lem,
}
use urlshortner.Server.HttpServer.Handlers.Lookup.{make_long, delete_batch}
use urlshortner.Server.HttpServer.Handlers.Stats
use urlshortner.Server.HttpServer.Deletion.{get_status, delete_then_get}
use urlshortner.Server.HttpServer.Counting.{IsLastPart, is_trusted, counts_response, stats_lem}
use urlshortner.Server.GrpcServer.{Context, get_user_id}
use urlshortner.Server.GrpcServer.Handlers.{get_long, shorten}
use urlshortner.Server.GrpcServer.RoundTrip.{shorten_reply, record_after, shorten_then_get_long}
use urlshortner.Server.GrpcServer.Stats.{Net, addr}
use urlshortner.Server.GrpcServer.Stats as GrpcStats
use urlshortner.Server.GrpcServer.Calls.{long_reply, get_long_lem}
use urlshortner.Server.GrpcServer.Subnet.{is_digit, IsNet, unanswered, stats_refused}
use urlshortner.Tests.Config.{no_file}
use urlshortner.Tests.Fixtures.{
  url, url_id, url-IsBytes, storage, storage-IsWf, storage-IsShortened, disk, cfg, join_fields,
  wire, request,
}

abbrev post : Request
post = request (str "/") (str "u2") url

abbrev get : Request
get = request (b'/' ∷ url_id) (str "u3") []

-- `DELETE` by the owner, of the one id that `wire` decodes from the body.
abbrev del : Request
del = record (request (str "/api/user/urls") (str "u1") url_id) {
  get_header = λ name. if name == str "Content-Type" then ct_json else [];
}

del_typed : del.get_header (str "Content-Type") ≡ ct_json
unfolding ◌==◌
del_typed = refl

del_read : read_body wire del ≡ (url_id, none)
unfolding read_body ◌==◌
del_read = refl

delete_then_get_example :
    (let deleted =
        delete_batch wire (in_memory join_fields cfg) del ((storage, disk), new_response) in
      let got = make_long wire (in_memory join_fields cfg) get (deleted.1.0, new_response) in
      (deleted.0 ≡ returned tt)
      × (status deleted.1.1 ≡ 202)
      × (got.0 ≡ returned tt)
      × (status got.1.1
          ≡ get_status (delete_in (str "u1") (url_id ∷ []) url_id (entry storage url_id))))
delete_then_get_example =
    delete_then_get wire join_fields cfg del get (str "u1") url_id url_id (url_id ∷ []) storage disk
      storage-IsWf refl del_typed del_read refl refl

-- A request for the statistics, with the address of a proxy.
abbrev proxied : Request
proxied = record get { get_header = λ name. str "172.16.0.9,10.0.0.1" }

stats_lem_example :
    (part : Str) × IsLastPart (proxied.get_header (str "X-Real-IP")) part
    × (us : List Str) × HasNoRepeats us
    × ((u : Str) → contains u us ≡ contains u (owners storage.entries))
    × (Stats.stats wire (in_memory join_fields cfg) proxied ((storage, disk), new_response) ≡ (
      returned tt,
      (
        (storage, disk),
        elim (wire.parse_cidr cfg.trusted_subnet) [
          | none ↦
              http_error
                (str "failed to parse trusted subnet from config: " ++ cfg.trusted_subnet)
                500
                new_response
          | some subnet ↦
              if is_trusted wire join_fields cfg subnet part
              then counts_response wire join_fields cfg (length storage.entries) (length us)
              else http_error [] 403 new_response
        ],
      ),
    ))
stats_lem_example = stats_lem wire join_fields cfg proxied storage disk storage-IsWf

get_long_lem_example :
    get_long (in_memory join_fields cfg) url_id (storage, disk)
    ≡ (long_reply url_id (entry storage url_id), (storage, disk))
get_long_lem_example = get_long_lem join_fields cfg url_id storage disk storage-IsWf

abbrev is_dotted : Str → Bool
is_dotted [] = true
is_dotted (b ∷ s) = (is_digit b || nat_eq b b'.') && is_dotted s

is_dotted-port : (host port : Str) → is_dotted (host ++ b':' ∷ port) ≡ false
is_dotted-port [] port = refl
is_dotted-port (b ∷ host) port = ground (arith, is_dotted-port host port)

abbrev net : Net
net = record {
  Ip = Str;
  Subnet = Str;
  parse_ip = λ s. if is_dotted s then some s else none;
  parse_cidr = λ s. some s;
  in_subnet = λ subnet ip. true;
}

net-IsNet : IsNet net
net-IsNet = record {
  no_brackets = λ rest. refl;
  no_port = λ host port dotted digits. rw (is_dotted-port host port) refl;
}

stats_refused_example :
    GrpcStats.stats net (in_memory join_fields cfg) (addr (str "10.0.0.1:40312")) (storage, disk)
    ≡ (
      returned (unanswered net (in_memory join_fields cfg) (net.parse_cidr cfg.trusted_subnet)),
      (storage, disk),
    )
stats_refused_example =
    stats_refused net (in_memory join_fields cfg) (str "10.0.0.1:40312") (storage, disk) net-IsNet
      (inr (
        str "10.0.0.1",
        str "40312",
        (refl, (refl, (refl, (refl, (refl, (refl, (refl, (refl, tt)))))))),
        (refl, (refl, (refl, (refl, (refl, tt))))),
        refl,
      ))

new-http_server_example :
    new (Config.new (str "-r" ∷ str "true" ∷ []) (λ name. []) no_file []) ≡ http_server
new-http_server_example = new-http_server (str "-r" ∷ str "true" ∷ []) (λ name. []) no_file []

-- A call of the user "u2".
abbrev call_context : Context
call_context = record { authorization = []; user_id = str "u2" ∷ [] }

call_context-named : get_user_id call_context ≡ (str "u2", none)
unfolding get_user_id ◌==◌
call_context-named = refl

shorten_then_get_long_example :
    (let m = in_memory join_fields cfg in
      let id = (shorten_url cfg url).0 in
      let stored = shorten m call_context url (storage, disk) in
      (stored.0 ≡ returned (shorten_reply url id (entry storage id)))
      × ((get_long m id stored.1).0
          ≡ long_reply id (some (record_after url (str "u2") (entry storage id)))))
shorten_then_get_long_example =
    shorten_then_get_long join_fields cfg call_context url (str "u2") storage disk url-IsBytes
      storage-IsWf storage-IsShortened call_context-named

-- A message of two URLs.
abbrev message : List Urlwid
message =
    record { correlation_id = str "1"; original_url = str "ya.ru" }
    ∷ record { correlation_id = str "2"; original_url = url }
    ∷ []

abbrev batch_wire : Wire
batch_wire = record wire { decode_batch = λ body. (message, none) }

abbrev batch_post : Request
batch_post = record del { path = str "/api/shorten/batch" }

batch_read : read_body batch_wire batch_post ≡ (url_id, none)
unfolding read_body ◌==◌
batch_read = refl

shorten_batch_lem_example :
    (let after =
        shorten_batch_json batch_wire
          (in_memory join_fields cfg)
          batch_post
          ((storage, disk), new_response) in
      (after.0 ≡ returned tt)
      × (after.1.1 ≡ (
          if all_new (ids_of batch_wire join_fields cfg message) storage
          then batch_response batch_wire join_fields cfg
              (results_of batch_wire join_fields cfg message)
              new_response
          else conflict_response batch_wire join_fields cfg new_response)))
shorten_batch_lem_example =
    shorten_batch_lem batch_wire join_fields cfg batch_post (str "u1") url_id message storage disk
      storage-IsWf refl del_typed batch_read refl
