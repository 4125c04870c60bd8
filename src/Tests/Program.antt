-- ===== src/Tests/Program.antt =====
-- The program and its servers from outside, on concrete inputs.
use urlshortner.Prelude.{
  ℕ, suc, str, ◌==◌, Exec, returned, ◌≡◌, refl, true, false, Option, none, some, if◌then◌else◌,
  pure,
}
use urlshortner.Config.{Config, empty_config}
use urlshortner.Storage.Errors.{Error, message}
use urlshortner.Storage.Filestorage
use urlshortner.Storage.Filestorage.{Disk}
use urlshortner.Storage.Inmemory
use urlshortner.Storage.Database.Setup.{Driver}
use urlshortner.Storage.Opening
use urlshortner.Storage.Opening.{Opened, in_memory}
use urlshortner.Program.{main, run_error_lost}
use urlshortner.Server.{ServerKind}
use urlshortner.Server.GrpcServer.Running.{Transport, Works, listen, shutdown, shutdown_lem, new}
use urlshortner.Tests.Fixtures.{empty_storage, disk, one_record}
use urlshortner.Tests.Gobs.{coding}

-- A database that takes everything.
abbrev driver : Driver (Unit {0})
driver = record {
  open_dsn = λ dsn. pure none;
  create_users = pure none;
  create_urls = pure none;
  prepare_store_url = pure none;
  prepare_store_session = pure none;
}

abbrev in_use : Error
in_use = message (str "listen tcp :8080: bind: address already in use")

-- A server that cannot listen.
abbrev no_address : ServerKind → Opened coding → Exec (Disk × Unit {0}) (Option Error)
no_address kind strg = pure (some in_use)

opened_test :
    Opening.new one_record coding driver empty_config (disk, tt)
    ≡ (returned (some (in_memory empty_storage), none), (disk, tt))
unfolding Opening.new Inmemory.new Filestorage.new ◌==◌
opened_test = refl

run_error_lost_example :
    main one_record coding driver no_address (λ e. false) empty_config (disk, tt)
    ≡ (returned tt, (disk, tt))
run_error_lost_example =
    run_error_lost one_record coding driver no_address (λ e. false) empty_config
      (in_memory empty_storage) (some in_use) (disk, tt) (disk, tt) (disk, tt) opened_test refl

-- A network that counts its calls, and works.
abbrev counting : Transport ℕ ℕ
counting = record {
  join = λ path name. name;
  listen = λ addr n. (returned none, suc n);
  load_key_pair = λ cert key n. (returned none, suc n);
  new_server = λ n. (returned n, suc n);
  serve = λ gs n. (returned none, suc n);
  graceful_stop = λ gs n. (returned tt, suc n);
}

abbrev flush_nothing : Exec ℕ (Option Error)
flush_nothing n = (returned none, n)

abbrev with_tls : Config
with_tls = record empty_config { use_tls = true }

counting-Works : Works counting with_tls flush_nothing
counting-Works = record {
  listens = λ addr n. (suc n, refl);
  pairs = λ cert key n. (suc n, refl);
  makes = λ n. (n, suc n, refl);
  stops = λ gs n. (suc n, refl);
  flushes = λ n. (n, refl);
}

shutdown_lem_example :
    (gs : ℕ) × (n : ℕ) × (let started = listen counting with_tls (new, 0) in
      let ended = shutdown counting with_tls flush_nothing started.1 in
      (started.0 ≡ returned (some gs, none))
      × (started.1.1 ≡ n)
      × (ended.0 ≡ returned none)
      × (ended.1.1 ≡ (
          if with_tls.use_tls
          then (flush_nothing n).1
          else (counting.graceful_stop gs (flush_nothing n).1).1)))
shutdown_lem_example = shutdown_lem counting with_tls flush_nothing 0 counting-Works
