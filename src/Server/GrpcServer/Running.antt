-- ===== src/Server/GrpcServer/Running.antt =====
-- internal/server/grpcserver/grpcserver.go: `New`, `Run` and `Shutdown`. The network and the package
-- `grpc` are a parameter.
use urlshortner.Prelude.{
  Bool, true, false, Str, str, Exec, pure, ◌>>=◌, ◌>>◌, returned, ◌≡◌, refl, Option, none, some,
  if◌then◌else◌,
}
use urlshortner.Config.{Config}
use urlshortner.Storage.Errors.{Error}

-- A `grpc.Server` is a handle. `serve` returns when the server has ended.
pub record Transport (Handle W : Type 0) : Type 0 where
  pub join : Str → Str → Str
  pub listen : Str → Exec W (Option Error)
  pub load_key_pair : Str → Str → Exec W (Option Error)
  pub new_server : Exec W Handle
  pub serve : Handle → Exec W (Option Error)
  pub graceful_stop : Handle → Exec W (Unit {0})

-- The fields of `Server` that change: `gs`.
pub record Server (Handle : Type 0) : Type 0 where
  pub gs : Option Handle

-- `New`.
abbrev pub new : {Handle : Type 0} → Server Handle
new = record { gs = none }

module _ {Handle W : Type 0} where
  abbrev outside : {A : Type 0} → Exec W A → Exec (Server Handle × W) A
  outside m (srv, w) = ((m w).0, (srv, (m w).1))

  abbrev set_gs : Handle → Exec (Server Handle × W) (Unit {0})
  set_gs h (srv, w) = (returned tt, (record { gs = some h }, w))

  module _ (net : Transport Handle W) (cfg : Config) where
    listened : Option Error → Exec (Server Handle × W) (Option Handle × Option Error)
    listened (some e) = pure (none, some e)
    listened none = do gs ← outside net.new_server; set_gs gs; pure (some gs, none)

    -- `listenAndServe` up to the call of `Serve`: the server to serve, or the error.
    unfoldable pub listen_plain : Exec (Server Handle × W) (Option Handle × Option Error)
    unfolding listened
    listen_plain = do err ← outside (net.listen cfg.srv_addr); listened err

    listened_tls : Handle → Option Error → Exec (Server Handle × W) (Option Handle × Option Error)
    listened_tls gs (some e) = pure (none, some e)
    listened_tls gs none = pure (some gs, none)

    key_pair_loaded : Option Error → Exec (Server Handle × W) (Option Handle × Option Error)
    unfolding listened_tls
    key_pair_loaded (some e) = pure (none, some e)
    key_pair_loaded none = do
      gs ← outside net.new_server
      err ← outside (net.listen cfg.srv_addr)
      listened_tls gs err

    -- `listenAndServeTLS` up to the call of `Serve`.
    unfoldable pub listen_tls : Str → Str → Exec (Server Handle × W) (Option Handle × Option Error)
    unfolding key_pair_loaded
    listen_tls cert key = do err ← outside (net.load_key_pair cert key); key_pair_loaded err

    -- `Run` up to the call of `Serve`.
    unfoldable pub listen : Exec (Server Handle × W) (Option Handle × Option Error)
    listen =
        if cfg.use_tls
        then listen_tls (net.join cfg.ssl_path (str "example.crt"))
            (net.join cfg.ssl_path (str "example.key"))
        else listen_plain

    served : Option Handle × Option Error → Exec (Server Handle × W) (Option Error)
    served (gs, some e) = pure (some e)
    served (none, none) = pure none
    served (some gs, none) = outside (net.serve gs)

    unfoldable pub run : Exec (Server Handle × W) (Option Error)
    unfolding served
    run = listen >>= served

    -- `Shutdown`, over `FlushStorage`.
    flushed : Option Error → Exec (Server Handle × W) (Option Error)
    flushed (some e) (srv, w) = (returned (some e), (srv, w))
    flushed none (srv, w) = elim srv.gs [
      | none ↦ (returned none, (srv, w))
      | some gs ↦ outside (net.graceful_stop gs >>= λ done. pure none) (srv, w)
    ]

    unfoldable pub shutdown : Exec W (Option Error) → Exec (Server Handle × W) (Option Error)
    unfolding flushed
    shutdown flush_storage = outside flush_storage >>= flushed

    -- Every step up to `Serve` succeeds, as does the flush of the storage.
    pub record Works (flush_storage : Exec W (Option Error)) : Type 0 where
      pub listens : (addr : Str) (w : W) → (w' : W) × (net.listen addr w ≡ (returned none, w'))
      pub pairs :
          (cert key : Str) (w : W) → (w' : W) × (net.load_key_pair cert key w ≡ (returned none, w'))
      pub makes : (w : W) → (gs : Handle) × (w' : W) × (net.new_server w ≡ (returned gs, w'))
      pub stops : (gs : Handle) (w : W) → (w' : W) × (net.graceful_stop gs w ≡ (returned tt, w'))
      pub flushes : (w : W) → (w' : W) × (flush_storage w ≡ (returned none, w'))

    listen_plain-result :
        (flush_storage : Exec W (Option Error)) (w : W)
        → Works flush_storage
        → (gs : Handle) × (w' : W) × (listen_plain (new, w)
            ≡ (returned (some gs, none), (record { gs = some gs }, w')))
    unfolding listen_plain
    listen_plain-result flush_storage w k =
        let (w1, heard) = k.listens cfg.srv_addr w in
        let (gs, w2, made) = k.makes w1 in (gs, w2, rw heard (rw made refl))

    listen_tls-result :
        (flush_storage : Exec W (Option Error)) (cert key : Str) (w : W)
        → Works flush_storage
        → (gs : Handle) × (w' : W) × (listen_tls cert key (new, w)
            ≡ (returned (some gs, none), (new, w')))
    unfolding listen_tls
    listen_tls-result flush_storage cert key w k =
        let (w1, paired) = k.pairs cert key w in
        let (gs, w2, made) = k.makes w1 in
        let (w3, heard) = k.listens cfg.srv_addr w2 in (gs, w3, rw paired (rw made (rw heard refl)))

    shutdown-none :
        (flush_storage : Exec W (Option Error)) (w : W)
        → Works flush_storage
        → shutdown flush_storage (new, w) ≡ (returned none, (new, (flush_storage w).1))
    unfolding shutdown
    shutdown-none flush_storage w k = let (w1, saved) = k.flushes w in rw (saved, flushed) refl

    shutdown-some :
        (flush_storage : Exec W (Option Error)) (gs : Handle) (w : W)
        → Works flush_storage
        → (let srv : Server Handle = record { gs = some gs } in
            shutdown flush_storage (srv, w)
            ≡ (returned none, (srv, (net.graceful_stop gs (flush_storage w).1).1)))
    unfolding shutdown
    shutdown-some flush_storage gs w k =
        let (w1, saved) = k.flushes w in
        let (w2, stopped) = k.stops gs w1 in rw (saved, flushed) (rw stopped refl)

    -- The two ways of `Run`, by the mode of TLS.
    abbrev Ends :
        Bool
        → Exec (Server Handle × W) (Option Handle × Option Error)
        → Exec W (Option Error)
        → W
        → Type 0
    Ends tls start flush_storage w =
        (gs : Handle) × (w' : W) × (let started = start (new, w) in
          let ended = shutdown flush_storage started.1 in
          (started.0 ≡ returned (some gs, none))
          × (started.1.1 ≡ w')
          × (ended.0 ≡ returned none)
          × (ended.1.1 ≡ (
              if tls then (flush_storage w').1 else (net.graceful_stop gs (flush_storage w').1).1)))

    Ends-listen :
        (tls : Bool) (flush_storage : Exec W (Option Error)) (w : W)
        → Works flush_storage
        → Ends tls
            (if tls
              then listen_tls
                  (net.join cfg.ssl_path (str "example.crt"))
                  (net.join cfg.ssl_path (str "example.key"))
              else listen_plain)
            flush_storage
            w
    Ends-listen true flush_storage w k =
        let cert = net.join cfg.ssl_path (str "example.crt") in
        let key = net.join cfg.ssl_path (str "example.key") in
        let (gs, w', heard) = listen_tls-result flush_storage cert key w k in
        (gs, w', rw heard (rw (shutdown-none flush_storage w' k) (refl, refl, refl, refl)))
    Ends-listen false flush_storage w k =
        let (gs, w', heard) = listen_plain-result flush_storage w k in
        (gs, w', rw heard (rw (shutdown-some flush_storage gs w' k) (refl, refl, refl, refl)))

    -- When every step of the start and the flush succeed, `Run` gets as far as serving one server.
    -- A shutdown then flushes the storage and reports no error; it stops that server without TLS,
    -- and with TLS it does nothing more: the server goes on.
    pub shutdown_lem :
        (flush_storage : Exec W (Option Error)) (w : W)
        → Works flush_storage
        → (gs : Handle) × (w' : W) × (let started = listen (new, w) in
            let ended = shutdown flush_storage started.1 in
            (started.0 ≡ returned (some gs, none))
            × (started.1.1 ≡ w')
            × (ended.0 ≡ returned none)
            × (ended.1.1 ≡ (
                if cfg.use_tls
                then (flush_storage w').1
                else (net.graceful_stop gs (flush_storage w').1).1)))
    unfolding listen
    shutdown_lem flush_storage w k = Ends-listen cfg.use_tls flush_storage w k
