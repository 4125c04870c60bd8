-- ===== src/Program.antt =====
-- cmd/shortener/main.go: the start of the program, and what it does at a signal.
use urlshortner.Prelude.{
  Str, Bool, returned, Exec, pure, panic, ◌>>=◌, ◌≡◌, refl, Option, none, some, List, if◌then◌else◌,
}
use urlshortner.Config.{Config}
use urlshortner.Storage.Errors.{Error}
use urlshortner.Storage.Filestorage.{Disk}
use urlshortner.Storage.Database.Buffer.{Gob}
use urlshortner.Storage.Database.Setup.{Driver}
use urlshortner.Storage.Opening
use urlshortner.Storage.Opening.{Opened}
use urlshortner.Server
use urlshortner.Server.{ServerKind}

module _ (read_all : Str → List (List Str) × Option Error) (gob : Gob) {S : Type 0}
    (driver : Driver S) (run : ServerKind → Opened gob → Exec (Disk × S) (Option Error))
    (is_server_closed : Error → Bool) where
  -- The test after `Run`: its error was never assigned, and `err` is that of `storage.New`.
  last_check : Option Error → Exec (Disk × S) (Unit {0})
  last_check none = pure tt
  last_check (some e) = if is_server_closed e then pure tt else panic

  started : Config → Option (Opened gob) × Option Error → Exec (Disk × S) (Unit {0})
  unfolding last_check
  started cfg (strg, some e) = panic
  started cfg (none, none) = panic
  started cfg (some strg, none) = do run_error ← run (Server.new cfg) strg; last_check none

  unfoldable pub main : Config → Exec (Disk × S) (Unit {0})
  unfolding started
  main cfg = Opening.new read_all gob driver cfg >>= started cfg

  -- When the storage opens, the program ends as if nothing had gone wrong, whatever error `Run`
  -- returns, such as an address that is in use: that error is lost.
  pub run_error_lost :
      (cfg : Config) (strg : Opened gob) (err : Option Error) (w w' w'' : Disk × S)
      → Opening.new read_all gob driver cfg w ≡ (returned (some strg, none), w')
      → run (Server.new cfg) strg w' ≡ (returned err, w'')
      → main cfg w ≡ (returned tt, w'')
  unfolding main
  run_error_lost cfg strg err w w' w'' opened ran = rw opened (rw ran refl)

-- The goroutine that waits for a signal: both errors are logged.
unfoldable pub on_signal :
    {W : Type 0} → Exec W (Option Error) → Exec W (Option Error) → Exec W (Unit {0})
on_signal flush shutdown = do flush_error ← flush; shutdown_error ← shutdown; pure tt
