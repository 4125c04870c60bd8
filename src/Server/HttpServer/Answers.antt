-- ===== src/Server/HttpServer/Answers.antt =====
-- Every handler of the HTTP server answers, over the in-memory storage, and what it keeps.
pub mod Storing
pub mod Reading
pub mod Serving
pub mod Requests
use urlshortner.Prelude.{
  Str, IsBytes, All, contains, load, Bool, Bool-cases, true, false, ◌&&◌, Outcome, returned, ◌≡◌,
  ◌≢◌, refl, ◌⊎◌, inl, inr, Option, none, some, List, [],
}
use urlshortner.Storage.Filestorage.{Disk}
use urlshortner.Storage.Inmemory.{Storer, Ims, is_live_of}
use urlshortner.Storage.Inmemory.Table.{entry, store_in, delete_in}
use urlshortner.Storage.Inmemory.Invariant.{IsWf}
use urlshortner.Shortener.Finding.{IsShortened}
use urlshortner.Server.Http.{Request, Response}
use urlshortner.Server.HttpServer.Handlers.{Wire, Urlwid, read_body}

-- What may become of a record under its id: it stays there, with its URL and its user, and a deleted
-- one stays deleted.
abbrev pub Persists : Option Storer → Option Storer → Type 0
Persists none o = Unit
Persists (some r) o =
    (r' : Storer) × (o ≡ some r')
    × (r'.url ≡ r.url)
    × (r'.user_id ≡ r.user_id)
    × (r.deleted ≡ true → r'.deleted ≡ true)

pub Persists-refl : (o : Option Storer) → Persists o o
Persists-refl none = tt
Persists-refl (some r) = (r, refl, refl, refl, λ h. h)

pub Persists-store_in :
    (fresh : Storer) (o o' : Option Storer) → Persists o o' → Persists o (store_in fresh o')
Persists-store_in fresh none o' h = tt
Persists-store_in fresh (some r) (some q) h = h
Persists-store_in fresh (some r) none (r', e, h₁, h₂, h₃) = cc

pub Persists-delete_in :
    (user_id : Str) (ids : List Str) (id : Str) (o o' : Option Storer)
    → Persists o o'
    → Persists o (delete_in user_id ids id o')
Persists-delete_in user_id ids id none o' h = tt
Persists-delete_in user_id ids id (some r) o' (r', e, url, user, gone) =
    elim (Bool-cases (is_live_of user_id r' && contains id ids)) [
      | inl hit ↦ (record r' { deleted = true }, rw e (rw hit refl), url, user, λ h. refl)
      | inr miss ↦ (r', rw e (rw miss refl), url, user, gone)
    ]

-- An earlier storage, and the keys under which sessions may have been opened since.
pub record Past : Type 0 where
  pub storage : Ims
  pub drawn : Str → Bool

-- The invariant of the storage: it is well-formed, every record stands under the id of its URL, and
-- the records of an earlier storage persist, as do the sessions under the keys that nobody has drawn.
pub record IsKept (since : Past) (s : Ims) : Type 0 where
  pub wf : IsWf s
  pub shortened : IsShortened s
  pub stays : (id : Str) → Persists (entry since.storage id) (entry s id)
  pub sessions :
      (key : Str) → since.drawn key ≡ false → load key s.sessions ≡ load key since.storage.sessions

-- The invariant, from now on.
pub IsKept-now :
    (since : Past) → IsWf since.storage → IsShortened since.storage → IsKept since since.storage
IsKept-now since wf shortened = record {
  wf = wf;
  shortened = shortened;
  stays = λ id. Persists-refl (entry since.storage id);
  sessions = λ key undrawn. refl;
}

-- The handler has returned, and has left the storage `s`.
abbrev pub Ends : Outcome (Unit {0}) × ((Ims × Disk) × Response) → Ims → Type 0
Ends o s = (o.0 ≡ returned tt) × (o.1.0.0 ≡ s)

-- The handler has returned, and has kept the invariant.
abbrev pub Answered : Past → Outcome (Unit {0}) × ((Ims × Disk) × Response) → Type 0
Answered since o = (o.0 ≡ returned tt) × IsKept since o.1.0.0

-- The handler has kept the invariant, and has returned if `uuid.New` delivers.
abbrev pub Delivers : Outcome Str → Type 0
Delivers uuid = (u : Str) × (uuid ≡ returned u)

abbrev pub AnsweredIf : Outcome Str → Past → Outcome (Unit {0}) × ((Ims × Disk) × Response) → Type 0
AnsweredIf uuid since o = (Delivers uuid → o.0 ≡ returned tt) × IsKept since o.1.0.0

-- It is enough to leave one of two storages that have the invariant.
pub Ends-Answered :
    {since : Past} {s s' : Ims} (o : Outcome (Unit {0}) × ((Ims × Disk) × Response))
    → IsKept since s
    → IsKept since s'
    → Ends o s ⊎ Ends o s'
    → Answered since o
Ends-Answered o k k' (inl (ends, same)) = (ends, rw same k)
Ends-Answered o k k' (inr (ends, same)) = (ends, rw same k')

module _ (wire : Wire) where
  -- What the decoders give for bytes is bytes.
  pub record IsBytewise : Type 0 where
    pub urls : (b : Str) → IsBytes b → IsBytes (wire.decode_urlreq b).0
    pub batches :
        (b : Str) → IsBytes b → All (λ (v : Urlwid). IsBytes v.original_url) (wire.decode_batch b).0

  -- The path is not empty, and the body is bytes.
  pub record IsRequest (r : Request) : Type 0 where
    pub some_path : r.path ≢ []
    pub body : IsBytes (read_body wire r).0
