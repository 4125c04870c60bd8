-- ===== src/Server/Http.antt =====
-- `net/http` as the handlers use it: a request, and a response that is written step by step.
-- The client takes every write, so the branches after a failed write are not reached.
use urlshortner.Prelude.{
  ℕ, Str, str, Exec, returned, SyncMap, store, Option, none, some, List, [], ◌∷◌, ◌++◌,
}
use urlshortner.Storage.Errors.{Error}

-- `r.Cookie("userID")`: no cookie is `http.ErrNoCookie`.
pub data Cookie : Type 0 where
  no_cookie : Cookie
  bad_cookie : Error → Cookie
  cookie : Str → Cookie

pub record Request : Type 0 where
  pub method : Str
  -- `r.URL.Path`, and `r.URL.RawPath`, the escaped form of the path where that is not the usual one.
  pub path : Str
  pub raw_path : Str
  -- `r.Header.Get` and `r.Header.Values`.
  pub get_header : Str → Str
  pub header_values : Str → List Str
  pub cookie : Cookie
  -- The context's value under `CtxKeyUserID`, if it is set.
  pub user_id : Option Str
  -- What reading the body to its end gives.
  pub body : Str × Option Error

pub record Response : Type 0 where
  -- The headers as the handler sets them.
  pub header : SyncMap Str
  -- The status line and the headers, once they are sent.
  pub sent : Option (ℕ × SyncMap Str)
  pub body : Str

abbrev pub new_response : Response
new_response = record { header = []; sent = none; body = [] }

-- `w.Header().Set`.
abbrev pub set_header : Str → Str → Response → Response
set_header name value w = record w { header = store name value w.header }

-- `w.WriteHeader`: only the first call counts.
abbrev pub write_header : ℕ → Response → Response
write_header code w = record w {
  sent = elim w.sent [ none ↦ some (code, w.header) | some line ↦ some line ];
}

-- `w.Write`, which sends the status 200 if none was sent.
abbrev pub write_body : Str → Response → Response
write_body s w = let w' = write_header 200 w in record w' { body = w'.body ++ s }

-- `http.Error`.
abbrev pub http_error : Str → ℕ → Response → Response
http_error text code w = write_body (text ++ str "\n") (
    write_header code (
      set_header (str "X-Content-Type-Options") (str "nosniff")
        (set_header (str "Content-Type") (str "text/plain; charset=utf-8") w)))

-- `http.SetCookie`: one more header line.
abbrev pub set_cookie : Str → Str → Response → Response
set_cookie name value w = record w {
  header = w.header ++ (str "Set-Cookie", name ++ str "=" ++ value) ∷ [];
}

-- The status that the client sees, once the handler has returned.
abbrev pub status : Response → ℕ
status w = elim w.sent [ none ↦ 200 | some line ↦ line.0 ]

-- A handler works on the server's state and the response.
abbrev pub Handler : Type 0 → Type 0
Handler S = Request → Exec (S × Response) (Unit {0})

abbrev pub on_store : {S A : Type 0} → Exec S A → Exec (S × Response) A
on_store m (s, w) = ((m s).0, ((m s).1, w))

abbrev pub respond : {S : Type 0} → (Response → Response) → Exec (S × Response) (Unit {0})
respond f (s, w) = (returned tt, (s, f w))
