-- ===== src/Server/Router/Matching.antt =====
-- What internal/router/router.go relies on of `chi`: which route a request runs.
use urlshortner.Prelude.{
  ℕ, Str, ◌==◌, nat_eq, leb, Bool, true, false, not, ◌&&◌, ◌||◌, All, Bool-cases, Option-cases, inl,
  inr, arith, returned, ◌≡◌, refl, Option, none, some, List, [], ◌∷◌, if◌then◌else◌,
}
use urlshortner.Server.Http.{Request, Response, Handler}
use urlshortner.Server.Router.{HandlerDesc, Chi, new_router}

-- The first middleware is the outermost.
abbrev chain : {S : Type 0} → List (Handler S → Handler S) → Handler S → Handler S
chain [] next = next
chain (mw ∷ mws) next = mw (chain mws next)

unfoldable pub served : {S : Type 0} → HandlerDesc S → Handler S
served route = chain route.middlewares route.handler

unfoldable pub has_byte : ℕ → Str → Bool
has_byte b [] = false
has_byte b (c ∷ s) = nat_eq b c || has_byte b s

-- A name of small letters and the closing brace.
is_name : Str → Bool
is_name [] = false
is_name (c ∷ []) = nat_eq c b'}'
is_name (c ∷ d ∷ s) = (leb b'a' c && leb c b'z') && is_name (d ∷ s)

-- The two forms of patterns that are read here: "/{name}", and one without a parameter.
unfoldable pub is_param : Str → Bool
unfolding is_name
is_param [] = false
is_param (a ∷ []) = false
is_param (a ∷ b ∷ s) = (nat_eq a b'/' && nat_eq b b'{') && is_name s

abbrev is_static : Str → Bool
is_static p = not (has_byte b'{' p) && not (has_byte b'*' p)

-- Two routes that take the same requests.
abbrev clashes : {S : Type 0} → HandlerDesc S → HandlerDesc S → Bool
clashes r r' = r.method == r'.method && (r.path == r'.path || (is_param r.path && is_param r'.path))

abbrev clashes_any : {S : Type 0} → HandlerDesc S → List (HandlerDesc S) → Bool
clashes_any r [] = false
clashes_any r (r' ∷ rs) = clashes r r' || clashes_any r rs

-- Every pattern has one of the two forms, and no two routes clash.
unfoldable pub is_routable : {S : Type 0} → List (HandlerDesc S) → Bool
unfolding has_byte is_param
is_routable [] = true
is_routable (r ∷ rs) =
    (is_static r.path || is_param r.path) && not (clashes_any r rs) && is_routable rs

-- One segment behind the slash, which is not empty.
unfoldable pub is_segment : Str → Bool
unfolding has_byte
is_segment [] = false
is_segment (a ∷ []) = false
is_segment (a ∷ b ∷ s) = nat_eq a b'/' && not (has_byte b'/' (b ∷ s))

unfoldable pub find_static :
    {S : Type 0} → List (HandlerDesc S) → Str → Str → Option (HandlerDesc S)
find_static [] method path = none
find_static (r ∷ rs) method path =
    if r.method == method && (r.path == path && not (is_param r.path))
    then some r
    else find_static rs method path

unfoldable pub find_param : {S : Type 0} → List (HandlerDesc S) → Str → Option (HandlerDesc S)
find_param [] method = none
find_param (r ∷ rs) method =
    if r.method == method && is_param r.path then some r else find_param rs method

-- A route without a parameter goes before one with a parameter.
unfoldable pub find_route : {S : Type 0} → List (HandlerDesc S) → Str → Str → Option (HandlerDesc S)
unfolding find_static find_param is_segment
find_route routes method path = elim (find_static routes method path) [
  | some route ↦ some route
  | none ↦ if is_segment path then find_param routes method else none
]

-- The path by which a request is routed: the escaped form where there is one.
unfoldable pub route_path : Request → Str
route_path r = elim r.raw_path [ [] ↦ r.path | b ∷ s ↦ r.raw_path ]

-- A request runs the route that takes it, behind its middlewares; one that no route takes is
-- answered by `chi` itself, and reaches no handler.
pub record IsChi {S : Type 0} (chi : Chi S) : Type 0 where
  pub finds :
      (routes : List (HandlerDesc S)) (route : HandlerDesc S) (r : Request) (x : S × Response)
      → is_routable routes ≡ true
      → find_route routes r.method (route_path r) ≡ some route
      → chi.serve (new_router chi routes) r x ≡ served route r x
  pub misses :
      (routes : List (HandlerDesc S)) (r : Request) (x : S) (w : Response)
      → is_routable routes ≡ true
      → find_route routes r.method (route_path r) ≡ none
      → (w' : Response) × (chi.serve (new_router chi routes) r (x, w) ≡ (returned tt, (x, w')))

module _ {S : Type 0} (P : HandlerDesc S → Type 0) (method : Str) where
  All-find_static :
      (path : Str) (routes : List (HandlerDesc S)) (route : HandlerDesc S)
      → All P routes
      → find_static routes method path ≡ some route
      → P route
  unfolding find_static
  All-find_static path [] route h e = cc
  All-find_static path (r ∷ rs) route h e =
      elim (Bool-cases (r.method == method && (r.path == path && not (is_param r.path)))) [
        | inl here ↦ let same : r ≡ route = ground arith in rw (← same) h.0
        | inr elsewhere ↦ All-find_static path rs route h.1 (rw elsewhere at e)
      ]

  All-find_param :
      (routes : List (HandlerDesc S)) (route : HandlerDesc S)
      → All P routes
      → find_param routes method ≡ some route
      → P route
  unfolding find_param
  All-find_param [] route h e = cc
  All-find_param (r ∷ rs) route h e = elim (Bool-cases (r.method == method && is_param r.path)) [
    | inl here ↦ let same : r ≡ route = ground arith in rw (← same) h.0
    | inr elsewhere ↦ All-find_param rs route h.1 (rw elsewhere at e)
  ]

  -- The route that is found is one of the routes.
  pub All-find_route :
      (path : Str) (routes : List (HandlerDesc S)) (route : HandlerDesc S)
      → All P routes
      → find_route routes method path ≡ some route
      → P route
  unfolding find_route
  All-find_route path routes route h e = elim (Option-cases (find_static routes method path)) [
    | inr (r, found) ↦
        let same : r ≡ route = ground arith in rw (← same) (All-find_static path routes r h found)
    | inl other ↦ elim (Bool-cases (is_segment path)) [
      | inl segment ↦ All-find_param routes route h (ground arith)
      | inr no_segment ↦ absurd (ground arith)
    ]
  ]

-- A path of one segment that is that of no route without a parameter.
pub find_route-param :
    {S : Type 0} (method path : Str) (routes : List (HandlerDesc S))
    → All (λ r. (r.method == method && (r.path == path && not (is_param r.path))) ≡ false) routes
    → is_segment path ≡ true
    → find_route routes method path ≡ find_param routes method
unfolding find_route find_static
find_route-param {S} method path routes h segment = ground (arith, none_static routes h)
  where
    none_static :
        (rs : List (HandlerDesc S))
        → All (λ r. (r.method == method && (r.path == path && not (is_param r.path))) ≡ false) rs
        → find_static rs method path ≡ none
    none_static [] h = refl
    none_static (r ∷ rs) (h, hs) = rw h (none_static rs hs)
