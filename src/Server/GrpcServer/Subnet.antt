-- ===== src/Server/GrpcServer/Subnet.antt =====
-- `Stats` of internal/server/grpcserver/grpcserver.go, for the peers of a TCP listener. The address
-- that the handler parses is `Addr.String()` of `net.TCPAddr`: the host and the port.
use urlshortner.Prelude.{
  ℕ, Str, str, returned, All, Bool, ◌&&◌, ◌||◌, true, leb, nat_eq, ◌≡◌, ◌⊎◌, inl, inr, Option, none,
  some, ◌∷◌, ◌++◌, arith,
}
use urlshortner.Shortener.{MyShortener}
use urlshortner.Server.GrpcServer.{internal, unauthenticated, Reply, failure}
use urlshortner.Server.GrpcServer.Stats.{addr, Net, StatsResponse, stats}

abbrev pub is_digit : ℕ → Bool
is_digit b = leb b'0' b && leb b b'9'

-- The host of an IPv4 address is its digits and dots; that of an IPv6 address stands in brackets.
abbrev pub IsTcpText : Str → Type 0
IsTcpText a =
    ((rest : Str) × (a ≡ b'[' ∷ rest))
    ⊎ ((host : Str) × (port : Str) × All (λ b. (is_digit b || nat_eq b b'.') ≡ true) host
        × All (λ b. is_digit b ≡ true) port
        × (a ≡ host ++ b':' ∷ port))

-- `net.ParseIP` reads a bare IP address: neither brackets, nor a port behind one colon.
pub record IsNet (net : Net) : Type 0 where
  pub no_brackets : (rest : Str) → net.parse_ip (b'[' ∷ rest) ≡ none
  pub no_port :
      (host port : Str)
      → All (λ b. (is_digit b || nat_eq b b'.') ≡ true) host
      → All (λ b. is_digit b ≡ true) port
      → net.parse_ip (host ++ b':' ∷ port) ≡ none

no_ip : (net : Net) (a : Str) → IsNet net → IsTcpText a → net.parse_ip a ≡ none
no_ip net a laws (inl (rest, e)) = rw e (laws.no_brackets rest)
no_ip net a laws (inr (host, port, dotted, digits, e)) = rw e (laws.no_port host port dotted digits)

module _ (net : Net) {S : Type 0} (m : MyShortener S) where
  -- The reply, by whether the subnet of the configuration parses.
  abbrev pub unanswered : Option net.Subnet → Reply StatsResponse
  unanswered none =
      let text = str "failed to parse trusted subnet from config: " ++ m.config.trusted_subnet in
      (record { urls = 0; users = 0; error = text }, failure internal text)
  unanswered (some subnet) =
      let text = str "call from unathorized subnet" in
      (record { urls = 0; users = 0; error = text }, failure unauthenticated text)

  -- With a `net.ParseIP` that reads bare addresses only: over any storage `Stats` refuses every
  -- call that comes over TCP, as one from outside the trusted subnet, whatever that subnet is, or
  -- with `Internal` when the configured text does not parse. It counts nothing, and the storage
  -- stays as it is.
  pub stats_refused :
      (a : Str) (s : S)
      → IsNet net
      → IsTcpText a
      → stats net m (addr a) s ≡ (returned (unanswered (net.parse_cidr m.config.trusted_subnet)), s)
  unfolding stats
  stats_refused a s laws tcp = ground (arith, no_ip net a laws tcp)
