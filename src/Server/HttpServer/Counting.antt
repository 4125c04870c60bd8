-- ===== src/Server/HttpServer/Counting.antt =====
-- `GET /api/internal/stats`: who is answered, and what.
use urlshortner.Prelude.{
  ℕ, Str, str, length, contains, returned, ◌≡◌, refl, sym, ap, ◌∙◌, ◌⊎◌, inl, inr, All, All-append,
  nat_eq, Bool-cases, ◌∷◌, false, Bool, none, some, List, [], ◌++◌, arith, if◌then◌else◌,
}
use mathlib.Core.List.{append_assoc, append-nil}
use urlshortner.Config.{Config}
use urlshortner.Storage.Filestorage.{Disk}
use urlshortner.Storage.Inmemory.{Ims}
use urlshortner.Storage.Inmemory.Invariant.{IsWf}
use urlshortner.Storage.Inmemory.Counts.{HasNoRepeats, owners, count_users_lem, count_urls-result}
use urlshortner.Shortener.{in_memory}
use urlshortner.Server.Http.{Request, Response, new_response, http_error, write_body}
use urlshortner.Server.HttpServer.Handlers.{Wire}
use urlshortner.Server.HttpServer.Handlers.Stats.{stats, last_part}

-- The part has no comma, and it is the whole text or stands at its end behind a comma.
abbrev pub IsLastPart : Str → Str → Type 0
IsLastPart text part =
    All (λ b. nat_eq b b',' ≡ false) part
    × ((text ≡ part) ⊎ ((front : Str) × (text ≡ front ++ b',' ∷ part)))

last_part-IsLastPart :
    (cur text : Str)
    → All (λ b. nat_eq b b',' ≡ false) cur
    → IsLastPart (cur ++ text) (last_part cur text)
unfolding last_part
last_part-IsLastPart cur [] free = (free, rw (append-nil cur) (inl refl))
last_part-IsLastPart cur (b ∷ text) free = elim (Bool-cases (nat_eq b b',')) [
  | inl comma ↦
      let (free', place) = last_part-IsLastPart [] text tt in
      let e : b ≡ b',' = ground arith in
      rw comma (
        free',
        elim place [
          | inl whole ↦ inr (cur, rw e (ap (λ t. cur ++ b',' ∷ t) whole))
          | inr (front, at_end) ↦ inr (
            cur ++ b',' ∷ front,
            rw e (ap (λ t. cur ++ b',' ∷ t) at_end ∙ sym (append_assoc cur (b',' ∷ front) _)),
          )
        ],
      )
  | inr other ↦
      let here =
        last_part-IsLastPart (cur ++ b ∷ []) text
          (All-append (λ c. nat_eq c b',' ≡ false) cur (b ∷ []) free (other, tt)) in
      rw other (rw append_assoc at here)
]

module _ (wire : Wire) (encode_record : List Str → Str) (cfg : Config) where
  -- The text is an address that lies in the subnet.
  abbrev pub is_trusted : wire.Subnet → Str → Bool
  is_trusted subnet part = elim (wire.parse_ip part) [
    | none ↦ false
    | some ip ↦ wire.in_subnet subnet ip
  ]

  -- The answer when the address is trusted, over the two counts.
  abbrev pub counts_response : ℕ → ℕ → Response
  counts_response urls users =
      write_body (wire.encode_stats (record { urls = urls; users = users })) new_response

  -- Over a well-formed storage: without a subnet in the configuration that parses, the request
  -- fails with 500; from an address outside the subnet, or with none, it is refused with 403; else
  -- it gets the number of entries and the number of distinct users that stored them. Nothing
  -- changes in any case. The address is the part of the header X-Real-IP behind its last comma, or
  -- the whole header when it has none.
  pub stats_lem :
      (r : Request) (s : Ims) (d : Disk)
      → IsWf s
      → (part : Str) × IsLastPart (r.get_header (str "X-Real-IP")) part
        × (us : List Str) × HasNoRepeats us
        × ((u : Str) → contains u us ≡ contains u (owners s.entries))
        × (stats wire (in_memory encode_record cfg) r ((s, d), new_response) ≡ (
          returned tt,
          (
            (s, d),
            elim (wire.parse_cidr cfg.trusted_subnet) [
              | none ↦
                  http_error
                    (str "failed to parse trusted subnet from config: " ++ cfg.trusted_subnet)
                    500
                    new_response
              | some subnet ↦
                  if is_trusted subnet part
                  then counts_response (length s.entries) (length us)
                  else http_error [] 403 new_response
            ],
          ),
        ))
  unfolding stats
  stats_lem r s d w =
      let (us, counted, distinct, same) = count_users_lem s w in
      let header = r.get_header (str "X-Real-IP") in
      (
        last_part [] header,
        last_part-IsLastPart [] header tt,
        us,
        distinct,
        same,
        ground (arith, counted, count_urls-result s),
      )
