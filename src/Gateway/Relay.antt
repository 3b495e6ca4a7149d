-- ===== src/Gateway/Relay.antt =====
-- One hop through an upstream proxy: `relayHTTP`, `relayConnect` and `isUpstreamErrorPage` of
-- internal/gateway/gateway.go. What the network does in a hop is an argument.
use proxy_gateway.Prelude.{
  ℕ, ◌+◌, Bool, true, false, not, ◌&&◌, ◌||◌, List, [], ◌∷◌, Option, none, some, ltb, leb, ◌==◌,
  if◌then◌else◌,
}
use proxy_gateway.Text.{bytes}

-- A response, with the bytes of its `Server` header and the first 4096 bytes of its body.
pub record Response : Type 0 where
  pub status : ℕ
  pub server : List ℕ
  pub body : List ℕ

-- What is seen of the upstream: whether it can be reached and written to, and its answer; and
-- whether the client's connection can be taken over, which is asked of the server, and written to.
pub record Wire : Type 0 where
  pub dialled : Bool
  pub written : Bool
  pub response : Option Response
  pub hijackable : Bool
  pub hijacked : Bool
  pub client_written : Bool

-- What a hop has come to: it relayed an answer, wrote an error page to the client, lost the client,
-- or calls for another proxy.
pub data Hop : Type 0 where
  relayed retry lost : Hop
  error_page : ℕ → Hop

abbrev lower_byte : ℕ → ℕ
lower_byte c = if leb 65 c && leb c 90 then c + 32 else c

unfoldable pub lower_bytes : List ℕ → List ℕ
lower_bytes [] = []
lower_bytes (c ∷ cs) = lower_byte c ∷ lower_bytes cs

unfoldable pub starts_with : List ℕ → List ℕ → Bool
starts_with [] cs = true
starts_with (p ∷ ps) [] = false
starts_with (p ∷ ps) (c ∷ cs) = p == c && starts_with ps cs

-- `strings.Contains(s, p)`
unfoldable pub contains : List ℕ → List ℕ → Bool
contains p [] = starts_with p []
contains p (c ∷ cs) = starts_with p (c ∷ cs) || contains p cs

unfoldable pub is_upstream_error_page : Response → Bool
is_upstream_error_page r =
    if ltb r.status 400
    then false
    else if contains (bytes "squid") (lower_bytes r.server)
    then true
    else contains (bytes "the requested url could not be retrieved") (lower_bytes r.body)
      || contains (bytes "<title>error") (lower_bytes r.body)

-- `relayHTTP`
unfoldable pub relay_http : Wire → Hop
relay_http w = if not w.dialled || not w.written then retry else elim w.response [
  | none ↦ retry
  | some r ↦ if is_upstream_error_page r then retry else relayed
]

-- `relayConnect`
unfoldable pub relay_connect : Wire → Hop
relay_connect w =
    if not w.dialled then retry else if not w.written then error_page 502 else elim w.response [
      | none ↦ retry
      | some r ↦
          if not (r.status == 200)
          then retry
          else if not w.hijackable || not w.hijacked
          then error_page 500
          else if w.client_written
          then relayed
          else lost
    ]
