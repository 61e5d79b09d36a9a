-- ===== src/Request/Bounds.antt =====
-- src/server/request.c: no byte that a client sends makes the parser store outside its arrays (but
-- for the zero stored in front of an empty name), and how it answers what RFC 1928 does not allow.
use socks_v5_proxy.Prelude.{
  length, length-set, All, IsByte, u8, ℕ, ◌-◌, ◌<◌, ◌≡◌, refl, ◌∙◌, ◌≢◌, ◌⊎◌, true, false, List,
  ◌∷◌, arith,
}
use socks_v5_proxy.Consume.Invariant.{parse-Invariant}
use socks_v5_proxy.Request.{
  RequestState, request_version, request_cmd, request_rsv, request_atyp, request_dstaddr_fqdn,
  request_dstaddr, request_dstport, request_error_unsupported_version,
  request_error_unsupported_atyp, RequestParser, cleared_request, request_parser_init,
  request_parser_feed, request_is_done, request_is_error,
}
use socks_v5_proxy.Request.Address.{request_parse, request_more, request_stop, at}

-- The index is inside the array that the address type selects.
abbrev pub AddressIndex : RequestParser → Type 0
AddressIndex p =
    ((p.request.dest_addr_type ≡ 1) × (p.n ≡ 4) × (p.i < 4))
    ⊎ (((p.request.dest_addr_type ≡ 4) × (p.n ≡ 16) × (p.i < 16))
        ⊎ ((p.request.dest_addr_type ≡ 3) × (p.n < 256) × (p.i < 255) × ((p.i < p.n) ⊎ (p.i ≡ 0))))

pub record InBounds (p : RequestParser) : Type 0 where
  pub ipv4_size : length p.request.ipv4 ≡ 4
  pub ipv6_size : length p.request.ipv6 ≡ 16
  pub fqdn_size : length p.request.fqdn ≡ 255
  pub port_size : length p.request.dest_port ≡ 2
  pub domain_type : p.state ≡ request_dstaddr_fqdn → p.request.dest_addr_type ≡ 3
  pub address_index : p.state ≡ request_dstaddr → AddressIndex p
  pub port_index : p.state ≡ request_dstport → (p.n ≡ 2) × (p.i < 2)

request_parser_init-InBounds : (p : RequestParser) → InBounds (request_parser_init p)
unfolding request_parser_init
request_parser_init-InBounds p = ground arith

feed_in-InBounds :
    (st : RequestState) (p : RequestParser) (c : ℕ)
    → st ≡ p.state
    → IsByte c
    → InBounds p
    → InBounds (request_parser_feed p c)
unfolding request_parser_feed
feed_in-InBounds request_version p c e a h = ground arith
feed_in-InBounds request_dstaddr_fqdn p c e a h =
    ground (arith, length-set p.request.fqdn (u8 c - 1) 0)
feed_in-InBounds request_dstaddr p c e a h = ground (
  arith,
  length-set p.request.ipv4 p.i c,
  length-set p.request.ipv6 p.i c,
  length-set p.request.fqdn p.i c,
)
feed_in-InBounds request_dstport p c e a h = ground (arith, length-set p.request.dest_port p.i c)
feed_in-InBounds _ p c e a h = ground arith

-- Whatever bytes arrive, in whatever portions, every index that the parser stores an address or port
-- byte at is inside the array that it stores to.
pub request_parse-InBounds :
    (p : RequestParser) (cs : List ℕ)
    → All IsByte cs
    → InBounds (request_parse (request_parser_init p) cs).0
request_parse-InBounds p cs a =
    parse-Invariant request_parser_feed (λ q. q.state) request_is_done request_is_error InBounds
      (λ q c b h. feed_in-InBounds q.state q c refl b h) (request_parser_init p) false cs a
      (request_parser_init-InBounds p)

-- A version other than 5 ends the parse with the error flag at that byte, in the state that names the
-- error.
pub request_parse-bad_version :
    (p : RequestParser) (c : ℕ) (rest : List ℕ)
    → c ≢ 5
    → (q : RequestParser) × (request_parse (request_parser_init p) (c ∷ rest) ≡ (q, true, rest))
      × (q.state ≡ request_error_unsupported_version)
unfolding request_parser_init request_parser_feed request_is_done request_is_error
request_parse-bad_version p c rest h = (
  at cleared_request request_error_unsupported_version p.n p.i,
  request_stop _ (at cleared_request request_error_unsupported_version p.n p.i) c rest
      (ground arith) refl,
  refl,
)

-- An address type other than 1, 3 and 4 ends the parse with the error flag at that byte, in the state
-- that names the error; the command is the one that was sent.
request_parse-bad_address_type :
    (p : RequestParser) (c command reserved : ℕ) (rest : List ℕ)
    → c ≢ 1
    → c ≢ 3
    → c ≢ 4
    → (q : RequestParser) × (request_parse
          (request_parser_init p)
          (5 ∷ command ∷ reserved ∷ c ∷ rest)
        ≡ (q, true, rest))
      × (q.state ≡ request_error_unsupported_atyp)
      × (q.request.cmd ≡ command)
unfolding request_parser_init request_parser_feed request_is_done request_is_error
request_parse-bad_address_type p c command reserved rest h1 h3 h4 = (
  at (record cleared_request { cmd = command; dest_addr_type = c }) request_error_unsupported_atyp
      p.n p.i,
  request_more _ (at cleared_request request_cmd p.n p.i) 5 _ refl refl refl
      ∙ request_more _ (at (record cleared_request { cmd = command }) request_rsv p.n p.i) command _
          refl refl refl
      ∙ request_more _ (at (record cleared_request { cmd = command }) request_atyp p.n p.i) reserved
          _ refl refl refl
      ∙ request_stop _
          (at (record cleared_request { cmd = command; dest_addr_type = c })
            request_error_unsupported_atyp p.n p.i)
          c rest (ground arith) refl,
  refl,
  refl,
)
