-- ===== src/Request.antt =====
-- src/server/request.c and src/include/request.h: the parser of the SOCKS request, the reply, and
-- the reply's status for an `errno`.
-- The enums that the parser stores a byte into are that byte. Of the union `dest_addr` each member
-- that the parser writes is a field of its own: the bytes of `fqdn`, of `sin_addr` and of `sin6_addr`;
-- in one run the parser stores through only one of them. `dest_port` is its two bytes in memory.
pub mod Address
pub mod Bounds
pub mod Reply
pub mod Whole
use socks_v5_proxy.Prelude.{
  leb, ◌==◌, if◌then◌else◌, set, replicate, u8, ℕ, ◌+◌, ◌-◌, Bool, Option, List, [], ◌∷◌,
}
use socks_v5_proxy.Buffer.{Buffer}
use socks_v5_proxy.Consume.{Consumed, consume}

abbrev pub socks_req_cmd_connect : ℕ
socks_req_cmd_connect = 0x01

abbrev pub socks_req_cmd_bind : ℕ
socks_req_cmd_bind = 0x02

abbrev pub socks_req_cmd_associate : ℕ
socks_req_cmd_associate = 0x03

abbrev pub socks_req_addrtype_ipv4 : ℕ
socks_req_addrtype_ipv4 = 0x01

abbrev pub socks_req_addrtype_domain : ℕ
socks_req_addrtype_domain = 0x03

abbrev pub socks_req_addrtype_ipv6 : ℕ
socks_req_addrtype_ipv6 = 0x04

-- `sin_family` and `sin6_family` of the address, as far as the parser sets it.
pub data Family : Type 0 where
  af_unset af_inet af_inet6 : Family

pub record Request : Type 0 where
  pub cmd : ℕ
  pub dest_addr_type : ℕ
  pub family : Family
  pub fqdn : List ℕ
  pub ipv4 : List ℕ
  pub ipv6 : List ℕ
  pub dest_port : List ℕ

pub data RequestState : Type 0 where
  request_version request_cmd request_rsv request_atyp request_dstaddr_fqdn : RequestState
  request_dstaddr request_dstport request_done request_error : RequestState
  request_error_unsupported_version request_error_unsupported_atyp : RequestState

-- The values that C gives the enumerators.
abbrev pub request_state_value : RequestState → ℕ
request_state_value request_version = 0
request_state_value request_cmd = 1
request_state_value request_rsv = 2
request_state_value request_atyp = 3
request_state_value request_dstaddr_fqdn = 4
request_state_value request_dstaddr = 5
request_state_value request_dstport = 6
request_state_value request_done = 7
request_state_value request_error = 8
request_state_value request_error_unsupported_version = 9
request_state_value request_error_unsupported_atyp = 10

pub record RequestParser : Type 0 where
  pub request : Request
  pub state : RequestState
  pub n : ℕ
  pub i : ℕ

abbrev pub cleared_request : Request
cleared_request = record {
  cmd = 0;
  dest_addr_type = 0;
  family = af_unset;
  fqdn = replicate 255 0;
  ipv4 = replicate 4 0;
  ipv6 = replicate 16 0;
  dest_port = 0 ∷ 0 ∷ [];
}

-- `memset` clears the request; `n` and `i` keep what they hold.
unfoldable pub request_parser_init : RequestParser → RequestParser
request_parser_init p = record p { state = request_version; request = cleared_request }

abbrev pub remaining_set : RequestParser → ℕ → RequestParser
remaining_set p n = record p { i = 0; n = u8 n }

abbrev pub remaining_is_done : RequestParser → Bool
remaining_is_done p = leb p.n p.i

version : ℕ → RequestParser → RequestState × RequestParser
version c p = (if c == 0x05 then request_cmd else request_error_unsupported_version, p)

cmd : ℕ → RequestParser → RequestState × RequestParser
cmd c p = (request_rsv, record p { request = record (p.request) { cmd = c } })

rsv : ℕ → RequestParser → RequestState × RequestParser
rsv c p = (request_atyp, p)

atyp : ℕ → RequestParser → RequestState × RequestParser
atyp c p =
    let r : Request = record (p.request) { dest_addr_type = c } in
    if c == socks_req_addrtype_ipv4
    then (
      request_dstaddr,
      remaining_set (record p { request = record r { ipv4 = replicate 4 0; family = af_inet } }) 4,
    )
    else if c == socks_req_addrtype_ipv6
    then (
      request_dstaddr,
      remaining_set (record p { request = record r { ipv6 = replicate 16 0; family = af_inet6 } })
          16,
    )
    else if c == socks_req_addrtype_domain
    then (request_dstaddr_fqdn, record p { request = r })
    else (request_error_unsupported_atyp, record p { request = r })

-- `fqdn[n - 1] = 0`. At n = 0 the index is -1: the store of 0 goes before the union, to the last byte
-- of `dest_addr_type`, which holds 0 already where integers are little-endian.
dstaddr_fqdn : ℕ → RequestParser → RequestState × RequestParser
dstaddr_fqdn c p =
    let p' : RequestParser = remaining_set p c in
    (
      request_dstaddr,
      (if p'.n == 0 then p' else record p' {
        request = record (p'.request) { fqdn = set p'.request.fqdn (p'.n - 1) 0 };
      }),
    )

-- The `switch` on the address type, which stores the byte at index `i` and counts it.
store_addr : ℕ → RequestParser → RequestParser
store_addr c p =
    if p.request.dest_addr_type == socks_req_addrtype_ipv4
    then record p {
      request = record (p.request) { ipv4 = set p.request.ipv4 p.i c };
      i = u8 (p.i + 1);
    }
    else if p.request.dest_addr_type == socks_req_addrtype_ipv6
    then record p {
      request = record (p.request) { ipv6 = set p.request.ipv6 p.i c };
      i = u8 (p.i + 1);
    }
    else if p.request.dest_addr_type == socks_req_addrtype_domain
    then record p {
      request = record (p.request) { fqdn = set p.request.fqdn p.i c };
      i = u8 (p.i + 1);
    }
    else p

dstaddr : ℕ → RequestParser → RequestState × RequestParser
unfolding store_addr
dstaddr c p =
    let p' : RequestParser = store_addr c p in
    if remaining_is_done p'
    then (
      request_dstport,
      record (remaining_set p' 2) { request = record (p'.request) { dest_port = 0 ∷ 0 ∷ [] } },
    )
    else (request_dstaddr, p')

dstport : ℕ → RequestParser → RequestState × RequestParser
dstport c p =
    let p' : RequestParser = record p {
      request = record (p.request) { dest_port = set p.request.dest_port p.i c };
      i = u8 (p.i + 1);
    } in
    (if leb p'.n p'.i then request_done else request_dstport, p')

request_dispatch : RequestState → ℕ → RequestParser → RequestState × RequestParser
unfolding version cmd rsv atyp dstaddr_fqdn dstaddr dstport
request_dispatch request_version c p = version c p
request_dispatch request_cmd c p = cmd c p
request_dispatch request_rsv c p = rsv c p
request_dispatch request_atyp c p = atyp c p
request_dispatch request_dstaddr_fqdn c p = dstaddr_fqdn c p
request_dispatch request_dstaddr c p = dstaddr c p
request_dispatch request_dstport c p = dstport c p
request_dispatch request_done c p = (p.state, p)
request_dispatch request_error c p = (p.state, p)
request_dispatch request_error_unsupported_version c p = (p.state, p)
request_dispatch request_error_unsupported_atyp c p = (p.state, p)

unfoldable pub request_parser_feed : RequestParser → ℕ → RequestParser
unfolding request_dispatch
request_parser_feed p c =
    let (next, p') = request_dispatch p.state c p in record p' { state = next }

unfoldable pub request_is_done : RequestState → Bool
request_is_done st = leb (request_state_value request_done) (request_state_value st)

unfoldable pub request_is_error : RequestState → Bool
request_is_error st = leb (request_state_value request_error) (request_state_value st)

unfoldable pub request_consume : Buffer → RequestParser → Bool → Option (Consumed RequestParser)
request_consume = consume request_parser_feed (λ p. p.state) request_is_done request_is_error
