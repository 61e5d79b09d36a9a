-- ===== src/Request/Whole.antt =====
-- src/server/request.c: the parse of a whole request, as RFC 1928 lays it out.

use socks_v5_proxy.Buffer.{Buffer, IsValid, contents}
use socks_v5_proxy.Consume.Stream.{Agrees, consume-Agrees_of_parse}
use socks_v5_proxy.Prelude.{
  length, set, replicate, overwrite, overwrite-replicate, All, ℕ, zero, suc, ◌-◌, ◌<◌, ◌≡◌, refl,
  sym, ap, ◌∙◌, ◌≢◌, false, List, [], ◌∷◌, ◌++◌, append-nil, append_assoc, arith,
}
use socks_v5_proxy.Request.{
  af_inet, af_inet6, Request, request_cmd, request_rsv, request_atyp, request_dstaddr_fqdn,
  request_dstaddr, request_done, RequestParser, cleared_request, request_parser_init,
  request_parser_feed, request_is_done, request_is_error, request_consume,
}
use socks_v5_proxy.Request.Address.{
  AddressKind, kind_ipv4, kind_domain, kind_ipv6, type_byte, store_from, request_parse,
  request_more, at, dstaddr-parse, dstport-parse,
}

-- The length byte that comes before a domain name, and before no other address.
abbrev pub length_prefix : AddressKind → List ℕ → List ℕ
length_prefix kind_domain addr = length addr ∷ []
length_prefix _ addr = []

-- VER, CMD, RSV, ATYP, DST.ADDR, DST.PORT.
abbrev pub request_bytes : ℕ → ℕ → AddressKind → List ℕ → ℕ → ℕ → List ℕ
request_bytes command reserved kind addr a b =
    0x05 ∷ command ∷ reserved ∷ type_byte kind ∷ (length_prefix kind addr ++ (addr ++ a ∷ b ∷ []))

-- 4 bytes of IPv4, 16 bytes of IPv6, or a name of 1 to 255 bytes.
abbrev pub Fits : AddressKind → List ℕ → Type 0
Fits kind_ipv4 addr = length addr ≡ 4
Fits kind_ipv6 addr = length addr ≡ 16
Fits kind_domain addr = (0 < length addr) × (length addr < 256)

-- The request that the parser should leave.
abbrev pub requested : ℕ → AddressKind → List ℕ → ℕ → ℕ → Request
requested command kind_ipv4 addr a b = record cleared_request {
  cmd = command;
  dest_addr_type = 0x01;
  family = af_inet;
  ipv4 = addr;
  dest_port = a ∷ b ∷ [];
}
requested command kind_ipv6 addr a b = record cleared_request {
  cmd = command;
  dest_addr_type = 0x04;
  family = af_inet6;
  ipv6 = addr;
  dest_port = a ∷ b ∷ [];
}
requested command kind_domain addr a b = record cleared_request {
  cmd = command;
  dest_addr_type = 0x03;
  fqdn = addr ++ replicate (255 - length addr) 0;
  dest_port = a ∷ b ∷ [];
}

set-replicate : (n i : ℕ) → set {A = ℕ} (replicate n 0) i 0 ≡ replicate n 0
set-replicate zero i = refl
set-replicate (suc n) zero = refl
set-replicate (suc n) (suc i) = ap (λ r. 0 ∷ r) (set-replicate n i)

overwrite-full : (n : ℕ) (xs : List ℕ) → length xs ≡ n → overwrite (replicate n 0) 0 xs ≡ xs
overwrite-full n xs h =
    overwrite-replicate n xs (omega arith)
    ∙ ap (λ k. xs ++ replicate k 0) (let z : n - length xs ≡ 0 = omega arith in z)
    ∙ append-nil xs

-- The request as it stands when the address begins.
addressed : ℕ → AddressKind → Request
addressed command kind_ipv4 = record cleared_request {
  cmd = command;
  dest_addr_type = 0x01;
  family = af_inet;
}
addressed command kind_ipv6 = record cleared_request {
  cmd = command;
  dest_addr_type = 0x04;
  family = af_inet6;
}
addressed command kind_domain = record cleared_request { cmd = command; dest_addr_type = 0x03 }

header-parse :
    (command reserved : ℕ) (kind : AddressKind) (c : ℕ) (cs : List ℕ) (rest : List ℕ)
    (p : RequestParser)
    → Fits kind (c ∷ cs)
    → request_parse (request_parser_init p) (
        0x05
        ∷ command
        ∷ reserved
        ∷ type_byte kind
        ∷ (length_prefix kind (c ∷ cs) ++ (c ∷ cs ++ rest)))
      ≡ request_parse
          (at (addressed command kind) request_dstaddr (suc (length cs)) 0)
          (c ∷ (cs ++ rest))
unfolding request_parser_init request_parser_feed request_is_done request_is_error addressed
header-parse command reserved kind_ipv4 c cs rest p fit =
    request_more _ (at cleared_request request_cmd p.n p.i) 5 _ refl refl refl
    ∙ request_more _ (at (record cleared_request { cmd = command }) request_rsv p.n p.i) command _
        refl refl refl
    ∙ request_more _ (at (record cleared_request { cmd = command }) request_atyp p.n p.i) reserved _
        refl refl refl
    ∙ request_more _ (at (addressed command kind_ipv4) request_dstaddr 4 0) 1 _ refl refl refl
    ∙ ap
        (λ n.
          request_parse (at (addressed command kind_ipv4) request_dstaddr n 0) (c ∷ (cs ++ rest)))
        (sym fit)
header-parse command reserved kind_ipv6 c cs rest p fit =
    request_more _ (at cleared_request request_cmd p.n p.i) 5 _ refl refl refl
    ∙ request_more _ (at (record cleared_request { cmd = command }) request_rsv p.n p.i) command _
        refl refl refl
    ∙ request_more _ (at (record cleared_request { cmd = command }) request_atyp p.n p.i) reserved _
        refl refl refl
    ∙ request_more _ (at (addressed command kind_ipv6) request_dstaddr 16 0) 4 _ refl refl refl
    ∙ ap
        (λ n.
          request_parse (at (addressed command kind_ipv6) request_dstaddr n 0) (c ∷ (cs ++ rest)))
        (sym fit)
header-parse command reserved kind_domain c cs rest p fit =
    request_more _ (at cleared_request request_cmd p.n p.i) 5 _ refl refl refl
    ∙ request_more _ (at (record cleared_request { cmd = command }) request_rsv p.n p.i) command _
        refl refl refl
    ∙ request_more _ (at (record cleared_request { cmd = command }) request_atyp p.n p.i) reserved _
        refl refl refl
    ∙ request_more _ (at (addressed command kind_domain) request_dstaddr_fqdn p.n p.i) 3 _ refl refl
        refl
    ∙ request_more _ (at (addressed command kind_domain) request_dstaddr (suc (length cs)) 0)
        (suc (length cs)) _ (ground (arith, set-replicate 255 (length cs))) refl refl

stored-requested :
    (command : ℕ) (kind : AddressKind) (addr : List ℕ) (a b : ℕ)
    → Fits kind addr
    → ◌≡◌ {A = Request}
        (record (store_from kind (addressed command kind) 0 addr) { dest_port = a ∷ b ∷ [] })
        (requested command kind addr a b)
unfolding addressed
stored-requested command kind_ipv4 addr a b fit =
    ap (λ m. record (requested command kind_ipv4 addr a b) { ipv4 = m }) (overwrite-full 4 addr fit)
stored-requested command kind_ipv6 addr a b fit =
    ap (λ m. record (requested command kind_ipv6 addr a b) { ipv6 = m })
      (overwrite-full 16 addr fit)
stored-requested command kind_domain addr a b fit =
    ap (λ m. record (requested command kind_domain addr a b) { fqdn = m })
      (overwrite-replicate 255 addr (omega arith))

Fits-bounds :
    (kind : AddressKind) (addr : List ℕ) → Fits kind addr → (0 < length addr) × (length addr < 256)
Fits-bounds kind_ipv4 addr fit = omega arith
Fits-bounds kind_ipv6 addr fit = omega arith
Fits-bounds kind_domain addr fit = fit

type-addressed :
    (command : ℕ) (kind : AddressKind) → (addressed command kind).dest_addr_type ≡ type_byte kind
unfolding addressed
type-addressed command kind_ipv4 = refl
type-addressed command kind_ipv6 = refl
type-addressed command kind_domain = refl

-- A whole request with an IPv4 or IPv6 address or a name of 1 to 255 bytes, followed by any bytes, is
-- parsed to the end without error: command, address type, address and port are those of the request,
-- a name is padded with zeros, and the bytes behind the request are left.
pub request_parse-request_bytes :
    (command reserved : ℕ) (kind : AddressKind) (addr : List ℕ) (a b : ℕ) (rest : List ℕ)
    (p : RequestParser)
    → Fits kind addr
    → request_parse (request_parser_init p) (request_bytes command reserved kind addr a b ++ rest)
      ≡ (at (requested command kind addr a b) request_done 2 2, false, rest)
request_parse-request_bytes command reserved kind [] a b rest p fit =
    absurd (omega (arith, (Fits-bounds kind [] fit).0))
request_parse-request_bytes command reserved kind (c ∷ cs) a b rest p fit =
    ap (request_parse (request_parser_init p)) (simp append_assoc)
    ∙ header-parse command reserved kind c cs (a ∷ b ∷ rest) p fit
    ∙ dstaddr-parse kind (addressed command kind) (suc (length cs)) 0 c cs (a ∷ b ∷ rest)
        (type-addressed command kind) (Fits-bounds kind (c ∷ cs) fit).1 (omega arith)
    ∙ dstport-parse (store_from kind (addressed command kind) 0 (c ∷ cs)) a b rest
    ∙ ap (λ r. (at r request_done 2 2, false, rest))
        (stored-requested command kind (c ∷ cs) a b fit)

-- `request_consume` on a valid buffer that holds a whole request, with an IPv4 or IPv6 address or a name
-- of 1 to 255 bytes, and any bytes behind it, ends without an abort or an error: command, address type,
-- address and port are those of the request, a name is padded with zeros, and the bytes behind the
-- request stay queued.
request_consume-request_bytes :
    (command reserved : ℕ) (kind : AddressKind) (addr : List ℕ) (a b : ℕ) (rest : List ℕ)
    (p : RequestParser) (buf : Buffer)
    → IsValid buf
    → Fits kind addr
    → contents buf ≡ request_bytes command reserved kind addr a b ++ rest
    → Agrees
        (at (requested command kind addr a b) request_done 2 2, false, rest)
        (request_consume buf (request_parser_init p) false)
unfolding request_consume
request_consume-request_bytes command reserved kind addr a b rest p buf v fit q =
    consume-Agrees_of_parse request_parser_feed (λ r. r.state) request_is_done request_is_error buf
      _ false _ _ v q (request_parse-request_bytes command reserved kind addr a b rest p fit)

-- A name of 255 bytes, none of them 0, fills `fqdn`: the zero that was stored for its end is
-- overwritten by the last byte of the name, and no byte of the array is a terminator.
pub fqdn-unterminated :
    (command reserved : ℕ) (name : List ℕ) (a b : ℕ) (rest : List ℕ) (p : RequestParser)
    → length name ≡ 255
    → All (λ c. c ≢ 0) name
    → let q =
        (request_parse
          (request_parser_init p)
          (request_bytes command reserved kind_domain name a b ++ rest)).0 in
      (q.state ≡ request_done) × (q.request.fqdn ≡ name) × All (λ c. c ≢ 0) q.request.fqdn
fqdn-unterminated command reserved name a b rest p h nz =
    let whole =
      request_parse-request_bytes command reserved kind_domain name a b rest p (omega arith) in
    let full : name ++ replicate (255 - length name) 0 ≡ name =
      ap (λ k. name ++ replicate k 0) (let z : 255 - length name ≡ 0 = omega arith in z)
      ∙ append-nil name in
    rw (whole, full) (refl, refl, nz)
