-- ===== src/Request/Address.antt =====
-- src/server/request.c: what the parser makes of a whole request, for each type of address.

use socks_v5_proxy.Prelude.{
  length, overwrite, ℕ, suc, ◌+◌, ◌<◌, ◌≡◌, refl, ap, ◌∙◌, Bool, true, false, List, [], ◌∷◌, ◌++◌,
  arith,
}
use socks_v5_proxy.Consume.{parse}
use socks_v5_proxy.Consume.Stream.{parse-more, parse-stop}
use socks_v5_proxy.Request.{
  Request, RequestState, request_dstaddr, request_dstport, request_done, RequestParser,
  request_parser_feed, request_is_done, request_is_error,
}

-- The three kinds of destination, each with its type byte and the array that its bytes go to.
pub data AddressKind : Type 0 where
  kind_ipv4 kind_domain kind_ipv6 : AddressKind

abbrev pub type_byte : AddressKind → ℕ
type_byte kind_ipv4 = 0x01
type_byte kind_domain = 0x03
type_byte kind_ipv6 = 0x04

-- The request with bytes stored in the array of that kind from an index on.
abbrev pub store_from : AddressKind → Request → ℕ → List ℕ → Request
store_from kind_ipv4 r k xs = record r { ipv4 = overwrite r.ipv4 k xs }
store_from kind_domain r k xs = record r { fqdn = overwrite r.fqdn k xs }
store_from kind_ipv6 r k xs = record r { ipv6 = overwrite r.ipv6 k xs }

abbrev pub request_parse : RequestParser → List ℕ → RequestParser × Bool × List ℕ
request_parse p = parse request_parser_feed (λ q. q.state) request_is_done request_is_error p false

abbrev pub request_more :
    (p p' : RequestParser) (c : ℕ) (cs : List ℕ)
    → request_parser_feed p c ≡ p'
    → request_is_done p'.state ≡ false
    → request_is_error p'.state ≡ false
    → request_parse p (c ∷ cs) ≡ request_parse p' cs
request_more = parse-more request_parser_feed (λ q. q.state) request_is_done request_is_error

abbrev pub request_stop :
    (p p' : RequestParser) (c : ℕ) (cs : List ℕ)
    → request_parser_feed p c ≡ p'
    → request_is_done p'.state ≡ true
    → request_parse p (c ∷ cs) ≡ (p', request_is_error p'.state, cs)
request_stop = parse-stop request_parser_feed (λ q. q.state) request_is_done request_is_error

abbrev pub at : Request → RequestState → ℕ → ℕ → RequestParser
at r st n k = record { request = r; state = st; n = n; i = k }

-- An address byte that is not the last.
feed-dstaddr_more :
    (kind : AddressKind) (r : Request) (n k c : ℕ)
    → r.dest_addr_type ≡ type_byte kind
    → n < 256
    → suc k < n
    → request_parser_feed (at r request_dstaddr n k) c
      ≡ at (store_from kind r k (c ∷ [])) request_dstaddr n (suc k)
unfolding request_parser_feed overwrite
feed-dstaddr_more kind_ipv4 r n k c t h l = ground arith
feed-dstaddr_more kind_domain r n k c t h l = ground arith
feed-dstaddr_more kind_ipv6 r n k c t h l = ground arith

-- The last address byte: the port is cleared and comes next.
feed-dstaddr_last :
    (kind : AddressKind) (r : Request) (n k c : ℕ)
    → r.dest_addr_type ≡ type_byte kind
    → n < 256
    → suc k ≡ n
    → request_parser_feed (at r request_dstaddr n k) c
      ≡ at (record (store_from kind r k (c ∷ [])) { dest_port = 0 ∷ 0 ∷ [] }) request_dstport 2 0
unfolding request_parser_feed overwrite
feed-dstaddr_last kind_ipv4 r n k c t h l = ground arith
feed-dstaddr_last kind_domain r n k c t h l = ground arith
feed-dstaddr_last kind_ipv6 r n k c t h l = ground arith

store_from-cons :
    (kind : AddressKind) (r : Request) (k c : ℕ) (cs : List ℕ)
    → store_from kind (store_from kind r k (c ∷ [])) (suc k) cs ≡ store_from kind r k (c ∷ cs)
unfolding overwrite
store_from-cons kind_ipv4 r k c cs = refl
store_from-cons kind_domain r k c cs = refl
store_from-cons kind_ipv6 r k c cs = refl

type-store_from :
    (kind : AddressKind) (r : Request) (k : ℕ) (cs : List ℕ)
    → (store_from kind r k cs).dest_addr_type ≡ r.dest_addr_type
type-store_from kind_ipv4 r k cs = refl
type-store_from kind_domain r k cs = refl
type-store_from kind_ipv6 r k cs = refl

-- The address bytes one by one, from index `k` on, to the last of them.
pub dstaddr-parse :
    (kind : AddressKind) (r : Request) (n k c : ℕ) (cs rest : List ℕ)
    → r.dest_addr_type ≡ type_byte kind
    → n < 256
    → k + suc (length cs) ≡ n
    → request_parse (at r request_dstaddr n k) (c ∷ (cs ++ rest))
      ≡ request_parse
          (at
            (record (store_from kind r k (c ∷ cs)) { dest_port = 0 ∷ 0 ∷ [] })
            request_dstport
            2
            0)
          rest
unfolding request_is_done request_is_error
dstaddr-parse kind r n k c [] rest t h e =
    request_more _ _ c rest (feed-dstaddr_last kind r n k c t h (omega arith)) refl refl
dstaddr-parse kind r n k c (x ∷ xs) rest t h e =
    request_more _ _ c (x ∷ (xs ++ rest)) (feed-dstaddr_more kind r n k c t h (omega arith)) refl
      refl
    ∙ dstaddr-parse kind (store_from kind r k (c ∷ [])) n (suc k) x xs rest
        (type-store_from kind r k (c ∷ []) ∙ t) h (omega arith)
    ∙ ap (λ s. request_parse (at (record s { dest_port = 0 ∷ 0 ∷ [] }) request_dstport 2 0) rest)
        (store_from-cons kind r k c (x ∷ xs))

-- The two bytes of the port.
pub dstport-parse :
    (r : Request) (a b : ℕ) (rest : List ℕ)
    → request_parse (at (record r { dest_port = 0 ∷ 0 ∷ [] }) request_dstport 2 0) (a ∷ b ∷ rest)
      ≡ (at (record r { dest_port = a ∷ b ∷ [] }) request_done 2 2, false, rest)
unfolding request_parser_feed request_is_done request_is_error
dstport-parse r a b rest =
    request_more _ (at (record r { dest_port = a ∷ 0 ∷ [] }) request_dstport 2 1) a (b ∷ rest) refl
      refl refl
    ∙ request_stop _ (at (record r { dest_port = a ∷ b ∷ [] }) request_done 2 2) b rest refl refl
