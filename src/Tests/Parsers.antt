-- ===== src/Tests/Parsers.antt =====
-- The parser of the request, at concrete inputs.
use socks_v5_proxy.Prelude.{
  replicate, All, ℕ, zero, suc, ◌≡◌, refl, ◌≢◌, List, [], ◌∷◌, ◌++◌, arith,
}
use socks_v5_proxy.Request.{
  request_version, request_done, RequestParser, cleared_request, request_parser_init,
}
use socks_v5_proxy.Request.Address.{kind_domain, request_parse}
use socks_v5_proxy.Request.Bounds as RequestBounds
use socks_v5_proxy.Request.Whole.{request_bytes, fqdn-unterminated}
use socks_v5_proxy.Request.Bounds.{request_parse-InBounds}

abbrev request_start : RequestParser
request_start = record { request = cleared_request; state = request_version; n = 0; i = 0 }

request_parse-InBounds_example :
    RequestBounds.InBounds
      (request_parse (request_parser_init request_start) (5 ∷ 1 ∷ 0 ∷ 3 ∷ 0 ∷ [])).0
request_parse-InBounds_example =
    request_parse-InBounds request_start (5 ∷ 1 ∷ 0 ∷ 3 ∷ 0 ∷ [])
      (omega arith, (omega arith, (omega arith, (omega arith, (omega arith, tt)))))

abbrev long_name : List ℕ
long_name = replicate 255 97

replicate-NonZero : (n : ℕ) → All (λ (c : ℕ). c ≢ 0) (replicate n 97)
replicate-NonZero zero = tt
replicate-NonZero (suc n) = (λ e. omega arith, replicate-NonZero n)

fqdn-unterminated_example :
    let q =
      (request_parse
        (request_parser_init request_start)
        (request_bytes 1 0 kind_domain long_name 0 80 ++ [])).0 in
    (q.state ≡ request_done) × (q.request.fqdn ≡ long_name) × All (λ c. c ≢ 0) q.request.fqdn
fqdn-unterminated_example =
    fqdn-unterminated 1 0 long_name 0 80 [] request_start refl (replicate-NonZero 255)
