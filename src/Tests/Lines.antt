-- ===== src/Tests/Lines.antt =====
-- A line of the log at concrete inputs.
use socks_v5_proxy.Prelude.{
  replicate, c_string, ℕ, ◌≡◌, refl, inr, true, Option, some, List, [], ◌∷◌, ◌++◌, arith,
}
use socks_v5_proxy.CommandLine.Ports.{denoted}
use socks_v5_proxy.Disector.{codes}
use socks_v5_proxy.Request.{socks_req_addrtype_domain, Family, af_inet6, Request, cleared_request}
use socks_v5_proxy.Session.{Address}
use socks_v5_proxy.Session.Logging.{string_of, user_field, log_request}
use socks_v5_proxy.Session.Logging.Fields.{fields, IsNamed, log_request-fields}

-- Every address is the one of this host.
abbrev one_host : Family → List ℕ → ℕ → Option (List ℕ)
one_host family host size = some (codes "::1")

abbrev local : List ℕ → Address
local port = record { domain = af_inet6; host = replicate 16 0; port = port }

abbrev asked_name : Request
asked_name = record cleared_request {
  dest_addr_type = socks_req_addrtype_domain;
  fqdn = codes "a.b" ++ 0 ∷ [];
}

local-IsNamed : IsNamed one_host (local (200 ∷ 1 ∷ [])) (codes "::1")
local-IsNamed = record {
  family = inr refl;
  named = refl;
  string = ((λ e. omega arith), ((λ e. omega arith), ((λ e. omega arith), tt)));
  untabbed = ((λ e. omega arith), ((λ e. omega arith), ((λ e. omega arith), tt)));
  short = omega arith;
  port = omega arith;
}

log_request-fields_example :
    (line : List ℕ) × (client_port : List ℕ) × (origin_port : List ℕ) × (status : List ℕ)
    × (log_request one_host
          (replicate 50 7)
          (codes "now")
          0
          true
          (some (97 ∷ 0 ∷ []))
          asked_name
          (local (200 ∷ 1 ∷ []))
          (local (0 ∷ 80 ∷ []))
        ≡ some line)
    × (fields line
        ≡ codes "now"
          ∷ codes "a"
          ∷ codes "A"
          ∷ codes "::1"
          ∷ client_port
          ∷ codes "a.b"
          ∷ origin_port
          ∷ (status ++ 10 ∷ [])
          ∷ [])
    × (denoted client_port ≡ 51201)
    × (denoted origin_port ≡ 80)
    × (denoted status ≡ 0)
unfolding string_of user_field c_string
log_request-fields_example =
    log_request-fields one_host (replicate 50 7) (codes "now") 0 true (some (97 ∷ 0 ∷ []))
      asked_name (local (200 ∷ 1 ∷ [])) (local (0 ∷ 80 ∷ [])) (codes "a") (codes "::1")
      (codes "a.b") refl ((λ e. omega arith), ((λ e. omega arith), ((λ e. omega arith), tt))) refl
      ((λ e. omega arith), tt) local-IsNamed
      (inr (refl, refl, ((λ e. omega arith), ((λ e. omega arith), ((λ e. omega arith), tt)))))
      (omega arith) (omega arith)
