-- ===== src/Tests/Retries.antt =====
-- The attempt at the next address at concrete inputs.

use socks_v5_proxy.Prelude.{pos, ◌≡◌, refl, none, some, [], ◌∷◌, arith}
use socks_v5_proxy.Request.{socks_req_addrtype_domain, af_inet, cleared_request}
use socks_v5_proxy.Session.{request_connecting_state, Address, World, op_read_only}
use socks_v5_proxy.Session.Connecting.{request_connecting}
use socks_v5_proxy.Session.Retries.{IsWaiting, Lost, request_connecting-Lost}
use socks_v5_proxy.Selector.Registration.{registered}
use socks_v5_proxy.Tests.Sessions.{answers, accepted, greeted_world}
use socks_v5_proxy.Tests.Copies.{both_ends, both_ends-Agreed}

abbrev address : Address
address = record { domain = af_inet; host = 10 ∷ 0 ∷ 0 ∷ 1 ∷ []; port = 0 ∷ 80 ∷ [] }

-- The connection to the first of two addresses is refused, and no descriptor is left.
abbrev retrying : World
retrying = record greeted_world {
  fd = 5;
  os = record (answers []) { new_fd = none; socket_error = some 111 };
  selector = both_ends;
  conn = record accepted {
    origin_fd = pos 5;
    references = 2;
    origin_resolution = address ∷ address ∷ [];
    origin_resolution_current = address ∷ address ∷ [];
    response_status = 1;
    request = record (accepted.request) {
      request = record cleared_request { dest_addr_type = socks_req_addrtype_domain };
    };
  };
}

retrying-IsWaiting : IsWaiting retrying 5
retrying-IsWaiting = record {
  agreed = record { entries = λ i h. both_ends-Agreed i _ h };
  alive = refl;
  origin = refl;
  held = record {
    small = omega arith;
    inside = omega arith;
    entry = (registered 5 7 op_read_only 9, refl, refl);
  };
  client = record { small = omega arith; entry = (registered 4 7 op_read_only 9, refl) };
  apart = λ e. omega arith;
  counted = refl;
  valid = record { ordered = omega arith; bounded = omega arith; stored = omega arith };
  roomy = omega arith;
}

request_connecting-Lost_example :
    (w' : World) × (request_connecting retrying ≡ some (request_connecting_state, w'))
    × Lost retrying w' 5
request_connecting-Lost_example =
    request_connecting-Lost retrying 5 110 address address [] retrying-IsWaiting refl refl refl refl
