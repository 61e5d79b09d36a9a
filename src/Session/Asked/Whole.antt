-- ===== src/Session/Asked/Whole.antt =====
-- src/server/socks5nio.c: a whole request of a client, from its bytes to what it leads to.

use socks_v5_proxy.Request.Whole.{requested}
use socks_v5_proxy.Request.{socks_req_cmd_connect, af_inet, af_inet6, Request, request_done}
use socks_v5_proxy.Prelude.{ℕ, ◌≡◌, ◌≢◌, ◌⊎◌, true, false, ◌&&◌, Option, some, List, [], ◌∷◌}
use socks_v5_proxy.Buffer.{Buffer}
use socks_v5_proxy.Request.Address as RequestAddress
use socks_v5_proxy.Request.Address.{AddressKind, kind_ipv4, kind_domain, kind_ipv6, at}
use socks_v5_proxy.Session.{Address, World}
use socks_v5_proxy.Session.Asked.{Refuses, Prevented, Stuck, Attempts, Resolves}

-- A connection whose parser holds a request.
abbrev pub holding : World → Request → World
holding w r = record w { conn = record (w.conn) { request = RequestAddress.at r request_done 2 2 } }

-- What a request to connect to an address leads to.
abbrev pub Connects : AddressKind → List ℕ → ℕ → ℕ → World → Option (ℕ × World) → Type 0
Connects kind_ipv4 addr a b w result =
    Attempts (some (record { domain = af_inet; host = addr; port = a ∷ b ∷ [] })) w result
    ⊎ (Stuck w result ⊎ (Prevented w × Refuses w result))
Connects kind_ipv6 addr a b w result =
    Attempts (some (record { domain = af_inet6; host = addr; port = a ∷ b ∷ [] })) w result
    ⊎ (Stuck w result ⊎ (Prevented w × Refuses w result))
Connects kind_domain addr a b w result =
    ((w.os.key_memory && w.os.thread ≡ true)
      × Resolves (requested socks_req_cmd_connect kind_domain addr a b) w result)
    ⊎ ((w.os.key_memory && w.os.thread ≡ false) × Refuses w result)

abbrev pub Answers : ℕ → AddressKind → List ℕ → ℕ → ℕ → World → Option (ℕ × World) → Type 0
Answers command kind addr a b w result =
    ((command ≢ socks_req_cmd_connect) × Refuses w result)
    ⊎ ((command ≡ socks_req_cmd_connect) × Connects kind addr a b w result)
