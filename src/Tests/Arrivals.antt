-- ===== src/Tests/Arrivals.antt =====
-- The arrival of a connection at concrete inputs.

use socks_v5_proxy.Prelude.{◌≡◌, refl, true, Option, some, [], arith}
use socks_v5_proxy.Admins.Arrivals.{Connection, monitor_passive_accept}
use socks_v5_proxy.Admins.Arrivals.Settling.{IsStocked, Admitted, monitor_passive_accept-Admitted}
use socks_v5_proxy.Selector.Consistency.{IsConsistent}
use socks_v5_proxy.Session.{Socks5}
use socks_v5_proxy.Session.Accept.{Listener, Arrival, socksv5_passive_accept}
use socks_v5_proxy.Session.Settling.{IsPooled, Settled, socksv5_passive_accept-Settled}
use socks_v5_proxy.Tests.Descriptors.{one_used, one_used-IsConsistent}

-- A block is idle, and the table grows for descriptor 5.
abbrev listening : Listener
listening = record { selector = one_used; number = 12; idle = 1; pool_size = 3; closed = [] }

abbrev arrival : Arrival
arrival = record { client = some 5; set_nio = true; memory = true; table_memory = true }

socksv5_passive_accept-Settled_example :
    (r : Option Socks5) × (l' : Listener) × (socksv5_passive_accept arrival listening
      ≡ some (r, l'))
    × IsPooled l'
    × IsConsistent l'.selector
    × Settled 5 listening r l'
socksv5_passive_accept-Settled_example =
    socksv5_passive_accept-Settled arrival listening 5 refl
      (record { counted = omega arith; bounded = omega arith }) one_used-IsConsistent

monitor_passive_accept-Admitted_example :
    (r : Option Connection) × (l' : Listener) × (monitor_passive_accept arrival listening
      ≡ some (r, l'))
    × IsStocked l'
    × IsConsistent l'.selector
    × Admitted 5 listening r l'
monitor_passive_accept-Admitted_example =
    monitor_passive_accept-Admitted arrival listening 5 refl
      (record { counted = omega arith; bounded = omega arith }) one_used-IsConsistent
