-- ===== src/Tests/Mains.antt =====
-- A run of `main` at a concrete command line and system.
use socks_v5_proxy.Prelude.{
  ◌==◌, if◌then◌else◌, pos, ℕ, ◌+◌, true, false, none, some, List, [], ◌∷◌,
}
use socks_v5_proxy.Selector.Loop.{Loop, ready, interrupted, Handlers}
use socks_v5_proxy.Admins.Process.{Server}
use socks_v5_proxy.Start.{IpVersion, ipv4, ipv6, Sockets}
use socks_v5_proxy.Start.Listening.{Passive}
use socks_v5_proxy.Start.Main.{System, Round}
use socks_v5_proxy.Start.Main.Ends.{Ends}
use socks_v5_proxy.Disector.{codes}
use socks_v5_proxy.Tests.Starts.{granting}

-- Each call for writing aborts, and each other one counts a connection.
abbrev counted : Loop Passive ℕ Server → Loop Passive ℕ Server
counted l = record l {
  world = record (l.world) { historic_connections = l.world.historic_connections + 1 };
}

abbrev counting_handlers : Handlers Passive ℕ Server
counting_handlers = record {
  has_read = λ p. true;
  has_write = λ p. true;
  handle_read = λ p fd null l. some (counted l);
  handle_write = λ p fd null l. none;
  handle_block = λ p fd null l. some (counted l);
}

-- The descriptors 3 and 4 for IPv4, 5 and 6 for IPv6, each address read as it is.
abbrev descriptor : IpVersion → ℕ → ℕ
descriptor ipv4 n = if n == 8080 then 4 else 3
descriptor ipv6 n = if n == 8080 then 6 else 5

abbrev granting_system : System
granting_system = record {
  inet_pton = λ v word. some word;
  answers = λ v word n. record { socket = pos (descriptor v n); bind = pos 0; listen = pos 0 };
  fcntl = granting;
  selector_init = true;
  has_block = true;
  has_memory = true;
  root_token = some (codes "0123456789abcdef");
}

abbrev four_sockets : Sockets
four_sockets = record {
  server_v4 = pos 3;
  monitor_v4 = pos 4;
  server_v6 = pos 5;
  monitor_v6 = pos 6;
}

-- Two rounds, with the signal in the second.
abbrev two_rounds : List Round
two_rounds =
    record { polled = ready (λ i. i == 3) (λ i. false); signalled = false }
    ∷ record { polled = interrupted; signalled = true }
    ∷ []
