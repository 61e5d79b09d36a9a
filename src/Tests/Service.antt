-- ===== src/Tests/Service.antt =====
-- A connection of the administration server at concrete inputs.

use socks_v5_proxy.Selector.{items_update_fdset_for_fd, selector_set_interest}
use socks_v5_proxy.Admins.Process.{decide, monitor_process}
use socks_v5_proxy.Admins.{is_admin_loop, monitor_is_admin}
use socks_v5_proxy.Admins.Service.Requests.{monitor_read-monitor_is_admin}
use socks_v5_proxy.Prelude.{
  if◌then◌else◌, replicate, overwrite, c_string, bytes_eq, pos, ◌≡◌, refl, ◌⊎◌, true, none, some,
  [], ◌∷◌, ◌++◌, arith,
}
use socks_v5_proxy.Buffer.{
  buffer_can_write, buffer_write_ptr, buffer_can_read, buffer_write_adv, buffer_compact,
  buffer_read_adv, buffer_read, buffer_write, buffer_writes, buffer_fill, contents,
}
use socks_v5_proxy.Consume.{consume_loop, consume, parse}
use socks_v5_proxy.Users.Accounts.{accounts, has_name, remove_name}
use socks_v5_proxy.Monitor.Types.{monitor_token, MonitorParser, monitor_parser_init}
use socks_v5_proxy.Monitor.Parser.{monitor_parser_feed, monitor_is_done, monitor_consume}
use socks_v5_proxy.Monitor.Reply.{
  monitor_status_succeeded, monitor_status_invalid_data, monitor_marshall,
}
use socks_v5_proxy.Session.{in_use, receive}
use socks_v5_proxy.Admins.Service.{Service, monitor_answer, monitor_received, monitor_read}
use socks_v5_proxy.Admins.Service.Deletions.{monitor_read-deletion}
use socks_v5_proxy.Tests.Administration.{
  sixteen, root_only, other_token, no_users, no_users-IsSound, admin_server, statics, monitor_start,
}
use socks_v5_proxy.Tests.Descriptors.{one_used, one_used-IsConsistent}
use socks_v5_proxy.Tests.Sessions.{answers, empty_buffer}

-- The version of the request has come; descriptor 1 is the connection's.
abbrev begun : MonitorParser
begun = record (monitor_parser_init monitor_start) { state = monitor_token; len = 16; i = 0 }

abbrev pub serving : Service
serving = record {
  client_fd = pos 1;
  parser = begun;
  read_buffer = record { bytes = replicate 32 0; limit = 32; read = 0; write = 0 };
  write_buffer = empty_buffer;
  life = in_use;
  fd = 1;
  number = 9;
  os = answers (sixteen ++ 1 ∷ 2 ∷ 0 ∷ 1 ∷ 97 ∷ []);
  statics = statics;
  server = admin_server;
  selector = one_used;
  pool_size = 0;
  closed = [];
  scratch = [];
}

monitor_read-deletion_example :
    (w' : Service) × (monitor_read serving ≡ some w')
    × (accounts w'.server.registry ≡ remove_name (97 ∷ []) (accounts no_users))
    × (w'.server.admin_table ≡ root_only)
    × (contents w'.write_buffer
        ≡ contents empty_buffer
          ++ (if has_name (97 ∷ []) (accounts no_users)
              then monitor_status_succeeded
              else monitor_status_invalid_data)
            ∷ 0
            ∷ 1
            ∷ 0
            ∷ [])
unfolding parse monitor_parser_feed monitor_is_done monitor_is_admin bytes_eq c_string
    monitor_parser_init is_admin_loop
monitor_read-deletion_example =
    monitor_read-deletion serving statics monitor_start sixteen (97 ∷ []) (1 ∷ []) 0 1 refl refl
      (refl, tt) (omega arith) refl (omega arith) refl no_users-IsSound
      (record { consistent = one_used-IsConsistent; small = omega arith; inside = omega arith })
      (record { ordered = omega arith; bounded = omega arith; stored = omega arith }) (omega arith)
      (record { ordered = omega arith; bounded = omega arith; stored = omega arith }) refl refl refl
      refl

-- A token that no administrator has.
abbrev intruding : Service
intruding = record serving { os = answers (other_token ++ 1 ∷ 2 ∷ 0 ∷ 1 ∷ 97 ∷ []) }

abbrev intruded : Service
intruded = elim (monitor_read intruding) [ none ↦ intruding | some w' ↦ w' ]

monitor_read-monitor_is_admin_example :
    (intruded.server ≡ intruding.server)
    ⊎ (monitor_is_admin intruded.parser.monitor.token intruding.server.admin_table ≡ true)
unfolding monitor_read receive monitor_consume consume consume_loop buffer_write_ptr
    buffer_write_adv buffer_fill overwrite buffer_can_read buffer_read buffer_read_adv
    buffer_compact monitor_parser_feed monitor_parser_init monitor_is_done monitor_received
    monitor_answer monitor_process decide monitor_is_admin is_admin_loop bytes_eq c_string
    monitor_marshall buffer_writes buffer_write buffer_can_write selector_set_interest
    items_update_fdset_for_fd
monitor_read-monitor_is_admin_example = monitor_read-monitor_is_admin intruding intruded refl
