-- ===== src/Admins/Arrivals.antt =====
-- src/server/monitornio.c: new connections of the administration server. What the handler of the listening
-- descriptor reaches, and what the calls that it makes give, are as for the proxy's connections.
pub mod Settling
use socks_v5_proxy.Prelude.{
  ltb, ◌==◌, if◌then◌else◌, replicate, pos, ◌>>=◌, ℕ, ◌+◌, ◌-◌, Bool, false, Option, none, some,
}
use socks_v5_proxy.Buffer.{Buffer, buffer_init}
use socks_v5_proxy.Selector.{selector_register}
use socks_v5_proxy.Monitor.Types.{
  monitor_version, MonitorParser, cleared_monitor, monitor_parser_init,
}
use socks_v5_proxy.Monitor.Reply.{monitor_status_server_error}
use socks_v5_proxy.Session.{op_read_only, is_success}
use socks_v5_proxy.Session.Accept.{Listener, Arrival, hang_up}
use socks_v5_proxy.Admins.Service.{max_idle}

-- `struct connection`.
pub record Connection : Type 0 where
  pub client_fd : ℕ
  pub parser : MonitorParser
  pub status : ℕ
  pub read_buffer : Buffer
  pub write_buffer : Buffer

abbrev pub raw_monitor_buffer_size : ℕ
raw_monitor_buffer_size = 0xffff

-- The block as `connection_new` fills it, all of it 0 before.
unfoldable pub cleared_connection : ℕ → Connection
cleared_connection client = record {
  client_fd = client;
  parser = record {
    monitor = cleared_monitor;
    state = monitor_version;
    len = 0;
    i = 0;
    separated = false;
  };
  status = 0;
  read_buffer = buffer_init raw_monitor_buffer_size (replicate raw_monitor_buffer_size 0);
  write_buffer = buffer_init raw_monitor_buffer_size (replicate raw_monitor_buffer_size 0);
}

unfoldable pub connection_new : Bool → ℕ → Listener → Option Connection × Listener
connection_new memory client l =
    if l.idle == 0
    then ((if memory then some (cleared_connection client) else none), l)
    else (some (cleared_connection client), record l { idle = l.idle - 1 })

-- `connection_destroy` of a block that no connection uses.
unfoldable pub retire_connection : Listener → Listener
retire_connection l =
    if ltb l.pool_size max_idle
    then record l { idle = l.idle + 1; pool_size = l.pool_size + 1 }
    else l

unfoldable pub monitor_init : Connection → Connection
monitor_init c = record c {
  parser = monitor_parser_init c.parser;
  status = monitor_status_server_error;
}

-- From the test for a block on: `none` is no new connection.
unfoldable pub register_connection :
    Bool → ℕ → Option Connection → Listener → Option (Option Connection × Listener)
register_connection table_memory fd none l = some (none, hang_up l fd)
register_connection table_memory fd (some c) l = do
  (st, sel) ← selector_register table_memory l.selector (pos fd) (some fd) op_read_only l.number
  let l1 : Listener = record l { selector = sel }
  some (
      if is_success st
      then (some (monitor_init c), l1)
      else (none, retire_connection (hang_up l1 fd)))

unfoldable pub monitor_passive_accept : Arrival → Listener → Option (Option Connection × Listener)
monitor_passive_accept a l = elim (a.client) [
  | none ↦ some (none, l)
  | some fd ↦
      if a.set_nio
      then (let (block, l1) = connection_new a.memory fd l in
          register_connection a.table_memory fd block l1)
      else some (none, hang_up l fd)
]
