-- ===== src/Admins/Service.antt =====
-- src/server/monitornio.c: a connection of the administration server, from one event to the next.
-- The connection and what its handlers reach are one record; the answers of the operating system are
-- those of the proxy's connections.
pub mod Requests
pub mod Deletions
use socks_v5_proxy.Prelude.{
  ltb, leb, ◌==◌, if◌then◌else◌, ℤ, pos, negsuc, ◌>>=◌, ℕ, ◌+◌, Option, none, some, List, ◌∷◌,
}
use socks_v5_proxy.Buffer.{Buffer, buffer_can_read}
use socks_v5_proxy.Selector.{
  SelectorStatus, FdSelector, selector_unregister_fd, selector_set_interest,
}
use socks_v5_proxy.Monitor.Types.{monitor_error, monitor_state_value, Statics, MonitorParser}
use socks_v5_proxy.Monitor.Parser.{monitor_is_done, monitor_consume}
use socks_v5_proxy.Monitor.Reply.{monitor_error_marshall, number}
use socks_v5_proxy.Admins.Process.{Server, is_written, monitor_process}
use socks_v5_proxy.Session.{
  Life, in_use, pooled, freed, Os, op_write_only, is_success, receive, transmit,
}

abbrev pub max_idle : ℕ
max_idle = 5

-- `struct connection` with the static variables of monitor.c, the globals, and `key->fd`. `scratch` is
-- what the array holds that `monitor_process` fills.
pub record Service : Type 0 where
  pub client_fd : ℤ
  pub parser : MonitorParser
  pub read_buffer : Buffer
  pub write_buffer : Buffer
  pub life : Life
  pub fd : ℕ
  pub number : ℕ
  pub os : Os
  pub statics : Statics
  pub server : Server
  pub selector : FdSelector ℕ ℕ
  pub pool_size : ℕ
  pub closed : List ℕ
  pub scratch : List ℕ

-- `none` is a second end of the block.
unfoldable pub connection_destroy : Service → Option Service
connection_destroy w = elim (w.life) [
  | in_use ↦ some (
      if ltb w.pool_size max_idle
      then record w { life = pooled; pool_size = w.pool_size + 1 }
      else record w { life = freed })
  | other ↦ none
]

-- `selector_unregister_fd`, whose `handle_close` is `monitor_close` for a descriptor of this connection.
unfoldable pub monitor_unregister : Service → ℤ → Option (SelectorStatus × Service)
unfolding connection_destroy
monitor_unregister w fd = do
  (st, s, item) ← selector_unregister_fd w.selector fd
  let w1 : Service = record w { selector = s }
  w2 ← elim item [
    | none ↦ some w1
    | some it ↦ if it.attachment == w1.number then connection_destroy w1 else some w1
  ]
  some (st, w2)

unfoldable pub monitor_finish : Service → Option Service
unfolding monitor_unregister
monitor_finish w = elim (w.client_fd) [
  | negsuc k ↦ some w
  | pos fd ↦ (do
    (st, w1) ← monitor_unregister w (pos fd)
    if is_success st then some (record w1 { closed = fd ∷ w1.closed }) else none)
]

-- The answer to a request that is parsed: an error of the parse, or what it asks for.
unfoldable pub monitor_answer : Service → Option Service
monitor_answer w =
    if leb (monitor_state_value monitor_error) (monitor_state_value w.parser.state)
    then (do
      (n, b) ← monitor_error_marshall w.write_buffer w.parser.state
      if is_written n then some (record w { write_buffer = b }) else none)
    else (do
      (s, b) ← monitor_process w.scratch w.server w.write_buffer w.parser.monitor
      some (record w { server = s; write_buffer = b }))

-- What `monitor_read` does once the bytes are parsed.
unfoldable pub monitor_received : Service → Option Service
unfolding monitor_answer
monitor_received w =
    if monitor_is_done (some w.parser.state)
    then (do
      w1 ← monitor_answer w
      (status, s) ← selector_set_interest w1.selector (pos w1.fd) op_write_only
      some (record w1 { selector = s }))
    else some w

abbrev pub with_parse : Service → Buffer → Statics × MonitorParser → Service
with_parse w b (st, p) = record w { read_buffer = b; statics = st; parser = p }

-- `none` is also a store of the parser outside its union.
unfoldable pub monitor_read : Service → Option Service
unfolding monitor_finish monitor_received
monitor_read w = do
  r ← receive w.os w.read_buffer
  elim r [
    | none ↦ monitor_finish w
    | some b ↦ (do
      c ← monitor_consume b (some (w.statics, w.parser))
      parsed ← c.parser
      monitor_received (with_parse w c.buffer parsed))
  ]

unfoldable pub monitor_write : Service → Option Service
unfolding monitor_finish
monitor_write w = do
  r ← transmit w.os w.write_buffer
  elim r [
    | none ↦ monitor_finish w
    | some (bytes, b) ↦
        let w1 : Service = record w { write_buffer = b } in
        if buffer_can_read b then some w1 else monitor_finish w1
  ]
