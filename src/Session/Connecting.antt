-- ===== src/Session/Connecting.antt =====
-- src/server/socks5nio.c: the states REQUEST_CONNECTING and REQUEST_WRITE.
use socks_v5_proxy.Prelude.{
  ◌==◌, if◌then◌else◌, u32, pos, negsuc, ◌>>=◌, ℕ, ◌+◌, true, ◌&&◌, Option, none, some, List, [],
  ◌∷◌,
}
use socks_v5_proxy.Buffer.{buffer_can_read}
use socks_v5_proxy.Request.{socks_req_addrtype_domain}
use socks_v5_proxy.Request.Reply.{
  status_succeeded, status_general_socks_server_failure, request_marshall, errno_to_socks,
}
use socks_v5_proxy.Selector.{op_noop}
use socks_v5_proxy.Session.{
  request_connecting_state, request_write_state, copy_state, error_state, Address, World,
  op_read_only, op_write_only, is_success, Handler, set_interest, transmit,
}
use socks_v5_proxy.Session.Requesting.{request_connect}

-- `request_connecting_init` only sets pointers.
unfoldable pub request_connecting_init : ℕ → World → Option World
request_connecting_init state w = some w

-- The end of `request_connecting`, once the status is known.
unfoldable pub report_connection : Handler
report_connection w = do
  let w1 : World =
      if w.conn.request.request.dest_addr_type == socks_req_addrtype_domain
      then record w {
        conn = record (w.conn) { origin_resolution = []; origin_resolution_current = [] };
      }
      else w
  (n, b) ← request_marshall w1.conn.write_buffer w1.conn.response_status
  elim n [
    | negsuc k ↦ none
    | pos k ↦ (do
      let w2 = record w1 { conn = record (w1.conn) { write_buffer = b } }
      (st, w3) ← set_interest w2 (pos w2.conn.client_fd) op_write_only
      (st', w4) ← set_interest w3 (pos w3.fd) op_noop
      some ((if is_success st && is_success st' then request_write_state else error_state), w4))
  ]

abbrev pub with_status : World → ℕ → World
with_status w status = record w { conn = record (w.conn) { response_status = status } }

-- The next address of the chain; the result of `request_connect` is dropped.
unfoldable pub next_address : World → Address → List Address → Option (ℕ × World)
unfolding request_connect
next_address w a rest = do
  (ret, w') ← request_connect true (record w {
    conn = record (w.conn) { origin_resolution_current = a ∷ rest; origin_addr = some a };
  })
  some (request_connecting_state, w')

-- A read through a NULL `origin_resolution_current` is `none`.
unfoldable pub request_connecting : Handler
unfolding report_connection next_address
request_connecting w = elim (w.os.socket_error) [
  | none ↦ report_connection (with_status w status_general_socks_server_failure)
  | some e ↦
      if e == 0
      then report_connection (record w {
        conn = record (w.conn) { response_status = status_succeeded; origin_fd = pos w.fd };
      })
      else if w.conn.request.request.dest_addr_type == socks_req_addrtype_domain
      then elim (w.conn.origin_resolution_current) [
        | [] ↦ none
        | a ∷ [] ↦ report_connection (with_status w (errno_to_socks w.errno e))
        | a ∷ b ∷ rest ↦ next_address w b rest
      ]
      else report_connection (with_status w (errno_to_socks w.errno e))
]

-- The reply is sent: with a success the copy begins, and the connection is counted. Nothing looks at
-- what the changes of interest return.
unfoldable pub request_written : Handler
request_written w =
    if w.conn.response_status == status_succeeded
    then (do
      (st, w1) ← set_interest w (pos w.conn.client_fd) op_read_only
      (st', w2) ← set_interest w1 w1.conn.origin_fd op_read_only
      some (
        copy_state,
        record w2 {
          server = record (w2.server) {
            historic_connections = u32 (w2.server.historic_connections + 1);
            current_connections = u32 (w2.server.current_connections + 1);
          };
        },
      ))
    else (do
      (st, w1) ← set_interest w (pos w.conn.client_fd) op_noop
      w2 ← elim (w1.conn.origin_fd) [
        | negsuc k ↦ some w1
        | pos fd ↦ (do (st', w') ← set_interest w1 (pos fd) op_noop; some w')
      ]
      some (error_state, w2))

unfoldable pub request_write : Handler
unfolding request_written
request_write w = do
  r ← transmit w.os w.conn.write_buffer
  elim r [
    | none ↦ some (error_state, w)
    | some (bytes, b) ↦
        let w1 = record w { conn = record (w.conn) { write_buffer = b } } in
        if buffer_can_read b then some (request_write_state, w1) else request_written w1
  ]
