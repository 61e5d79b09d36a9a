-- ===== src/Session/Requesting.antt =====
-- src/server/socks5nio.c: the states REQUEST_READ and REQUEST_RESOLV, and the attempt to connect.

use socks_v5_proxy.Prelude.{
  ◌==◌, if◌then◌else◌, u32, pos, negsuc, ◌>>=◌, ℕ, ◌+◌, Bool, false, ◌&&◌, Option, none, some, List,
  [], ◌∷◌,
}
use socks_v5_proxy.Consume.{Consumed}
use socks_v5_proxy.Request.{
  socks_req_cmd_connect, socks_req_addrtype_ipv4, socks_req_addrtype_domain,
  socks_req_addrtype_ipv6, af_inet, af_inet6, RequestParser, request_parser_init, request_is_done,
  request_consume,
}
use socks_v5_proxy.Request.Reply.{
  status_general_socks_server_failure, status_host_unreachable, status_command_not_supported,
  status_address_type_not_supported, request_marshall, errno_to_socks,
}
use socks_v5_proxy.Selector.{op_noop, selector_register}
use socks_v5_proxy.Session.{
  request_read_state, request_resolv_state, request_connecting_state, request_write_state,
  error_state, Address, World, op_write_only, is_success, Handler, set_interest, receive,
}
use socks_v5_proxy.Session.Lifetime.{unregister, close_fd}

unfoldable pub request_init : ℕ → World → Option World
request_init state w = some (record w {
  conn = record (w.conn) {
    response_status = status_general_socks_server_failure;
    request = request_parser_init w.conn.request;
  };
})

-- `none` is the abort for want of room.
unfoldable pub request_error_write : ℕ → Handler
request_error_write status w = do
  (n, b) ← request_marshall w.conn.write_buffer status
  elim n [
    | negsuc k ↦ none
    | pos k ↦ (do
      let w1 = record w { conn = record (w.conn) { write_buffer = b; response_status = status } }
      (st, w2) ← set_interest w1 (pos w1.conn.client_fd) op_write_only
      some ((if is_success st then request_write_state else error_state), w2))
  ]

-- What the attempt to connect comes to: the label `finally` with a status to report, or without.
pub data Attempt : Type 0 where
  under_way : World → Attempt
  given_up : ℕ → World → Attempt

-- `connect` and what follows it on a new descriptor that does not block.
unfoldable pub start_connection : ℕ → World → Option Attempt
start_connection fd w = elim (w.os.connect_errno) [
  | none ↦ none
  | some e ↦
      if e == w.einprogress
      then (do
        (st, w1) ← set_interest w (pos w.conn.client_fd) op_noop
        if is_success st
            then (do
              (st', s) ←
                  selector_register w1.os.table_memory w1.selector (pos fd) (some fd) op_write_only
                    w1.number
              let w2 = record w1 { selector = s }
              if is_success st'
                  then some (
                      under_way (record w2 {
                        conn = record (w2.conn) { references = u32 (w2.conn.references + 1) };
                      }))
                  else some (given_up w2.conn.response_status w2))
            else some (given_up w1.conn.response_status w1))
      else some (given_up (errno_to_socks w.errno e) w)
]

-- The attempt before is dropped: its descriptor is unregistered and closed.
unfoldable pub drop_attempt : World → Option World
drop_attempt w = do (st, w1) ← unregister w w.conn.origin_fd; some (close_fd w1 w1.conn.origin_fd)

-- `socket`, `selector_fd_set_nio` and `connect`.
unfoldable pub open_origin : World → Option Attempt
unfolding start_connection
open_origin w = elim (w.os.new_fd) [
  | none ↦ some (
      given_up status_general_socks_server_failure
        (record w { conn = record (w.conn) { origin_fd = negsuc 0 } }))
  | some fd ↦
      let w1 : World = record w { conn = record (w.conn) { origin_fd = pos fd } } in
      if w1.os.set_nio then start_connection fd w1 else some (under_way w1)
]

-- The label `finally`.
unfoldable pub conclude : Attempt → Option (ℕ × World)
unfolding request_error_write
conclude (under_way w) = some (request_connecting_state, w)
conclude (given_up status w) =
    let w1 = close_fd w w.conn.origin_fd in
    request_error_write status (record w1 { conn = record (w1.conn) { origin_fd = negsuc 0 } })

-- `again` is `stm.current->state == REQUEST_CONNECTING`.
unfoldable pub request_connect : Bool → Handler
unfolding drop_attempt open_origin conclude
request_connect again w = do
  w1 ← if again then drop_attempt w else some w
  a ← open_origin w1
  conclude a

abbrev pub with_target : World → Address → World
with_target w a = record w { conn = record (w.conn) { origin_addr = some a } }

-- A name is resolved by a thread of its own.
unfoldable pub process_domain : Handler
unfolding request_error_write
process_domain w =
    if w.os.key_memory && w.os.thread
    then (do (st, w') ← set_interest w (pos w.fd) op_noop; some (request_resolv_state, w'))
    else request_error_write status_general_socks_server_failure w

unfoldable pub request_process : Handler
unfolding request_connect request_error_write process_domain
request_process w =
    let r = w.conn.request.request in
    if r.cmd == socks_req_cmd_connect
    then if r.dest_addr_type == socks_req_addrtype_ipv4
      then request_connect false
          (with_target w (record { domain = af_inet; host = r.ipv4; port = r.dest_port }))
      else if r.dest_addr_type == socks_req_addrtype_ipv6
      then request_connect false
          (with_target w (record { domain = af_inet6; host = r.ipv6; port = r.dest_port }))
      else if r.dest_addr_type == socks_req_addrtype_domain
      then process_domain w
      else request_error_write status_address_type_not_supported w
    else request_error_write status_command_not_supported w

-- What `request_read` does with the end of the parse.
unfoldable pub request_parsed : Consumed RequestParser → Handler
unfolding request_process
request_parsed c w =
    if c.errored
    then some (error_state, w)
    else if request_is_done c.parser.state
    then request_process w
    else some (request_read_state, w)

unfoldable pub request_read : Handler
unfolding request_parsed
request_read w = do
  r ← receive w.os w.conn.read_buffer
  elim r [
    | none ↦ some (error_state, w)
    | some b ↦ (do
      c ← request_consume b w.conn.request false
      request_parsed c
          (record w { conn = record (w.conn) { read_buffer = c.buffer; request = c.parser } }))
  ]

-- The thread, between two events: `answer` is what `getaddrinfo` gives for the name, `[]` where it
-- fails.
unfoldable pub request_resolv_blocking : List Address → World → World
request_resolv_blocking [] w = record w {
  conn = record (w.conn) {
    response_status = status_general_socks_server_failure;
    origin_resolution = [];
  };
}
request_resolv_blocking (a ∷ rest) w = record w {
  conn = record (w.conn) { origin_resolution = a ∷ rest };
}

unfoldable pub request_resolv_done : Handler
unfolding request_connect request_error_write
request_resolv_done w = elim (w.conn.origin_resolution) [
  | [] ↦ request_error_write status_host_unreachable w
  | a ∷ rest ↦ request_connect false (record w {
    conn = record (w.conn) { origin_resolution_current = a ∷ rest; origin_addr = some a };
  })
]
