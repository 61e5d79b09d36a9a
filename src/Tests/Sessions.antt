-- ===== src/Tests/Sessions.antt =====
-- The life of a connection at concrete inputs.

use socks_v5_proxy.Prelude.{
  ◌==◌, replicate, overwrite, negsuc, ℕ, ◌≡◌, refl, ◌⊎◌, inl, true, false, none, some, List, [],
  ◌∷◌, arith,
}
use socks_v5_proxy.Buffer.{
  Buffer, buffer_write_ptr, buffer_can_read, buffer_read_ptr, buffer_write_adv, buffer_compact,
  buffer_read_adv, buffer_read, buffer_fill,
}
use socks_v5_proxy.Consume.{consume_loop, consume}
use socks_v5_proxy.Hello.{
  hello_version, hello_parser_init, hello_parser_feed, hello_is_done, hello_is_error, hello_consume,
  hello_marshall, on_hello_method,
}
use socks_v5_proxy.Auth.{auth_version}
use socks_v5_proxy.Request.{
  request_version, cleared_request, request_parser_init, request_parser_feed, request_is_done,
  request_is_error, request_consume,
}
use socks_v5_proxy.Request.Reply.{request_marshall, errno_to_socks}
use socks_v5_proxy.Disector.{disector_wait_pop, disector_parser_init}
use socks_v5_proxy.Admins.Process.{Server}
use socks_v5_proxy.Stm.{run_hook, handle_first, jump, stm_handler}
use socks_v5_proxy.Selector.{
  FdSelector, bit_count, next_capacity, items_max_fd, items_update_fdset_for_fd, ensure_capacity,
  register_entry, register_fd, selector_register, selector_set_interest,
}
use socks_v5_proxy.Selector.Registration.{registered}
use socks_v5_proxy.Session.{
  copy_state, in_use, Socks5, Os, World, op_read_only, op_both, set_interest, receive, transmit,
}
use socks_v5_proxy.Session.Greeting.{hello_process, hello_read, hello_write, auth_write}
use socks_v5_proxy.Session.Connecting.{
  request_connecting_init, report_connection, request_connecting, request_written, request_write,
}
use socks_v5_proxy.Session.Requesting.{
  request_init, start_connection, open_origin, conclude, request_connect, request_process,
  request_parsed, request_read,
}
use socks_v5_proxy.Session.Copying.{copy_init}
use socks_v5_proxy.Session.Table.{machine, Event, read_ready, write_ready, handler_of}
use socks_v5_proxy.Session.Phase.{Stepped}
use socks_v5_proxy.Session.Refinement.{event-Stepped}
use socks_v5_proxy.Session.Runs.{Run, Run-copying}

-- A descriptor that bytes have come to, and that takes what is sent.
abbrev pub answers : List ℕ → Os
answers bytes = record {
  received = bytes;
  sent = some 100;
  new_fd = some 5;
  set_nio = true;
  connect_errno = some 115;
  socket_error = some 0;
  key_memory = true;
  thread = true;
  table_memory = true;
}

abbrev pub empty_buffer : Buffer
empty_buffer = record { bytes = replicate 16 0; limit = 16; read = 0; write = 0 }

abbrev pub server : Server
server = record {
  registry = record {
    users = record { uname = 97 ∷ 0 ∷ []; passwd = 98 ∷ 0 ∷ [] } ∷ [];
    registered_users = 1;
  };
  admin_table = record { admins = []; registered_admins = 0 };
  is_disector_on = false;
  current_connections = 2;
  historic_connections = 5;
  bytes_transferred = 1000;
}

abbrev client_only : FdSelector ℕ ℕ
client_only = record {
  fds = none ∷ none ∷ none ∷ none ∷ some (registered 4 7 op_read_only 9) ∷ none ∷ none ∷ [];
  max_fd = 4;
  master_r = λ i. i == 4;
  master_w = λ i. false;
}

abbrev pub accepted : Socks5
accepted = record {
  client_fd = 4;
  client_uname = none;
  origin_resolution = [];
  origin_resolution_current = [];
  origin_fd = negsuc 0;
  origin_addr = none;
  hello = hello_parser_init (record {
    on_authentication_method = none;
    selected = 255;
    state = hello_version;
    remaining = 0;
  });
  auth = record {
    uname = replicate 4 0;
    passwd = replicate 4 0;
    state = auth_version;
    len = 0;
    i = 0;
  };
  auth_status = 0;
  request = record { request = cleared_request; state = request_version; n = 0; i = 0 };
  response_status = 0;
  client_duplex = op_both;
  origin_duplex = op_both;
  dp = record { disector = []; state = disector_wait_pop; i = 0; user_carry = false };
  read_buffer = empty_buffer;
  write_buffer = empty_buffer;
  references = 1;
  life = in_use;
}

abbrev pub greeted_world : World
greeted_world = record {
  fd = 4;
  os = answers (5 ∷ 1 ∷ 0 ∷ []);
  errno = record { econnrefused = 111; ehostunreach = 113; enetunreach = 101; etimedout = 110 };
  einprogress = 115;
  server = server;
  is_auth_on = false;
  selector = client_only;
  number = 9;
  conn = accepted;
  pool_size = 0;
  closed = [];
}

abbrev pub at : ℕ → List ℕ → World → World
at fd bytes w = record w { fd = fd; os = answers bytes }

-- Where an event leads.
abbrev hop : Event → ℕ → World → World
hop ev c w = elim (stm_handler (handler_of ev) (machine (some c)) w) [
  | none ↦ w
  | some (ret, stm, w') ↦ w'
]

-- The client greets, its request is met, and the copy begins.
abbrev world1 : World
world1 = at 4 [] (hop read_ready 0 greeted_world)

abbrev world2 : World
world2 = at 4 (5 ∷ 1 ∷ 0 ∷ 1 ∷ 10 ∷ 0 ∷ 0 ∷ 1 ∷ 0 ∷ 80 ∷ []) (hop write_ready 1 world1)

abbrev world3 : World
world3 = at 5 [] (hop read_ready 4 world2)

abbrev world4 : World
world4 = at 4 [] (hop write_ready 6 world3)

abbrev world5 : World
world5 = hop write_ready 7 world4

whole-Run : Run true true false copy_state world5
unfolding stm_handler handle_first jump run_hook hello_read hello_process receive transmit
    set_interest buffer_write_ptr buffer_read_ptr buffer_write_adv buffer_fill hello_consume consume
    consume_loop buffer_read buffer_read_adv buffer_compact buffer_can_read hello_parser_init
    hello_parser_feed hello_is_done hello_is_error hello_marshall selector_set_interest
    items_update_fdset_for_fd on_hello_method overwrite hello_write errno_to_socks request_marshall
    request_consume request_is_done request_is_error request_parser_feed request_parser_init
    bit_count ensure_capacity items_max_fd next_capacity register_entry register_fd
    selector_register conclude open_origin request_connect request_parsed request_process
    request_read start_connection request_connecting report_connection request_write request_written
    request_init request_connecting_init copy_init disector_parser_init
whole-Run =
    let run1 : Run false false false 1 world1 =
      Run.others
        (Run.event {w = hop read_ready 0 greeted_world} read_ready (Run.start greeted_world)
          (λ q. ground arith) refl)
        refl in
    let run2 : Run true false false 4 world2 =
      Run.others
        (Run.event {w = hop write_ready 1 world1} write_ready run1 (λ q. ground arith) refl) refl in
    let run3 : Run true false false 6 world3 =
      Run.others (Run.event {w = hop read_ready 4 world2} read_ready run2 (λ q. ground arith) refl)
        refl in
    let run4 : Run true true false 7 world4 =
      Run.others
        (Run.event {w = hop write_ready 6 world3} write_ready run3 (λ q. ground arith) refl) refl in
    Run.event {w = world5} write_ready run4 (λ q. ground arith) refl

Run-copying_example : (true ≡ true) × ((true ≡ true) ⊎ (false ≡ true))
Run-copying_example = Run-copying whole-Run

-- The answer to credentials that were accepted is sent.
abbrev accepting : World
accepting = record (at 4 [] greeted_world) {
  conn = record accepted { write_buffer = record empty_buffer { write = 2 } };
}

event-Stepped_example : Stepped 3 accepting 4 (machine (some 4)) (hop write_ready 3 accepting)
unfolding stm_handler handle_first auth_write transmit buffer_read_ptr buffer_read_adv
    buffer_can_read set_interest selector_set_interest jump request_init
event-Stepped_example =
    event-Stepped write_ready 3 accepting (hop write_ready 3 accepting) 4 (machine (some 4))
      (λ q. ground arith) (inl (inl (omega arith))) refl
