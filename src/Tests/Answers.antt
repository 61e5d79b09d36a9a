-- ===== src/Tests/Answers.antt =====
-- The events that complete a message of a client, at concrete inputs.

use socks_v5_proxy.Session.Dialogue.{IsNext, IsOpen, socksv5_event-IsOpen}
use socks_v5_proxy.Session.Dialogue.Login.{IsAdmitted, stm_handler-IsAdmitted}
use socks_v5_proxy.Session.Streams.{departing}
use socks_v5_proxy.Session.Table.{socksv5_event, machine, read_ready, write_ready, handler_of}
use socks_v5_proxy.Stm.{stm_handler}
use socks_v5_proxy.Users.Accounts.{accounts}
use socks_v5_proxy.Users.Login.{has_account}
use socks_v5_proxy.Session.{World, op_read_only}
use socks_v5_proxy.Session.Greeted.{answered, greeted}
use socks_v5_proxy.Session.Served.{status_for}
use socks_v5_proxy.Selector.Consistency.{IsConsistent}
use socks_v5_proxy.Selector.Interests.{IsUsed}
use socks_v5_proxy.Selector.Registration.{registered}
use socks_v5_proxy.Hello.{
  hello_nmethods, hello_parser_init, hello_parser_feed, hello_is_done, hello_is_error,
}
use socks_v5_proxy.Auth.{auth_parser_init, auth_parser_feed, auth_is_done, auth_is_error}
use socks_v5_proxy.Request.{
  request_parser_init, request_parser_feed, request_is_done, request_is_error,
}
use socks_v5_proxy.Consume.{parse}
use socks_v5_proxy.Buffer.{IsValid, contents}
use socks_v5_proxy.Prelude.{ℕ, ◌≡◌, refl, false, some, List, [], ◌∷◌, arith}
use socks_v5_proxy.Tests.Sessions.{answers, empty_buffer, server, accepted, greeted_world}
use socks_v5_proxy.Tests.Copies.{both_ends, both_ends-Agreed}
use socks_v5_proxy.Tests.Tables.{one_user, one_user-IsSound}

both_ends-IsConsistent : IsConsistent both_ends
both_ends-IsConsistent = record { entries = λ i h. both_ends-Agreed i _ h }

client-IsUsed : IsUsed both_ends 4
client-IsUsed = record { small = omega arith; entry = (registered 4 7 op_read_only 9, refl) }

empty_buffer-IsValid : IsValid empty_buffer
empty_buffer-IsValid = record { ordered = omega arith; bounded = omega arith; stored = omega arith }

-- A client on an open connection sends these bytes.
abbrev sending_to : List ℕ → World
sending_to bytes = record greeted_world { os = answers bytes; selector = both_ends }

-- The version of the greeting has come, and the rest of it follows with a byte more.
abbrev greeting_client : World
greeting_client = record (sending_to (1 ∷ 0 ∷ 9 ∷ [])) {
  conn = record accepted {
    hello = record (greeted false accepted.hello) { state = hello_nmethods };
  };
}

socksv5_event-IsOpen_example :
    (w1 : World) × (w2 : World) × (next : ℕ) × (socksv5_event read_ready
        (machine (some 0))
        greeting_client
      ≡ some (machine (some 1), w1))
    × (socksv5_event write_ready (machine (some 1)) (record w1 { os = answers [] })
        ≡ some (machine (some next), w2))
    × (departing (answers []) w1.conn.write_buffer ≡ 5 ∷ answered false (0 ∷ []) ∷ [])
    × IsNext greeting_client w2 next
    × (contents w2.conn.read_buffer ≡ 9 ∷ [])
    × IsOpen greeting_client w2
unfolding parse hello_parser_init hello_parser_feed hello_is_done hello_is_error
socksv5_event-IsOpen_example =
    socksv5_event-IsOpen greeting_client accepted.hello (0 ∷ []) (5 ∷ []) (9 ∷ []) (answers []) 100
      (omega arith) both_ends-IsConsistent client-IsUsed empty_buffer-IsValid (omega arith) refl
      empty_buffer-IsValid refl refl refl refl refl (omega arith)

-- The name has come, and the password follows.
abbrev known_client : World
known_client = record (sending_to (1 ∷ 98 ∷ 9 ∷ [])) {
  server = record server { registry = one_user };
  conn = record accepted {
    auth =
        (parse auth_parser_feed (λ q. q.state) auth_is_done auth_is_error
          (auth_parser_init accepted.auth) false (1 ∷ 1 ∷ 97 ∷ [])).0;
  };
}

stm_handler-IsAdmitted_example :
    (w1 : World) × (w2 : World) × (next : ℕ) × (stm_handler
        (handler_of read_ready)
        (machine (some 2))
        known_client
      ≡ some (3, machine (some 3), w1))
    × (stm_handler (handler_of write_ready) (machine (some 3)) (record w1 { os = answers [] })
        ≡ some (next, machine (some next), w2))
    × (departing (answers []) w1.conn.write_buffer
        ≡ 1 ∷ status_for (97 ∷ []) (98 ∷ []) one_user ∷ [])
    × IsAdmitted (has_account (97 ∷ []) (98 ∷ []) (accounts one_user)) known_client w2 next
    × (contents w2.conn.read_buffer ≡ 9 ∷ [])
    × IsOpen known_client w2
unfolding parse auth_parser_init auth_parser_feed auth_is_done auth_is_error
stm_handler-IsAdmitted_example =
    stm_handler-IsAdmitted known_client accepted.auth (97 ∷ []) (98 ∷ []) (1 ∷ 1 ∷ 97 ∷ []) (9 ∷ [])
      (answers []) 100 (omega arith) (omega arith) (omega arith) (omega arith)
      ((λ e. omega arith), tt) ((λ e. omega arith), tt) one_user-IsSound both_ends-IsConsistent
      client-IsUsed empty_buffer-IsValid (omega arith) refl empty_buffer-IsValid refl refl refl refl
      refl (omega arith)

-- The command has come, and the address and the port of the origin follow.
abbrev asking_client : World
asking_client = record (sending_to (0 ∷ 1 ∷ 10 ∷ 0 ∷ 0 ∷ 1 ∷ 0 ∷ 80 ∷ 9 ∷ [])) {
  conn = record accepted {
    response_status = 1;
    request =
        (parse request_parser_feed (λ q. q.state) request_is_done request_is_error
          (request_parser_init accepted.request) false (5 ∷ 1 ∷ [])).0;
  };
}
