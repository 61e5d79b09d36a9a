-- ===== src/Session/Table.antt =====
-- src/server/socks5nio.c: the table of states, and the handlers of the selector's events.
use socks_v5_proxy.Prelude.{
  ◌==◌, if◌then◌else◌, ◌>>=◌, ℕ, Bool, ◌||◌, Option, none, some, List, [], ◌∷◌,
}
use socks_v5_proxy.Stm.{StateDefinition, StateMachine, stm_handler}
use socks_v5_proxy.Session.{
  hello_read_state, hello_write_state, auth_read_state, auth_write_state, request_read_state,
  request_resolv_state, request_connecting_state, request_write_state, copy_state, done_state,
  error_state, World, Handler,
}
use socks_v5_proxy.Session.Greeting.{
  hello_read_init, hello_read, hello_write, auth_init, auth_read, auth_write,
}
use socks_v5_proxy.Session.Connecting.{request_connecting_init, request_connecting, request_write}
use socks_v5_proxy.Session.Requesting.{request_init, request_read, request_resolv_done}
use socks_v5_proxy.Session.Copying.{copy_init, copy_r, copy_w}
use socks_v5_proxy.Session.Lifetime.{socksv5_done}

abbrev pub silent : ℕ → StateDefinition World
silent n = record {
  state = n;
  on_arrival = none;
  on_departure = none;
  on_read_ready = none;
  on_write_ready = none;
  on_block_ready = none;
}

-- `hello_read_close` and `request_read_close` call parser functions with an empty body.
abbrev pub nothing : ℕ → World → Option World
nothing state w = some w

abbrev pub client_statbl : List (StateDefinition World)
client_statbl =
    record (silent hello_read_state) {
      on_arrival = some hello_read_init;
      on_departure = some nothing;
      on_read_ready = some hello_read;
    }
    ∷ record (silent hello_write_state) { on_write_ready = some hello_write }
    ∷ record (silent auth_read_state) {
      on_arrival = some auth_init;
      on_read_ready = some auth_read;
    }
    ∷ record (silent auth_write_state) { on_write_ready = some auth_write }
    ∷ record (silent request_read_state) {
      on_arrival = some request_init;
      on_departure = some nothing;
      on_read_ready = some request_read;
    }
    ∷ record (silent request_resolv_state) { on_block_ready = some request_resolv_done }
    ∷ record (silent request_connecting_state) {
      on_arrival = some request_connecting_init;
      on_write_ready = some request_connecting;
    }
    ∷ record (silent request_write_state) { on_write_ready = some request_write }
    ∷ record (silent copy_state) {
      on_arrival = some copy_init;
      on_read_ready = some copy_r;
      on_write_ready = some copy_w;
    }
    ∷ silent done_state
    ∷ silent error_state
    ∷ []

-- The machine that `socks5_new` sets up.
abbrev pub machine : Option ℕ → StateMachine World
machine current = record {
  initial = hello_read_state;
  states = client_statbl;
  max_state = error_state;
  current = current;
}

pub data Event : Type 0 where
  read_ready write_ready block_ready : Event

abbrev pub handler_of : Event → StateDefinition World → Option Handler
handler_of read_ready d = d.on_read_ready
handler_of write_ready d = d.on_write_ready
handler_of block_ready d = d.on_block_ready

abbrev pub is_over : ℕ → Bool
is_over st = st == error_state || st == done_state

-- `socksv5_read`, `socksv5_write` and `socksv5_block`.
unfoldable pub socksv5_event :
    Event → StateMachine World → World → Option (StateMachine World × World)
socksv5_event ev stm w = do
  (st, stm', w') ← stm_handler (handler_of ev) stm w
  if is_over st then (do w'' ← socksv5_done w'; some (stm', w'')) else some (stm', w')
