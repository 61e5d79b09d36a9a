-- ===== src/Session/Phase.antt =====
-- src/server/socks5nio.c: the phase of a connection, and what it is for an event to be a step.

use socks_v5_proxy.Prelude.{◌==◌, if◌then◌else◌, ℕ, ◌<◌, ◌≡◌, ◌≢◌, ◌⊎◌, Bool, false, none, some}
use socks_v5_proxy.Stm.{StateMachine}
use socks_v5_proxy.Session.{
  hello_read_state, hello_write_state, auth_read_state, auth_write_state, request_read_state,
  request_resolv_state, request_connecting_state, request_write_state, copy_state, done_state, Os,
  World,
}
use socks_v5_proxy.Session.Table.{machine}
use socks_v5_proxy.Session.Phases.{
  Phase, greeting, answering_greeting, credentials, requesting, resolving, connecting, copying,
  finished, failed, answering_credentials, answering_request, Step,
}

-- The phase of a connection, from its state and the answer that it is sending.
abbrev pub phase_of : ℕ → World → Phase
phase_of st w =
    if st == hello_read_state
    then greeting
    else if st == hello_write_state
    then answering_greeting
    else if st == auth_read_state
    then credentials
    else if st == auth_write_state
    then answering_credentials (w.conn.auth_status == 0)
    else if st == request_read_state
    then requesting
    else if st == request_resolv_state
    then resolving
    else if st == request_connecting_state
    then connecting
    else if st == request_write_state
    then answering_request (w.conn.response_status == 0)
    else if st == copy_state
    then copying
    else if st == done_state
    then finished
    else failed

abbrev pub is_linked : Os → Bool
is_linked os = elim (os.socket_error) [ none ↦ false | some e ↦ e == 0 ]

-- While a request is read or met, no success is recorded.
abbrev pub IsPending : ℕ → World → Type 0
IsPending st w = ((st < 4) ⊎ (6 < st)) ⊎ (w.conn.response_status ≢ 0)

-- Where an event leads.
abbrev pub Stepped : ℕ → World → ℕ → StateMachine World → World → Type 0
Stepped st w ret stm' w' =
    (stm' ≡ machine (some ret))
    × Step w.is_auth_on (is_linked w.os) (phase_of st w) (phase_of ret w')
    × IsPending ret w'
