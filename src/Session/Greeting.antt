-- ===== src/Session/Greeting.antt =====
-- src/server/socks5nio.c: the states HELLO_READ, HELLO_WRITE, AUTH_READ and AUTH_WRITE.
use socks_v5_proxy.Prelude.{◌==◌, if◌then◌else◌, pos, negsuc, ◌>>=◌, ℕ, false, Option, none, some}
use socks_v5_proxy.Buffer.{buffer_can_read}
use socks_v5_proxy.Hello.{
  HelloParser, no_acceptable_methods, hello_parser_init, hello_is_done, hello_consume,
  hello_marshall, on_hello_method,
}
use socks_v5_proxy.Auth.{
  auth_status_succeeded, auth_status_failure, auth_parser_init, auth_is_done, auth_consume,
  auth_marshall,
}
use socks_v5_proxy.Users.{active, find_login}
use socks_v5_proxy.Selector.{op_noop}
use socks_v5_proxy.Session.{
  hello_read_state, hello_write_state, auth_read_state, auth_write_state, request_read_state,
  error_state, World, op_read_only, op_write_only, is_success, Handler, set_interest, receive,
  transmit,
}

unfoldable pub hello_read_init : ℕ → World → Option World
hello_read_init state w = some (record w {
  conn = record (w.conn) {
    hello = hello_parser_init (record (w.conn.hello) {
      on_authentication_method = some (on_hello_method w.is_auth_on);
      selected = no_acceptable_methods;
    });
  };
  is_auth_on = if w.server.registry.registered_users == 0 then false else w.is_auth_on;
})

unfoldable pub hello_process : Handler
hello_process w = do
  (n, b) ← hello_marshall w.conn.write_buffer w.conn.hello.selected
  let w' = record w { conn = record (w.conn) { write_buffer = b } }
  elim n [ pos k ↦ some (hello_write_state, w') | negsuc k ↦ some (error_state, w') ]

-- The callback reads `is_auth_on` as it is when the byte is parsed.
abbrev pub with_callback : World → HelloParser
with_callback w = record (w.conn.hello) {
  on_authentication_method = some (on_hello_method w.is_auth_on);
}

unfoldable pub hello_read : Handler
unfolding hello_process
hello_read w = do
  r ← receive w.os w.conn.read_buffer
  elim r [
    | none ↦ some (error_state, w)
    | some b ↦ (do
      c ← hello_consume b (with_callback w) false
      let w1 = record w { conn = record (w.conn) { read_buffer = c.buffer; hello = c.parser } }
      (ret, w2) ←
          (if hello_is_done c.parser.state
            then (do
              (st, w') ← set_interest w1 (pos w1.fd) op_write_only
              if is_success st then hello_process w' else some (error_state, w'))
            else some (hello_read_state, w1))
      some ((if c.errored then error_state else ret), w2))
  ]

unfoldable pub hello_write : Handler
hello_write w = do
  r ← transmit w.os w.conn.write_buffer
  elim r [
    | none ↦ some (error_state, w)
    | some (bytes, b) ↦ (do
      let w1 = record w { conn = record (w.conn) { write_buffer = b } }
      if buffer_can_read b then some (hello_write_state, w1) else (do
        (st, w2) ← set_interest w1 (pos w1.fd) op_read_only
        some (
          (if is_success st
              then (if w2.is_auth_on then auth_read_state else request_read_state)
              else error_state),
          w2,
        )))
  ]

unfoldable pub auth_init : ℕ → World → Option World
auth_init state w = some (record w {
  conn = record (w.conn) { auth = auth_parser_init w.conn.auth; auth_status = auth_status_failure };
})

-- What `auth_process` finds among the users.
abbrev pub login_of : World → Option ℕ
login_of w = find_login w.conn.auth.uname w.conn.auth.passwd (active w.server.registry) 0

abbrev pub login_status : Option ℕ → ℕ
login_status none = auth_status_failure
login_status (some i) = auth_status_succeeded

abbrev pub uname_after : Option ℕ → Option ℕ → Option ℕ
uname_after old none = old
uname_after old (some i) = some i

unfoldable pub auth_process : Handler
auth_process w = do
  let found : Option ℕ = login_of w
  (n, b) ← auth_marshall w.conn.write_buffer (login_status found)
  elim n [
    | negsuc k ↦ none
    | pos k ↦ some (
      auth_write_state,
      record w {
        conn = record (w.conn) {
          write_buffer = b;
          auth_status = login_status found;
          client_uname = uname_after w.conn.client_uname found;
        };
      },
    )
  ]

unfoldable pub auth_read : Handler
unfolding auth_process
auth_read w = do
  r ← receive w.os w.conn.read_buffer
  elim r [
    | none ↦ some (error_state, w)
    | some b ↦ (do
      c ← auth_consume b w.conn.auth false
      let w1 = record w { conn = record (w.conn) { read_buffer = c.buffer; auth = c.parser } }
      (ret, w2) ←
          (if auth_is_done c.parser.state
            then (do
              (st, w') ← set_interest w1 (pos w1.fd) op_write_only
              if is_success st then auth_process w' else some (error_state, w'))
            else some (auth_read_state, w1))
      some ((if c.errored then error_state else ret), w2))
  ]

unfoldable pub auth_write : Handler
auth_write w = do
  r ← transmit w.os w.conn.write_buffer
  elim r [
    | none ↦ some (error_state, w)
    | some (bytes, b) ↦ (do
      let w1 = record w { conn = record (w.conn) { write_buffer = b } }
      if buffer_can_read b
          then some (auth_write_state, w1)
          else if w1.conn.auth_status == auth_status_succeeded
          then (do
            (st, w2) ← set_interest w1 (pos w1.fd) op_read_only
            some ((if is_success st then request_read_state else error_state), w2))
          else (do (st, w2) ← set_interest w1 (pos w1.fd) op_noop; some (error_state, w2)))
  ]
