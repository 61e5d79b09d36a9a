-- ===== src/Session.antt =====
-- src/server/socks5nio.c: a connection of the proxy (`struct socks5`), the globals that its handlers
-- reach, and the answers of the operating system to the calls that one event makes.
-- The members of the two unions are fields of their own: the handlers of a state read only what the
-- arrival at it, or the states before it in the same union member, have written.
pub mod Greeting
pub mod Lifetime
pub mod Requesting
pub mod Connecting
pub mod Copying
pub mod Table
pub mod Phases
pub mod Returns
pub mod Attempts
pub mod Reports
pub mod Retries
pub mod Phase
pub mod Moves
pub mod Refinement
pub mod Runs
pub mod Streams
pub mod Relay
pub mod Relayed
pub mod Closing
pub mod Progress
pub mod Login
pub mod Served
pub mod Greeted
pub mod Drained
pub mod Dialogue
pub mod Asked
pub mod Release
pub mod Accept
pub mod Settling
pub mod Logging
pub mod Pool
use socks_v5_proxy.Prelude.{
  ◌==◌, if◌then◌else◌, length, take, window, ℤ, pos, ◌>>=◌, ℕ, min, Bool, true, false, Option, none,
  some, List,
}
use socks_v5_proxy.Buffer.{
  Buffer, buffer_write_ptr, buffer_read_ptr, buffer_write_adv, buffer_read_adv, buffer_fill,
}
use socks_v5_proxy.Hello.{HelloParser}
use socks_v5_proxy.Auth.{AuthParser}
use socks_v5_proxy.Request.{Family, RequestParser}
use socks_v5_proxy.Request.Reply.{Errno}
use socks_v5_proxy.Disector.{DisectorParser}
use socks_v5_proxy.Selector.{
  SelectorStatus, selector_success, FdInterest, FdSelector, selector_set_interest,
}
use socks_v5_proxy.Admins.Process.{Server}

-- `enum socks_v5state`
abbrev pub hello_read_state : ℕ
hello_read_state = 0

abbrev pub hello_write_state : ℕ
hello_write_state = 1

abbrev pub auth_read_state : ℕ
auth_read_state = 2

abbrev pub auth_write_state : ℕ
auth_write_state = 3

abbrev pub request_read_state : ℕ
request_read_state = 4

abbrev pub request_resolv_state : ℕ
request_resolv_state = 5

abbrev pub request_connecting_state : ℕ
request_connecting_state = 6

abbrev pub request_write_state : ℕ
request_write_state = 7

abbrev pub copy_state : ℕ
copy_state = 8

abbrev pub done_state : ℕ
done_state = 9

abbrev pub error_state : ℕ
error_state = 10

-- A socket address, as far as the proxy looks at it.
pub record Address : Type 0 where
  pub domain : Family
  pub host : List ℕ
  pub port : List ℕ

-- What happens to the block of memory of a connection.
pub data Life : Type 0 where
  in_use pooled freed : Life

-- `struct socks5`. A list of addresses stands for a chain of `struct addrinfo`, `[]` for NULL, and
-- `origin_resolution_current` is the rest of the chain from the current one on. `client_uname` is the
-- index of an entry of `users`.
pub record Socks5 : Type 0 where
  pub client_fd : ℕ
  pub client_uname : Option ℕ
  pub origin_resolution : List Address
  pub origin_resolution_current : List Address
  pub origin_fd : ℤ
  pub origin_addr : Option Address
  pub hello : HelloParser
  pub auth : AuthParser
  pub auth_status : ℕ
  pub request : RequestParser
  pub response_status : ℕ
  pub client_duplex : FdInterest
  pub origin_duplex : FdInterest
  pub dp : DisectorParser
  pub read_buffer : Buffer
  pub write_buffer : Buffer
  pub references : ℕ
  pub life : Life

-- What the operating system answers to the calls of one event. `received` is what `recv` finds, `[]`
-- at the end of the stream or on an error; `none` is -1 of `send`, `socket` and `getsockopt`, and a
-- `connect` that returns 0.
pub record Os : Type 0 where
  pub received : List ℕ
  pub sent : Option ℕ
  pub new_fd : Option ℕ
  pub set_nio : Bool
  pub connect_errno : Option ℕ
  pub socket_error : Option ℕ
  pub key_memory : Bool
  pub thread : Bool
  pub table_memory : Bool

-- What a handler reaches through its key: `fd` is `key->fd`. The handlers of the table have the
-- number of the connection for their attachment, and `closed` are the descriptors that `close` was
-- called on, the last one first. `errno` has the values of the platform.
pub record World : Type 0 where
  pub fd : ℕ
  pub os : Os
  pub errno : Errno
  pub einprogress : ℕ
  pub server : Server
  pub is_auth_on : Bool
  pub selector : FdSelector ℕ ℕ
  pub number : ℕ
  pub conn : Socks5
  pub pool_size : ℕ
  pub closed : List ℕ

abbrev pub op_read_only : FdInterest
op_read_only = record { op_read = true; op_write = false }

abbrev pub op_write_only : FdInterest
op_write_only = record { op_read = false; op_write = true }

abbrev pub op_both : FdInterest
op_both = record { op_read = true; op_write = true }

-- `SELECTOR_SUCCESS == st`
abbrev pub is_success : SelectorStatus → Bool
is_success selector_success = true
is_success _ = false

-- A handler of an event, and a hook of a state.
abbrev pub Handler : Type 0
Handler = World → Option (ℕ × World)

-- `selector_set_interest`, and `selector_set_interest_key` at the key's own descriptor.
unfoldable pub set_interest : World → ℤ → FdInterest → Option (SelectorStatus × World)
set_interest w fd interest = do
  (st, s) ← selector_set_interest w.selector fd interest
  some (st, record w { selector = s })

-- `recv` into the room of a buffer: `none` is an abort, `some none` a result of 0 or -1. No more is
-- received than there is room for.
unfoldable pub receive : Os → Buffer → Option (Option Buffer)
receive os b = do
  (ptr, count) ← buffer_write_ptr b
  let bytes : List ℕ = take count os.received
  if length bytes == 0
      then some none
      else (do b' ← buffer_write_adv (buffer_fill b bytes) (pos (length bytes)); some (some b'))

-- `send` from a buffer: `some none` is -1. No more is sent than there is; the bytes that were sent
-- come with the buffer.
unfoldable pub transmit : Os → Buffer → Option (Option (List ℕ × Buffer))
transmit os b = do
  (ptr, count) ← buffer_read_ptr b
  elim (os.sent) [
    | none ↦ some none
    | some k ↦ (do
      let n : ℕ = min k count
      b' ← buffer_read_adv b (pos n)
      some (some (window ptr n b.bytes, b')))
  ]
