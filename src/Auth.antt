-- ===== src/Auth.antt =====
-- src/server/auth.c and src/include/auth.h: the parser of the username and password request, and
-- the reply. The arrays of `struct auth` are lists of 255 bytes.
pub mod Credentials
pub mod Reply
pub mod Bounds
use socks_v5_proxy.Prelude.{
  ltb, leb, ◌==◌, if◌then◌else◌, set, replicate, u8, ℤ, pos, negsuc, ◌>>=◌, ℕ, ◌+◌, Bool, Option,
  some, List, [], ◌∷◌,
}
use socks_v5_proxy.Buffer.{Buffer, buffer_write_ptr, buffer_writes}
use socks_v5_proxy.Consume.{Consumed, consume}

pub data AuthState : Type 0 where
  auth_version auth_ulen auth_uname auth_plen auth_passwd auth_done : AuthState
  auth_error auth_error_unsupported_version auth_error_invalid : AuthState

-- The values that C gives the enumerators, by which `auth_is_done` compares them.
abbrev pub auth_state_value : AuthState → ℕ
auth_state_value auth_version = 0
auth_state_value auth_ulen = 1
auth_state_value auth_uname = 2
auth_state_value auth_plen = 3
auth_state_value auth_passwd = 4
auth_state_value auth_done = 5
auth_state_value auth_error = 6
auth_state_value auth_error_unsupported_version = 7
auth_state_value auth_error_invalid = 8

abbrev pub auth_status_succeeded : ℕ
auth_status_succeeded = 0x00

abbrev pub auth_status_failure : ℕ
auth_status_failure = 0x01

pub record AuthParser : Type 0 where
  pub uname : List ℕ
  pub passwd : List ℕ
  pub state : AuthState
  pub len : ℕ
  pub i : ℕ

abbrev pub remaining_set : AuthParser → ℕ → AuthParser
remaining_set p len = record p { i = 0; len = u8 len }

abbrev pub remaining_is_done : AuthParser → Bool
remaining_is_done p = leb p.len p.i

-- `memset` clears both arrays; `len` and `i` keep what they hold.
unfoldable pub auth_parser_init : AuthParser → AuthParser
auth_parser_init p = record p {
  state = auth_version;
  uname = replicate 255 0;
  passwd = replicate 255 0;
}

version : ℕ → AuthParser → AuthState × AuthParser
version c p = (if c == 0x01 then auth_ulen else auth_error_unsupported_version, p)

ulen : ℕ → AuthParser → AuthState × AuthParser
ulen c p = (auth_uname, remaining_set p c)

uname : ℕ → AuthParser → AuthState × AuthParser
uname c p =
    let p' : AuthParser = record p { uname = set p.uname p.i c; i = u8 (p.i + 1) } in
    (if remaining_is_done p' then auth_plen else auth_uname, p')

plen : ℕ → AuthParser → AuthState × AuthParser
plen c p = (auth_passwd, remaining_set p c)

passwd : ℕ → AuthParser → AuthState × AuthParser
passwd c p =
    let p' : AuthParser = record p { passwd = set p.passwd p.i c; i = u8 (p.i + 1) } in
    (if remaining_is_done p' then auth_done else auth_passwd, p')

-- The `switch` on `p->state`; the last clause is `default`.
auth_dispatch : AuthState → ℕ → AuthParser → AuthState × AuthParser
unfolding version ulen uname plen passwd
auth_dispatch auth_version c p = version c p
auth_dispatch auth_ulen c p = ulen c p
auth_dispatch auth_uname c p = uname c p
auth_dispatch auth_plen c p = plen c p
auth_dispatch auth_passwd c p = passwd c p
auth_dispatch auth_done c p = (p.state, p)
auth_dispatch auth_error c p = (p.state, p)
auth_dispatch auth_error_unsupported_version c p = (p.state, p)
auth_dispatch auth_error_invalid c p = (auth_error, p)

unfoldable pub auth_parser_feed : AuthParser → ℕ → AuthParser
unfolding auth_dispatch
auth_parser_feed p c = let (next, p') = auth_dispatch p.state c p in record p' { state = next }

unfoldable pub auth_is_done : AuthState → Bool
auth_is_done st = leb (auth_state_value auth_done) (auth_state_value st)

unfoldable pub auth_is_error : AuthState → Bool
auth_is_error st = leb (auth_state_value auth_error) (auth_state_value st)

unfoldable pub auth_consume : Buffer → AuthParser → Bool → Option (Consumed AuthParser)
auth_consume = consume auth_parser_feed (λ p. p.state) auth_is_done auth_is_error

unfoldable pub auth_marshall : Buffer → ℕ → Option (ℤ × Buffer)
auth_marshall b status = do
  (ptr, n) ← buffer_write_ptr b
  if ltb n 2
      then some (negsuc 0, b)
      else (do b' ← buffer_writes b (0x01 ∷ status ∷ []); some (pos 2, b'))
