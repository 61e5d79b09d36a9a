-- ===== src/Session/Login.antt =====
-- src/server/socks5nio.c: the state AUTH_READ against the accounts.

use socks_v5_proxy.Prelude.{◌==◌, All, c_string, ℕ, ◌≡◌, refl, ◌∙◌, Option, none, some, arith}
use socks_v5_proxy.Auth.{auth_status_succeeded}
use socks_v5_proxy.Users.{active, find_login}
use socks_v5_proxy.Users.Accounts.{accounts, IsTerminated}
use socks_v5_proxy.Users.Login.{has_account, is_some, find_login-has_account}
use socks_v5_proxy.Session.{auth_write_state, World, set_interest}
use socks_v5_proxy.Session.Greeting.{login_status, auth_process, auth_read}

-- The status of what the table gives, and what `auth_process` records.
login_status-zero : (found : Option ℕ) → (login_status found == 0) ≡ is_some found
login_status-zero none = refl
login_status-zero (some i) = refl

auth_read-recorded :
    (w w' : World)
    → auth_read w ≡ some (auth_write_state, w')
    → w'.conn.auth_status
      ≡ login_status
          (find_login w'.conn.auth.uname w'.conn.auth.passwd (active w.server.registry) 0)
unfolding auth_read auth_process set_interest
auth_read-recorded w w' h = ground arith

-- Where the names of the table are terminated, the answer to the credentials is a success exactly if
-- some account has the name and the password that the parser has stored.
auth_read-has_account :
    (w w' : World)
    → All IsTerminated (active w.server.registry)
    → auth_read w ≡ some (auth_write_state, w')
    → (w'.conn.auth_status == auth_status_succeeded)
      ≡ has_account
          (c_string w'.conn.auth.uname)
          (c_string w'.conn.auth.passwd)
          (accounts w.server.registry)
auth_read-has_account w w' t h =
    let a = w'.conn.auth in
    rw (auth_read-recorded w w' h) (
      login_status-zero (find_login a.uname a.passwd (active w.server.registry) 0)
      ∙ find_login-has_account a.uname a.passwd (active w.server.registry) 0 t)
