-- ===== src/Session/Returns.antt =====
-- src/server/socks5nio.c: the states that the handlers return.

use socks_v5_proxy.Prelude.{ℕ, ◌≡◌, ◌⊎◌, true, false, some, arith}
use socks_v5_proxy.Session.{World, set_interest}
use socks_v5_proxy.Session.Greeting.{
  hello_process, hello_read, hello_write, auth_process, auth_read, auth_write,
}
use socks_v5_proxy.Session.Connecting.{request_written, request_write}
use socks_v5_proxy.Session.Copying.{End, copy_end, copy_from, copy_r, copy_to, copy_w}

pub hello_process-ret :
    (w w' : World) (ret : ℕ) → hello_process w ≡ some (ret, w') → (ret ≡ 1) ⊎ (ret ≡ 10)
unfolding hello_process
hello_process-ret w w' ret h = ground arith

pub hello_read-ret :
    (w w' : World) (ret : ℕ) → hello_read w ≡ some (ret, w') → (ret ≡ 0) ⊎ ((ret ≡ 1) ⊎ (ret ≡ 10))
unfolding hello_read hello_process
hello_read-ret w w' ret h = ground arith

pub hello_write-ret :
    (w w' : World) (ret : ℕ)
    → hello_write w ≡ some (ret, w')
    → (ret ≡ 1)
      ⊎ (((ret ≡ 2) × (w.is_auth_on ≡ true)) ⊎ (((ret ≡ 4) × (w.is_auth_on ≡ false)) ⊎ (ret ≡ 10)))
unfolding hello_write set_interest
hello_write-ret w w' ret h = ground arith

pub auth_read-ret :
    (w w' : World) (ret : ℕ) → auth_read w ≡ some (ret, w') → (ret ≡ 2) ⊎ ((ret ≡ 3) ⊎ (ret ≡ 10))
unfolding auth_read auth_process
auth_read-ret w w' ret h = ground arith

pub auth_write-ret :
    (w w' : World) (ret : ℕ)
    → auth_write w ≡ some (ret, w')
    → ((ret ≡ 3) × (w'.conn.auth_status ≡ w.conn.auth_status))
      ⊎ (((ret ≡ 4) × (w.conn.auth_status ≡ 0)) ⊎ (ret ≡ 10))
unfolding auth_write
auth_write-ret w w' ret h = ground arith

pub request_written-ret :
    (w w' : World) (ret : ℕ)
    → request_written w ≡ some (ret, w')
    → ((ret ≡ 8) × (w.conn.response_status ≡ 0)) ⊎ (ret ≡ 10)
unfolding request_written
request_written-ret w w' ret h = ground arith

pub request_write-ret :
    (w w' : World) (ret : ℕ)
    → request_write w ≡ some (ret, w')
    → ((ret ≡ 7) × (w'.conn.response_status ≡ w.conn.response_status))
      ⊎ (((ret ≡ 8) × (w.conn.response_status ≡ 0)) ⊎ (ret ≡ 10))
unfolding request_write request_written
request_write-ret w w' ret h = ground arith

pub copy_end-ret :
    (e : End) (w w' : World) (ret : ℕ) → copy_end e w ≡ some (ret, w') → (ret ≡ 8) ⊎ (ret ≡ 9)
unfolding copy_end
copy_end-ret e w w' ret h = ground arith

pub copy_r-ret : (w w' : World) (ret : ℕ) → copy_r w ≡ some (ret, w') → (ret ≡ 8) ⊎ (ret ≡ 9)
unfolding copy_r copy_from
copy_r-ret w w' ret h = grind (arith, copy_end-ret)

pub copy_w-ret : (w w' : World) (ret : ℕ) → copy_w w ≡ some (ret, w') → (ret ≡ 8) ⊎ (ret ≡ 9)
unfolding copy_w copy_to
copy_w-ret w w' ret h = grind (arith, copy_end-ret)
