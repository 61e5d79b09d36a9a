-- ===== src/Session/Refinement.antt =====
-- src/server/socks5nio.c: every event of a connection is a step of the automaton of phases.

use socks_v5_proxy.Session.Connecting.{request_connecting, request_write}
use socks_v5_proxy.Session.Requesting.{request_read, request_resolv_done}
use socks_v5_proxy.Session.Copying.{copy_r, copy_w}
use socks_v5_proxy.Prelude.{
  ◌>>=◌, >>=-eq-some, ℕ, zero, suc, ◌<◌, ◌≡◌, ap, ◌∙◌, ◌≢◌, inl, inr, Option, some, arith,
}
use socks_v5_proxy.Stm.{StateMachine, handle_first, jump, stm_handler}
use socks_v5_proxy.Session.{World, Handler}
use socks_v5_proxy.Session.Greeting.{hello_read, hello_write, auth_read, auth_write}
use socks_v5_proxy.Session.Table.{machine, Event, read_ready, write_ready, block_ready, handler_of}
use socks_v5_proxy.Session.Returns.{copy_r-ret, copy_w-ret}
use socks_v5_proxy.Session.Phase.{IsPending, Stepped}
use socks_v5_proxy.Session.Moves.{
  hello_read-Stepped, hello_write-Stepped, auth_read-Stepped, auth_write-Stepped,
  request_read-Stepped, request_resolv_done-Stepped, request_connecting-Stepped,
  request_write-Stepped, copy-Stepped,
}

-- The last two parts of `stm_handler`.
abbrev move : ℕ → ℕ × World → Option (ℕ × StateMachine World × World)
move c (ret, k) = do (stm', k') ← jump (machine (some c)) ret k; some (ret, stm', k')

-- An event that the state has a handler for is a run of the handler and then the jump.
handled :
    (f : Handler) (c : ℕ) (w w' : World) (ret : ℕ) (stm' : StateMachine World)
    → (f w >>= move c) ≡ some (ret, stm', w')
    → (w1 : World) × (f w ≡ some (ret, w1)) × (jump (machine (some c)) ret w1 ≡ some (stm', w'))
handled f c w w' ret stm' h =
    let ((r, k), a, g) = >>=-eq-some (f w) (move c) h in
    let ((s, v), b, l) = >>=-eq-some (jump (machine (some c)) r k) _ g in
    let same : r ≡ ret = ground arith in
    let there : ◌≡◌ {A = StateMachine World × World} (s, v) (stm', w') = ground arith in
    (k, rw (← same) a, rw (← same) (b ∙ ap some there))

pending_status : (c : ℕ) (w : World) → 3 < c → c < 7 → IsPending c w → w.conn.response_status ≢ 0
pending_status c w l u p = elim p [
  | inl (inl a) ↦ absurd (omega arith)
  | inl (inr b) ↦ absurd (omega arith)
  | inr n ↦ n
]

-- Every event that the machine handles, at a connection whose pending request has no success
-- recorded, is a step of the automaton between the phases before and after it; the machine is at the
-- state that the handler returned, and still no success is recorded for a pending request. `connect`
-- never fails with an `errno` of 0.
pub event-Stepped :
    (ev : Event) (c : ℕ) (w w' : World) (ret : ℕ) (stm' : StateMachine World)
    → w.os.connect_errno ≢ some 0
    → IsPending c w
    → stm_handler (handler_of ev) (machine (some c)) w ≡ some (ret, stm', w')
    → Stepped c w ret stm' w'
unfolding stm_handler handle_first
event-Stepped read_ready zero w w' ret stm' e p h =
    let (w1, f, j) = handled hello_read 0 w w' ret stm' h in hello_read-Stepped w w1 w' ret stm' f j
event-Stepped write_ready zero w w' ret stm' e p h = cc
event-Stepped block_ready zero w w' ret stm' e p h = cc
event-Stepped read_ready (suc zero) w w' ret stm' e p h = cc
event-Stepped write_ready (suc zero) w w' ret stm' e p h =
    let (w1, f, j) = handled hello_write 1 w w' ret stm' h in
    hello_write-Stepped w w1 w' ret stm' f j
event-Stepped block_ready (suc zero) w w' ret stm' e p h = cc
event-Stepped read_ready (suc (suc zero)) w w' ret stm' e p h =
    let (w1, f, j) = handled auth_read 2 w w' ret stm' h in auth_read-Stepped w w1 w' ret stm' f j
event-Stepped write_ready (suc (suc zero)) w w' ret stm' e p h = cc
event-Stepped block_ready (suc (suc zero)) w w' ret stm' e p h = cc
event-Stepped read_ready (suc (suc (suc zero))) w w' ret stm' e p h = cc
event-Stepped write_ready (suc (suc (suc zero))) w w' ret stm' e p h =
    let (w1, f, j) = handled auth_write 3 w w' ret stm' h in auth_write-Stepped w w1 w' ret stm' f j
event-Stepped block_ready (suc (suc (suc zero))) w w' ret stm' e p h = cc
event-Stepped read_ready (suc (suc (suc (suc zero)))) w w' ret stm' e p h =
    let (w1, f, j) = handled request_read 4 w w' ret stm' h in
    request_read-Stepped w w1 w' ret stm' (pending_status 4 w (omega arith) (omega arith) p) e f j
event-Stepped write_ready (suc (suc (suc (suc zero)))) w w' ret stm' e p h = cc
event-Stepped block_ready (suc (suc (suc (suc zero)))) w w' ret stm' e p h = cc
event-Stepped read_ready (suc (suc (suc (suc (suc zero))))) w w' ret stm' e p h = cc
event-Stepped write_ready (suc (suc (suc (suc (suc zero))))) w w' ret stm' e p h = cc
event-Stepped block_ready (suc (suc (suc (suc (suc zero))))) w w' ret stm' e p h =
    let (w1, f, j) = handled request_resolv_done 5 w w' ret stm' h in
    request_resolv_done-Stepped w w1 w' ret stm' (pending_status 5 w (omega arith) (omega arith) p)
      e f j
event-Stepped read_ready (suc (suc (suc (suc (suc (suc zero)))))) w w' ret stm' e p h = cc
event-Stepped write_ready (suc (suc (suc (suc (suc (suc zero)))))) w w' ret stm' e p h =
    let (w1, f, j) = handled request_connecting 6 w w' ret stm' h in
    request_connecting-Stepped w w1 w' ret stm' (pending_status 6 w (omega arith) (omega arith) p) e
      f j
event-Stepped block_ready (suc (suc (suc (suc (suc (suc zero)))))) w w' ret stm' e p h = cc
event-Stepped read_ready (suc (suc (suc (suc (suc (suc (suc zero))))))) w w' ret stm' e p h = cc
event-Stepped write_ready (suc (suc (suc (suc (suc (suc (suc zero))))))) w w' ret stm' e p h =
    let (w1, f, j) = handled request_write 7 w w' ret stm' h in
    request_write-Stepped w w1 w' ret stm' f j
event-Stepped block_ready (suc (suc (suc (suc (suc (suc (suc zero))))))) w w' ret stm' e p h = cc
event-Stepped read_ready (suc (suc (suc (suc (suc (suc (suc (suc zero)))))))) w w' ret stm' e p h =
    let (w1, f, j) = handled copy_r 8 w w' ret stm' h in
    copy-Stepped w w1 w' ret stm' (copy_r-ret w w1 ret f) j
event-Stepped write_ready (suc (suc (suc (suc (suc (suc (suc (suc zero)))))))) w w' ret stm' e p h =
    let (w1, f, j) = handled copy_w 8 w w' ret stm' h in
    copy-Stepped w w1 w' ret stm' (copy_w-ret w w1 ret f) j
event-Stepped block_ready (suc (suc (suc (suc (suc (suc (suc (suc zero)))))))) w w' ret stm' e p h =
    cc
event-Stepped read_ready (suc (suc (suc (suc (suc (suc (suc (suc (suc zero))))))))) w w' ret stm' e
      p h =
    cc
event-Stepped write_ready (suc (suc (suc (suc (suc (suc (suc (suc (suc zero))))))))) w w' ret stm' e
      p h =
    cc
event-Stepped block_ready (suc (suc (suc (suc (suc (suc (suc (suc (suc zero))))))))) w w' ret stm' e
      p h =
    cc
event-Stepped read_ready (suc (suc (suc (suc (suc (suc (suc (suc (suc (suc zero)))))))))) w w' ret
      stm' e p h =
    cc
event-Stepped write_ready (suc (suc (suc (suc (suc (suc (suc (suc (suc (suc zero)))))))))) w w' ret
      stm' e p h =
    cc
event-Stepped block_ready (suc (suc (suc (suc (suc (suc (suc (suc (suc (suc zero)))))))))) w w' ret
      stm' e p h =
    cc
event-Stepped ev (suc (suc (suc (suc (suc (suc (suc (suc (suc (suc (suc c))))))))))) w w' ret stm' e
      p h =
    cc
