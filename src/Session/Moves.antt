-- ===== src/Session/Moves.antt =====
-- src/server/socks5nio.c: each handler, with the change of state behind it, is a step.
use socks_v5_proxy.Session.Connecting.{request_connecting_init, request_connecting, request_write}
use socks_v5_proxy.Session.Reports.{request_connecting-ret}
use socks_v5_proxy.Session.Requesting.{request_init, request_read, request_resolv_done}
use socks_v5_proxy.Session.Copying.{copy_init}
use socks_v5_proxy.Session.Attempts.{request_read-ret, request_resolv_done-ret}
use socks_v5_proxy.Prelude.{
  ◌==◌, ℕ, ◌≡◌, refl, ap, subst, ◌≢◌, ◌⊎◌, inl, inr, Bool, true, false, some, arith,
}
use socks_v5_proxy.Stm.{StateMachine, run_hook, jump}
use socks_v5_proxy.Session.{World}
use socks_v5_proxy.Session.Greeting.{hello_read, hello_write, auth_init, auth_read, auth_write}
use socks_v5_proxy.Session.Table.{machine}
use socks_v5_proxy.Session.Phases.{
  Phase, greeting, answering_greeting, credentials, requesting, resolving, connecting, copying,
  answering_credentials, answering_request, Step, stay, fail, greeted, ask, skip, check, accept,
  resolve, connect, connect_resolved, refuse, refuse_resolved, report, report_failure, relay, end,
}
use socks_v5_proxy.Session.Returns.{
  hello_read-ret, hello_write-ret, auth_read-ret, auth_write-ret, request_write-ret,
}
use socks_v5_proxy.Session.Phase.{is_linked, Stepped}

pub hello_read-Stepped :
    (w w1 w' : World) (ret : ℕ) (stm' : StateMachine World)
    → hello_read w ≡ some (ret, w1)
    → jump (machine (some 0)) ret w1 ≡ some (stm', w')
    → Stepped 0 w ret stm' w'
unfolding jump run_hook
hello_read-Stepped w w1 w' ret stm' h j = elim (hello_read-ret w w1 ret h) [
  | inl e ↦ let k = rw e at j in rw e (ground arith, stay greeting, inl (inl (omega arith)))
  | inr (inl e) ↦ let k = rw e at j in rw e (ground arith, greeted, inl (inl (omega arith)))
  | inr (inr e) ↦ let k = rw e at j in rw e (ground arith, fail greeting, inl (inr (omega arith)))
]

stay_at : {on linked : Bool} {p q : Phase} → p ≡ q → Step on linked p q
stay_at {on} {linked} {p} e = subst (λ q. Step on linked p q) e (stay p)

pub hello_write-Stepped :
    (w w1 w' : World) (ret : ℕ) (stm' : StateMachine World)
    → hello_write w ≡ some (ret, w1)
    → jump (machine (some 1)) ret w1 ≡ some (stm', w')
    → Stepped 1 w ret stm' w'
unfolding jump run_hook auth_init request_init
hello_write-Stepped w w1 w' ret stm' h j = elim (hello_write-ret w w1 ret h) [
  | inl e ↦
      let k = rw e at j in rw e (ground arith, stay answering_greeting, inl (inl (omega arith)))
  | inr (inl (e, on)) ↦ let k = rw e at j in rw e (ground arith, ask on, inl (inl (omega arith)))
  | inr (inr (inl (e, off))) ↦
      let k = rw e at j in rw e (ground arith, skip off, inr (λ q. ground arith))
  | inr (inr (inr e)) ↦
      let k = rw e at j in rw e (ground arith, fail answering_greeting, inl (inr (omega arith)))
]

pub auth_read-Stepped :
    (w w1 w' : World) (ret : ℕ) (stm' : StateMachine World)
    → auth_read w ≡ some (ret, w1)
    → jump (machine (some 2)) ret w1 ≡ some (stm', w')
    → Stepped 2 w ret stm' w'
unfolding jump run_hook
auth_read-Stepped w w1 w' ret stm' h j = elim (auth_read-ret w w1 ret h) [
  | inl e ↦ let k = rw e at j in rw e (ground arith, stay credentials, inl (inl (omega arith)))
  | inr (inl e) ↦
      let k = rw e at j in
      rw e (ground arith, check (w'.conn.auth_status == 0), inl (inl (omega arith)))
  | inr (inr e) ↦
      let k = rw e at j in rw e (ground arith, fail credentials, inl (inr (omega arith)))
]

pub auth_write-Stepped :
    (w w1 w' : World) (ret : ℕ) (stm' : StateMachine World)
    → auth_write w ≡ some (ret, w1)
    → jump (machine (some 3)) ret w1 ≡ some (stm', w')
    → Stepped 3 w ret stm' w'
unfolding jump run_hook request_init
auth_write-Stepped w w1 w' ret stm' h j = elim (auth_write-ret w w1 ret h) [
  | inl (e, same) ↦
      let k = rw e at j in
      let kept : w.conn.auth_status ≡ w'.conn.auth_status = ground arith in
      rw e (
        ground arith,
        stay_at (ap (λ n. answering_credentials (n == 0)) kept),
        inl (inl (omega arith)),
      )
  | inr (inl (e, ok)) ↦
      let k = rw e at j in rw (e, ok) (ground arith, accept, inr (λ q. ground arith))
  | inr (inr e) ↦ let k = rw e at j in rw e (ground arith, fail _, inl (inr (omega arith)))
]

pub request_read-Stepped :
    (w w1 w' : World) (ret : ℕ) (stm' : StateMachine World)
    → w.conn.response_status ≢ 0
    → w.os.connect_errno ≢ some 0
    → request_read w ≡ some (ret, w1)
    → jump (machine (some 4)) ret w1 ≡ some (stm', w')
    → Stepped 4 w ret stm' w'
unfolding jump run_hook request_connecting_init
request_read-Stepped w w1 w' ret stm' n c h j = elim (request_read-ret w w1 ret n c h) [
  | inl (e, m) ↦ let k = rw e at j in rw e (ground arith, stay requesting, inr (λ q. ground arith))
  | inr (inl (e, m)) ↦ let k = rw e at j in rw e (ground arith, resolve, inr (λ q. ground arith))
  | inr (inr (inl (e, m))) ↦
      let k = rw e at j in rw e (ground arith, connect, inr (λ q. ground arith))
  | inr (inr (inr (inl e, m))) ↦
      let k = rw e at j in
      let bad : (w'.conn.response_status == 0) ≡ false = ground arith in
      rw (e, bad) (ground arith, refuse, inl (inr (omega arith)))
  | inr (inr (inr (inr e, m))) ↦
      let k = rw e at j in rw e (ground arith, fail requesting, inl (inr (omega arith)))
]

pub request_resolv_done-Stepped :
    (w w1 w' : World) (ret : ℕ) (stm' : StateMachine World)
    → w.conn.response_status ≢ 0
    → w.os.connect_errno ≢ some 0
    → request_resolv_done w ≡ some (ret, w1)
    → jump (machine (some 5)) ret w1 ≡ some (stm', w')
    → Stepped 5 w ret stm' w'
unfolding jump run_hook request_connecting_init
request_resolv_done-Stepped w w1 w' ret stm' n c h j =
    elim (request_resolv_done-ret w w1 ret n c h) [
      | inl (e, m) ↦
          let k = rw e at j in rw e (ground arith, connect_resolved, inr (λ q. ground arith))
      | inr (inl e, m) ↦
          let k = rw e at j in
          let bad : (w'.conn.response_status == 0) ≡ false = ground arith in
          rw (e, bad) (ground arith, refuse_resolved, inl (inr (omega arith)))
      | inr (inr e, m) ↦
          let k = rw e at j in rw e (ground arith, fail resolving, inl (inr (omega arith)))
    ]

pub request_connecting-Stepped :
    (w w1 w' : World) (ret : ℕ) (stm' : StateMachine World)
    → w.conn.response_status ≢ 0
    → w.os.connect_errno ≢ some 0
    → request_connecting w ≡ some (ret, w1)
    → jump (machine (some 6)) ret w1 ≡ some (stm', w')
    → Stepped 6 w ret stm' w'
unfolding jump run_hook request_connecting_init
request_connecting-Stepped w w1 w' ret stm' n c h j = elim (request_connecting-ret w w1 ret n c h) [
  | inl (e, m) ↦ let k = rw e at j in rw e (ground arith, stay connecting, inr (λ q. ground arith))
  | inr (inl (e, inl m)) ↦
      let k = rw e at j in
      let bad : (w'.conn.response_status == 0) ≡ false = ground arith in
      rw (e, bad) (ground arith, report_failure, inl (inr (omega arith)))
  | inr (inl (e, inr (m, l))) ↦
      let k = rw e at j in
      let good : (w'.conn.response_status == 0) ≡ true = ground arith in
      let linked : is_linked w.os ≡ true = rw l refl in
      rw (e, good) (ground arith, report linked, inl (inr (omega arith)))
  | inr (inr e) ↦ let k = rw e at j in rw e (ground arith, fail connecting, inl (inr (omega arith)))
]

pub request_write-Stepped :
    (w w1 w' : World) (ret : ℕ) (stm' : StateMachine World)
    → request_write w ≡ some (ret, w1)
    → jump (machine (some 7)) ret w1 ≡ some (stm', w')
    → Stepped 7 w ret stm' w'
unfolding jump run_hook copy_init
request_write-Stepped w w1 w' ret stm' h j = elim (request_write-ret w w1 ret h) [
  | inl (e, same) ↦
      let k = rw e at j in
      let kept : w.conn.response_status ≡ w'.conn.response_status = ground arith in
      rw e
        (ground arith, stay_at (ap (λ n. answering_request (n == 0)) kept), inl (inr (omega arith)))
  | inr (inl (e, ok)) ↦
      let k = rw e at j in rw (e, ok) (ground arith, relay, inl (inr (omega arith)))
  | inr (inr e) ↦ let k = rw e at j in rw e (ground arith, fail _, inl (inr (omega arith)))
]

pub copy-Stepped :
    (w w1 w' : World) (ret : ℕ) (stm' : StateMachine World)
    → (ret ≡ 8) ⊎ (ret ≡ 9)
    → jump (machine (some 8)) ret w1 ≡ some (stm', w')
    → Stepped 8 w ret stm' w'
unfolding jump run_hook
copy-Stepped w w1 w' ret stm' r j = elim r [
  | inl e ↦ let k = rw e at j in rw e (ground arith, stay copying, inl (inr (omega arith)))
  | inr e ↦ let k = rw e at j in rw e (ground arith, end, inl (inr (omega arith)))
]
