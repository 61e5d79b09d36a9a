-- ===== src/Session/Attempts.antt =====
-- src/server/socks5nio.c: what a request leads to. No success is recorded before the connection to the
-- origin is reported as established.

use socks_v5_proxy.Prelude.{
  ◌==◌, Bool-cases, Option-cases, List-cases, ℤ, pos, negsuc, >>=-eq-some, ℕ, ◌≡◌, refl, subst, ◌∙◌,
  ◌≢◌, ◌⊎◌, inl, inr, Bool, true, false, some, ◌∷◌, arith,
}
use socks_v5_proxy.Consume.{Consumed}
use socks_v5_proxy.Request.{
  socks_req_cmd_connect, socks_req_addrtype_ipv4, socks_req_addrtype_domain,
  socks_req_addrtype_ipv6, af_inet, af_inet6, RequestParser, request_consume,
}
use socks_v5_proxy.Request.Reply.{errno_to_socks}
use socks_v5_proxy.Selector.{SelectorStatus}
use socks_v5_proxy.Session.{Address, World, set_interest, receive}
use socks_v5_proxy.Session.Requesting.{
  request_error_write, Attempt, under_way, given_up, start_connection, drop_attempt, open_origin,
  conclude, request_connect, with_target, process_domain, request_process, request_parsed,
  request_read, request_resolv_done,
}
use socks_v5_proxy.Session.Lifetime.{socks5_destroy, unregister, close_fd}

-- The answer to a request that could not be met is being sent, or the connection has failed.
abbrev pub Refused : ℕ → World → Type 0
Refused ret w' = ((ret ≡ 7) ⊎ (ret ≡ 10)) × (w'.conn.response_status ≢ 0)

pub request_error_write-ret :
    (status : ℕ) (w w' : World) (ret : ℕ)
    → request_error_write status w ≡ some (ret, w')
    → status ≢ 0
    → Refused ret w'
unfolding request_error_write set_interest
request_error_write-ret status w w' ret h n = ground arith

-- No success has been recorded.
abbrev IsUnmet : Attempt → Type 0
IsUnmet (under_way w') = w'.conn.response_status ≢ 0
IsUnmet (given_up status w') = status ≢ 0

start_connection-IsUnmet :
    (fd : ℕ) (w : World) (a : Attempt)
    → w.conn.response_status ≢ 0
    → w.os.connect_errno ≢ some 0
    → start_connection fd w ≡ some a
    → IsUnmet a
unfolding start_connection set_interest errno_to_socks
start_connection-IsUnmet fd w (under_way w') n e h = ground arith
start_connection-IsUnmet fd w (given_up st w') n e h = ground arith

unregister-status :
    (w w' : World) (fd : ℤ) (st : SelectorStatus)
    → unregister w fd ≡ some (st, w')
    → (w'.conn.response_status ≡ w.conn.response_status) × (w'.os ≡ w.os)
unfolding unregister socks5_destroy
unregister-status w w' fd st h = ground arith

open_origin-IsUnmet :
    (w : World) (a : Attempt)
    → w.conn.response_status ≢ 0
    → w.os.connect_errno ≢ some 0
    → open_origin w ≡ some a
    → IsUnmet a
unfolding open_origin
open_origin-IsUnmet w a n e h = elim (Option-cases (w.os.new_fd)) [
  | inl f ↦
      let given : a ≡ given_up 1 (record w { conn = record (w.conn) { origin_fd = negsuc 0 } }) =
        ground arith in
      rw given (λ q. omega arith)
  | inr (fd, f) ↦
      let w1 : World = record w { conn = record (w.conn) { origin_fd = pos fd } } in
      elim (Bool-cases (w.os.set_nio)) [
        | inl s ↦ start_connection-IsUnmet fd w1 a n e (rw (f, s, open_origin) at h)
        | inr s ↦ let given : a ≡ under_way w1 = ground arith in rw given n
      ]
]

close_fd-status :
    (w : World) (fd : ℤ)
    → ((close_fd w fd).conn.response_status ≡ w.conn.response_status) × ((close_fd w fd).os ≡ w.os)
close_fd-status w (pos n) = (refl, refl)
close_fd-status w (negsuc k) = (refl, refl)

pub drop_attempt-status :
    (w w' : World)
    → drop_attempt w ≡ some w'
    → (w'.conn.response_status ≡ w.conn.response_status) × (w'.os ≡ w.os)
unfolding drop_attempt
drop_attempt-status w w' h =
    let (r, e, f) = >>=-eq-some (unregister w w.conn.origin_fd) _ h in
    let kept = unregister-status w r.1 w.conn.origin_fd r.0 e in
    let shut = close_fd-status r.1 r.1.conn.origin_fd in
    let same : close_fd r.1 r.1.conn.origin_fd ≡ w' = ground arith in
    subst (λ u. (u.conn.response_status ≡ w.conn.response_status) × (u.os ≡ w.os)) same
      (shut.0 ∙ kept.0, shut.1 ∙ kept.1)

pub conclude-ret :
    (a : Attempt) (w' : World) (ret : ℕ)
    → IsUnmet a
    → conclude a ≡ some (ret, w')
    → ((ret ≡ 6) × (w'.conn.response_status ≢ 0)) ⊎ Refused ret w'
unfolding conclude
conclude-ret (under_way w) w' ret u h = ground arith
conclude-ret (given_up status w) w' ret u h =
    let w1 = close_fd w w.conn.origin_fd in
    inr (
      request_error_write-ret status
        (record w1 { conn = record (w1.conn) { origin_fd = negsuc 0 } }) w' ret h u)

pub request_connect-ret :
    (again : Bool) (w w' : World) (ret : ℕ)
    → w.conn.response_status ≢ 0
    → w.os.connect_errno ≢ some 0
    → request_connect again w ≡ some (ret, w')
    → ((ret ≡ 6) × (w'.conn.response_status ≢ 0)) ⊎ Refused ret w'
unfolding request_connect
request_connect-ret false w w' ret n e h =
    let (a, f, g) = >>=-eq-some (open_origin w) _ h in
    conclude-ret a w' ret (open_origin-IsUnmet w a n e f) g
request_connect-ret true w w' ret n e h =
    let (w1, d, k) = >>=-eq-some (drop_attempt w) _ h in
    let (a, f, g) = >>=-eq-some (open_origin w1) _ k in
    let (same, os) = drop_attempt-status w w1 d in
    conclude-ret a w' ret (open_origin-IsUnmet w1 a (rw same n) (rw os e) f) g

-- From a request, or from a resolved name, on.
abbrev pub Requested : ℕ → World → Type 0
Requested ret w' =
    ((ret ≡ 5) × (w'.conn.response_status ≢ 0))
    ⊎ (((ret ≡ 6) × (w'.conn.response_status ≢ 0)) ⊎ Refused ret w')

pub process_domain-ret :
    (w w' : World) (ret : ℕ)
    → w.conn.response_status ≢ 0
    → process_domain w ≡ some (ret, w')
    → Requested ret w'
unfolding process_domain set_interest
process_domain-ret w w' ret n h = ground (arith, request_error_write-ret 1 w w' ret)

pub request_process-ret :
    (w w' : World) (ret : ℕ)
    → w.conn.response_status ≢ 0
    → w.os.connect_errno ≢ some 0
    → request_process w ≡ some (ret, w')
    → Requested ret w'
unfolding request_process set_interest
request_process-ret w w' ret n e h =
    let r = w.conn.request.request in
    elim (Bool-cases (r.cmd == socks_req_cmd_connect)) [
      | inr c ↦ inr (
          inr
            (request_error_write-ret 7 w w' ret (rw (c, request_process) at h) (λ q. omega arith)))
      | inl c ↦ elim (Bool-cases (r.dest_addr_type == socks_req_addrtype_ipv4)) [
        | inl t ↦
            let a : Address = record { domain = af_inet; host = r.ipv4; port = r.dest_port } in
            inr (
              request_connect-ret false (with_target w a) w' ret n e
                (rw (c, t, request_process) at h))
        | inr t ↦ elim (Bool-cases (r.dest_addr_type == socks_req_addrtype_ipv6)) [
          | inl u ↦
              let a : Address = record { domain = af_inet6; host = r.ipv6; port = r.dest_port } in
              inr (
                request_connect-ret false (with_target w a) w' ret n e
                  (rw (c, t, u, request_process) at h))
          | inr u ↦ elim (Bool-cases (r.dest_addr_type == socks_req_addrtype_domain)) [
            | inr d ↦ inr (
                inr (
                  request_error_write-ret 8 w w' ret (rw (c, t, u, d, request_process) at h)
                    (λ q. omega arith)))
            | inl d ↦ process_domain-ret w w' ret n (rw (c, t, u, d, request_process) at h)
          ]
        ]
      ]
    ]

pub request_parsed-ret :
    (c : Consumed RequestParser) (w w' : World) (ret : ℕ)
    → w.conn.response_status ≢ 0
    → w.os.connect_errno ≢ some 0
    → request_parsed c w ≡ some (ret, w')
    → ((ret ≡ 4) × (w'.conn.response_status ≢ 0)) ⊎ Requested ret w'
unfolding request_parsed
request_parsed-ret c w w' ret n e h = ground (arith, request_process-ret w w' ret n e)

pub request_read-ret :
    (w w' : World) (ret : ℕ)
    → w.conn.response_status ≢ 0
    → w.os.connect_errno ≢ some 0
    → request_read w ≡ some (ret, w')
    → ((ret ≡ 4) × (w'.conn.response_status ≢ 0)) ⊎ Requested ret w'
unfolding request_read
request_read-ret w w' ret n e h =
    let (r, e1, h1) = >>=-eq-some (receive w.os w.conn.read_buffer) _ h in
    elim (Option-cases r) [
      | inl f ↦ let g = rw f at h1 in ground arith
      | inr (b, f) ↦
          let (c, e2, h2) = >>=-eq-some (request_consume b w.conn.request false) _ (rw f at h1) in
          request_parsed-ret c
            (record w { conn = record (w.conn) { read_buffer = c.buffer; request = c.parser } }) w'
            ret n e h2
    ]

pub request_resolv_done-ret :
    (w w' : World) (ret : ℕ)
    → w.conn.response_status ≢ 0
    → w.os.connect_errno ≢ some 0
    → request_resolv_done w ≡ some (ret, w')
    → ((ret ≡ 6) × (w'.conn.response_status ≢ 0)) ⊎ Refused ret w'
unfolding request_resolv_done
request_resolv_done-ret w w' ret n e h = elim (List-cases w.conn.origin_resolution) [
  | inl f ↦
      inr (request_error_write-ret 4 w w' ret (rw (f, request_resolv_done) at h) (λ q. omega arith))
  | inr (a, rest, f) ↦
      request_connect-ret false
        (record w {
          conn = record (w.conn) { origin_resolution_current = a ∷ rest; origin_addr = some a };
        })
        w' ret n e (rw (f, request_resolv_done) at h)
]
