-- ===== src/Session/Reports.antt =====
-- src/server/socks5nio.c: what the outcome of an attempt to connect leads to.
use socks_v5_proxy.Prelude.{
  ◌==◌, Bool-cases, Option-cases, List-cases, pos, >>=-eq-some, ℕ, ◌≡◌, sym, ap, ◌∙◌, ◌≢◌, ◌⊎◌, inl,
  inr, true, some, List, ◌∷◌, arith,
}
use socks_v5_proxy.Request.Reply.{status_succeeded, errno_to_socks, errno_to_socks-success}
use socks_v5_proxy.Session.{Address, World, set_interest}
use socks_v5_proxy.Session.Requesting.{request_connect}
use socks_v5_proxy.Session.Connecting.{
  report_connection, with_status, next_address, request_connecting,
}
use socks_v5_proxy.Session.Attempts.{request_connect-ret}

pub report_connection-ret :
    (w w' : World) (ret : ℕ)
    → report_connection w ≡ some (ret, w')
    → ((ret ≡ 7) × (w'.conn.response_status ≡ w.conn.response_status)) ⊎ (ret ≡ 10)
unfolding report_connection set_interest
report_connection-ret w w' ret h = ground arith

-- A report of success needs a connection that the operating system has established.
abbrev pub Reported : World → ℕ → World → Type 0
Reported w ret w' =
    ((ret ≡ 7)
      × ((w'.conn.response_status ≢ 0)
          ⊎ ((w'.conn.response_status ≡ 0) × (w.os.socket_error ≡ some 0))))
    ⊎ (ret ≡ 10)

pub next_address-ret :
    (w w' : World) (a : Address) (rest : List Address) (ret : ℕ)
    → w.conn.response_status ≢ 0
    → w.os.connect_errno ≢ some 0
    → next_address w a rest ≡ some (ret, w')
    → (ret ≡ 6) × (w'.conn.response_status ≢ 0)
unfolding next_address
next_address-ret w w' a rest ret n e h =
    let w1 : World = record w {
      conn = record (w.conn) { origin_resolution_current = a ∷ rest; origin_addr = some a };
    } in
    let (r, f, g) = >>=-eq-some (request_connect true w1) _ h in
    let kept = request_connect-ret true w1 r.1 r.0 n e f in ground arith

Reported-failure :
    (w w' : World) (status ret : ℕ)
    → status ≢ 0
    → report_connection (with_status w status) ≡ some (ret, w')
    → Reported w ret w'
Reported-failure w w' status ret n h =
    elim (report_connection-ret (with_status w status) w' ret h) [
      | inl (q, same) ↦ inl (q, inl (λ z. n (sym same ∙ z)))
      | inr q ↦ inr q
    ]

pub request_connecting-ret :
    (w w' : World) (ret : ℕ)
    → w.conn.response_status ≢ 0
    → w.os.connect_errno ≢ some 0
    → request_connecting w ≡ some (ret, w')
    → ((ret ≡ 6) × (w'.conn.response_status ≢ 0)) ⊎ Reported w ret w'
unfolding request_connecting
request_connecting-ret w w' ret n e h = elim (Option-cases w.os.socket_error) [
  | inl f ↦ inr (Reported-failure w w' 1 ret (λ q. omega arith) (rw (f, request_connecting) at h))
  | inr (err, f) ↦ elim (Bool-cases (err == 0)) [
    | inl z ↦
        let w1 : World = record w {
          conn = record (w.conn) { response_status = status_succeeded; origin_fd = pos w.fd };
        } in
        let zero_error : err ≡ 0 = ground arith in
        let linked : w.os.socket_error ≡ some 0 = f ∙ ap some zero_error in
        let r = report_connection-ret w1 w' ret (rw (f, z, request_connecting) at h) in
        elim r [ inl (q, same) ↦ inr (inl (q, inr (same, linked))) | inr q ↦ inr (inr q) ]
    | inr nz ↦
        let bad : errno_to_socks w.errno err ≢ 0 =
          λ q. let z : err ≡ 0 = (errno_to_socks-success w.errno err).0 q in ground arith in
        let plain = Reported-failure w w' (errno_to_socks w.errno err) ret bad in
        elim (List-cases w.conn.origin_resolution_current) [
          | inl c ↦ ground arith
          | inr (a, more, c) ↦ elim (List-cases more) [
            | inl m ↦ ground arith
            | inr (b, rest, m) ↦ let next = next_address-ret w w' b rest ret n e in ground arith
          ]
        ]
  ]
]
