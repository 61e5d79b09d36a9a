-- ===== src/Client/Main/Session.antt =====
-- src/client/client.c: the requests of a run, each answered by a response that arrives in one piece.
use socks_v5_proxy.Prelude.{
  leb, ◌==◌, length, drop, length-replicate, overwrite-front, All, NonZero, u32, ℕ, ◌≤◌, ◌<◌, ◌≡◌,
  refl, sym, ap, ap₂, subst, ◌∙◌, inr, true, false, List, [], ◌∷◌, ◌++◌, arith,
}
use socks_v5_proxy.Client.{get, config, ClientRequestArgs}
use socks_v5_proxy.Client.Wire.{header, payload, request_sent-payload}
use socks_v5_proxy.Client.Response.{
  Received, Report, number_of, user_list, refused, handle_get_ok_status, handle_config_ok_status,
  handle_error_response, process_response,
}
use socks_v5_proxy.Client.Response.Numbers.{
  process_response-number, joined, lines, process_response-list,
}
use socks_v5_proxy.Client.Main.{
  recv_closed, recv_bytes, Answers, returned, Buffers, recv_loop, cleared, conclude_exchange,
  exchange, then_loop, main_loop, whole_response,
}
use socks_v5_proxy.Monitor.Reply.{network_short, network_long}

-- A request whose length is that of its data.
abbrev pub IsSendable : ClientRequestArgs → Type 0
IsSendable args = (length (payload args) ≡ args.dlen) × (args.dlen ≤ 65535)

-- The arrays have their sizes.
abbrev pub IsSized : Buffers → Type 0
IsSized b =
    (length b.write_buffer ≡ 65556)
    × (length b.buf ≡ 65538)
    × (length b.received.combinedlen ≡ 2)
    × (length b.received.numeric_data_array ≡ 4)

-- A response of the server to a request, and what the user is to be told.
pub data Answered : ClientRequestArgs → List ℕ → Report → Type 0 where
  answered_number :
      {args : ClientRequestArgs} (n : ℕ)
      → args.method ≡ get
      → args.target ≤ 2
      → Answered args (0 ∷ (network_short 4 ++ network_long n)) (number_of args.target (u32 n))
  answered_list :
      {args : ClientRequestArgs} (name : List ℕ) (names : List (List ℕ))
      → args.method ≡ get
      → 2 < args.target
      → args.target ≤ 4
      → All NonZero (name ∷ names)
      → length (joined (name ∷ names)) < 65533
      → Answered args
          (0 ∷ (network_short (length (joined (name ∷ names))) ++ joined (name ∷ names)))
          (user_list args.target (lines (name ∷ names)))
  answered_change :
      {args : ClientRequestArgs}
      → args.method ≡ config
      → Answered args (0 ∷ 0 ∷ 1 ∷ 0 ∷ []) (handle_config_ok_status args)
  answered_error :
      {args : ClientRequestArgs} (status : ℕ)
      → 0 < status
      → status ≤ 6
      → Answered args (status ∷ 0 ∷ 1 ∷ 0 ∷ []) (refused status args.target)

report-change :
    (args : ClientRequestArgs) (rest : List ℕ) (r : Received)
    → args.method ≡ config
    → process_response args (0 ∷ rest) r ≡ (r, handle_config_ok_status args)
unfolding process_response
report-change args rest r m =
    subst
      (λ k.
        ◌≡◌ {A = Received × Report}
          (elim k as (λ x. Received × Report) [
            | get ↦ handle_get_ok_status args.target (0 ∷ rest) r
            | config ↦ (r, handle_config_ok_status args)
          ])
          (r, handle_config_ok_status args))
      (sym m) refl

report-error :
    (args : ClientRequestArgs) (c : ℕ) (rest : List ℕ) (r : Received)
    → 0 < c
    → c ≤ 6
    → process_response args (c ∷ rest) r ≡ (r, refused c args.target)
unfolding process_response handle_error_response
report-error args c rest r z h =
    let failed : (c == 0) ≡ false = ground arith in
    let known : leb c 6 ≡ true = ground arith in rw (failed, known) refl

-- Whatever the array holds behind the response.
report-Answered :
    (args : ClientRequestArgs) (response tail : List ℕ) (report : Report) (r : Received)
    → Answered args response report
    → length r.combinedlen ≡ 2
    → length r.numeric_data_array ≡ 4
    → (process_response args (response ++ tail) r).1 ≡ report
report-Answered args response tail report r (answered_number n m t) two four =
    process_response-number args r n tail m t four
report-Answered args response tail report r (answered_list name names m t t' nz short) two four =
    process_response-list args r name names tail m t t' two nz short
report-Answered args response tail report r (answered_change m) two four =
    ap (λ z. z.1) (report-change args (0 ∷ 1 ∷ 0 ∷ tail) r m)
report-Answered args response tail report r (answered_error c z h) two four =
    ap (λ z. z.1) (report-error args c (0 ∷ 1 ∷ 0 ∷ tail) r z h)

recv_loop-whole :
    (buf response : List ℕ)
    → length response ≤ length buf
    → recv_loop buf (recv_bytes response ∷ recv_closed ∷ [])
      ≡ inr (response ++ drop (length response) buf)
unfolding recv_loop
recv_loop-whole buf response h = ap inr (overwrite-front buf response h)

exchange-whole :
    (args : ClientRequestArgs) (token response : List ℕ) (report : Report) (b : Buffers)
    → length token ≡ 16
    → IsSendable args
    → Answered args response report
    → length response ≤ 65538
    → IsSized b
    → (b' : Buffers) × (exchange args token (whole_response response) b ≡ record {
      sends = header args token (payload args) ∷ [];
      tells = report ∷ [];
      next = inr b';
    })
      × IsSized b'
unfolding exchange conclude_exchange
exchange-whole args token response report b l (size, bound) d short (wb, bb, two, four) =
    let whole : List ℕ = response ++ drop (length response) b.buf in
    let told = process_response args whole b.received in
    (
      cleared (record b { received = told.0 }),
      rw (recv_loop-whole b.buf response (omega arith)) (
          ap₂
            (λ bytes told_report. record {
              sends = bytes ∷ [];
              tells = told_report ∷ [];
              next = inr (cleared (record b { received = told.0 }));
            })
            (request_sent-payload args token b.write_buffer l wb size bound)
            (report-Answered args response _ report b.received d two four)),
      (length-replicate {A = ℕ} 65556 0, length-replicate {A = ℕ} 65538 0, refl, refl),
    )

-- A run: the requests with the answers to them, the bytes to be sent and the reports to be given.
pub data Served
    : List ℕ → List (ClientRequestArgs × Answers) → List (List ℕ) → List Report → Type 0 where
  served_none : {token : List ℕ} → Served token [] [] []
  served_next :
      {token : List ℕ} {args : ClientRequestArgs} {response : List ℕ} {report : Report}
      {more : List (ClientRequestArgs × Answers)} {sent : List (List ℕ)} {reports : List Report}
      → IsSendable args
      → Answered args response report
      → length response ≤ 65538
      → Served token more sent reports
      → Served token
          ((args, whole_response response) ∷ more)
          (header args token (payload args) ∷ sent)
          (report ∷ reports)

-- With a token of 16 bytes, and whatever the arrays hold at first, in a run where every call succeeds and each
-- request is answered by a well-formed response of at most 65538 bytes that one `recv` gives whole: the client
-- sends the requests in their order, each with its own data, gives the report for each response, and ends
-- with 0.
pub main_loop-Served :
    (token : List ℕ) (work : List (ClientRequestArgs × Answers)) (sent : List (List ℕ))
    (reports : List Report) (b : Buffers)
    → length token ≡ 16
    → Served token work sent reports
    → IsSized b
    → main_loop work token b ≡ record { sent = sent; reports = reports; ended = returned 0 }
unfolding main_loop
main_loop-Served token work sent reports b l served_none z = refl
main_loop-Served token work sent reports b l
      (served_next {args = args} {response = response} {report = report} {more = more}
        {sent = sent'} {reports = reports'} size d short rest)
      z =
    let (b', e, z') = exchange-whole args token response report b l size d short z in
    ap (λ x. then_loop x (λ b''. main_loop more token b'')) e
    ∙ ap
        (λ t. record {
          sent = header args token (payload args) ∷ t.sent;
          reports = report ∷ t.reports;
          ended = t.ended;
        })
        (main_loop-Served token more sent' reports' b' l rest z')
