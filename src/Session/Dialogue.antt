-- ===== src/Session/Dialogue.antt =====
-- src/server/socks5nio.c: the greeting of a client and the answer to it, as events of the connection.
pub mod Login
use socks_v5_proxy.Prelude.{
  if◌then◌else◌, Bool-cases, length, ℕ, ◌+◌, ◌-◌, ◌≤◌, ◌<◌, ◌≡◌, refl, sym, ap, subst, ◌∙◌, ◌≢◌,
  ◌⊎◌, inl, inr, true, false, some, List, [], ◌∷◌, ◌++◌, arith,
}
use socks_v5_proxy.Buffer.{buffer_can_read, IsValid, contents, room}
use socks_v5_proxy.Buffer.Queue.{length-contents}
use socks_v5_proxy.Session.{
  hello_read_state, hello_write_state, auth_read_state, request_read_state, Os, World, op_read_only,
  set_interest,
}
use socks_v5_proxy.Session.Streams.{arriving, departing}
use socks_v5_proxy.Session.Greeting.{with_callback, hello_write, auth_init}
use socks_v5_proxy.Selector.{FdSelector}
use socks_v5_proxy.Selector.Consistency.{IsConsistent}
use socks_v5_proxy.Selector.Interests.{IsUsed, selector_set_interest-IsUsed}
use socks_v5_proxy.Auth.{auth_status_failure, auth_parser_init}
use socks_v5_proxy.Request.{request_parser_init}
use socks_v5_proxy.Request.Reply.{status_succeeded, status_general_socks_server_failure}
use socks_v5_proxy.Session.Table.{machine, read_ready, write_ready, socksv5_event}
use socks_v5_proxy.Session.Requesting.{request_init}
use socks_v5_proxy.Stm.{run_hook, handle_first, jump, stm_handler}
use socks_v5_proxy.Session.Greeted.{answered, parsed, greeted, hello_read-Greets}
use socks_v5_proxy.Hello.{HelloParser, hello_is_done}
use socks_v5_proxy.Hello.Methods.{greeting, hello_parse}
use socks_v5_proxy.Session.Drained.{drained, drained-IsValid, transmit-drained}

-- The answer is sent.
hello_write-drained :
    (w : World) (k : ℕ)
    → IsConsistent w.selector
    → IsUsed w.selector w.fd
    → IsValid w.conn.write_buffer
    → w.os.sent ≡ some k
    → 0 < length (contents w.conn.write_buffer)
    → length (contents w.conn.write_buffer) ≤ k
    → (sel : FdSelector ℕ ℕ) × (hello_write w
        ≡ some (
          (if w.is_auth_on then auth_read_state else request_read_state),
          record w {
            conn = record (w.conn) { write_buffer = drained w.conn.write_buffer };
            selector = sel;
          },
        ))
      × IsConsistent sel
      × ((j : ℕ) → IsUsed w.selector j → IsUsed sel j)
unfolding hello_write set_interest buffer_can_read
hello_write-drained w k c u v e some_wait enough =
    let (sel, set_, agreed, kept) = selector_set_interest-IsUsed w.selector w.fd op_read_only c u in
    let (_, run) = transmit-drained w.os w.conn.write_buffer k v e some_wait enough in
    (sel, rw (hello_write, run, set_interest, set_) refl, agreed, kept)

-- What the connection waits for after the answer: credentials or a request, from the start.
abbrev pub IsNext : World → World → ℕ → Type 0
IsNext w w' next =
    ((w.is_auth_on ≡ true)
      × (next ≡ auth_read_state)
      × (w'.conn.auth ≡ auth_parser_init w.conn.auth))
    ⊎ ((w.is_auth_on ≡ false)
        × (next ≡ request_read_state)
        × (w'.conn.request ≡ request_parser_init w.conn.request)
        × (w'.conn.response_status ≢ status_succeeded))

-- The connection is as it was for the messages that follow: its descriptors are used, its buffers valid, and
-- there is as much room for an answer as there was before.
pub record IsOpen (w w' : World) : Type 0 where
  pub agreed : IsConsistent w'.selector
  pub used : (k : ℕ) → IsUsed w.selector k → IsUsed w'.selector k
  pub read_valid : IsValid w'.conn.read_buffer
  pub write_valid : IsValid w'.conn.write_buffer
  pub sent : contents w'.conn.write_buffer ≡ []
  pub roomy : room w.conn.write_buffer ≤ room w'.conn.write_buffer
  pub client : w'.conn.client_fd ≡ w.conn.client_fd
  pub origin : w'.conn.origin_fd ≡ w.conn.origin_fd
  pub server : w'.server ≡ w.server

-- The event that sends the answer, from a connection that is in use with it in the buffer.
hello_write-sent :
    (w : World) (k : ℕ)
    → IsConsistent w.selector
    → IsUsed w.selector w.fd
    → IsValid w.conn.write_buffer
    → w.os.sent ≡ some k
    → 0 < length (contents w.conn.write_buffer)
    → length (contents w.conn.write_buffer) ≤ k
    → (w' : World) × (next : ℕ) × (socksv5_event write_ready (machine (some hello_write_state)) w
        ≡ some (machine (some next), w'))
      × IsNext w w' next
      × IsConsistent w'.selector
      × ((j : ℕ) → IsUsed w.selector j → IsUsed w'.selector j)
      × (w'.conn.read_buffer ≡ w.conn.read_buffer)
      × (w'.conn.write_buffer ≡ drained w.conn.write_buffer)
      × (w'.conn.client_fd ≡ w.conn.client_fd)
      × (w'.conn.origin_fd ≡ w.conn.origin_fd)
      × (w'.server ≡ w.server)
unfolding socksv5_event stm_handler handle_first jump run_hook request_init auth_init
hello_write-sent w k c u v e some_wait enough =
    let (sel, run, agreed, kept) = hello_write-drained w k c u v e some_wait enough in
    elim (Bool-cases (w.is_auth_on)) [
      | inl on ↦ (
        record w {
          conn = record (w.conn) {
            write_buffer = drained w.conn.write_buffer;
            auth = auth_parser_init w.conn.auth;
            auth_status = auth_status_failure;
          };
          selector = sel;
        },
        auth_read_state,
        rw (run, on) refl,
        inl (on, refl, refl),
        agreed,
        kept,
        refl,
        refl,
        refl,
        refl,
        refl,
      )
      | inr off ↦ (
        record w {
          conn = record (w.conn) {
            write_buffer = drained w.conn.write_buffer;
            response_status = status_general_socks_server_failure;
            request = request_parser_init w.conn.request;
          };
          selector = sel;
        },
        request_read_state,
        rw (run, off) refl,
        inr (off, refl, refl, (λ q. omega arith)),
        agreed,
        kept,
        refl,
        refl,
        refl,
        refl,
        refl,
      )
    ]

-- The events that receive the last byte of a client's greeting and send the answer to it, on a connection in
-- HELLO_READ whose descriptor is in use, with room for the answer and none that waits, wherever the events
-- before have cut the greeting and where `send` takes both bytes: the selector's handler goes through HELLO_WRITE
-- and sends the method that the setting asks for exactly if the greeting offers it, and 0xFF otherwise. After any
-- of these answers it waits for credentials where the setting asks for them, for a request otherwise, with the
-- parser for them set up, the bytes behind the greeting queued, and the connection open for them.
pub socksv5_event-IsOpen :
    (w : World) (p : HelloParser) (methods before rest : List ℕ) (os : Os) (k : ℕ)
    → length methods < 256
    → IsConsistent w.selector
    → IsUsed w.selector w.fd
    → IsValid w.conn.write_buffer
    → 2 ≤ room w.conn.write_buffer
    → contents w.conn.write_buffer ≡ []
    → IsValid w.conn.read_buffer
    → contents w.conn.read_buffer ≡ []
    → hello_parse (greeted w.is_auth_on p) before ≡ (with_callback w, false, [])
    → hello_is_done w.conn.hello.state ≡ false
    → before ++ arriving w.os w.conn.read_buffer ≡ greeting methods ++ rest
    → os.sent ≡ some k
    → 2 ≤ k
    → (w1 : World) × (w2 : World) × (next : ℕ) × (socksv5_event read_ready
          (machine (some hello_read_state))
          w
        ≡ some (machine (some hello_write_state), w1))
      × (socksv5_event write_ready (machine (some hello_write_state)) (record w1 { os = os })
          ≡ some (machine (some next), w2))
      × (departing os w1.conn.write_buffer ≡ 5 ∷ answered w.is_auth_on methods ∷ [])
      × IsNext w w2 next
      × (contents w2.conn.read_buffer ≡ rest)
      × IsOpen w w2
unfolding socksv5_event stm_handler handle_first jump run_hook
socksv5_event-IsOpen w p methods before rest os k h c u wv r quiet rv empty cut open_ whole e
      enough =
    let (sel, rb, wb, run, agreed, kept, rv', left, wv', q, size) =
      hello_read-Greets w p methods before rest h c u wv r rv empty cut open_ whole in
    let answer : contents wb ≡ 5 ∷ answered w.is_auth_on methods ∷ [] = rw quiet at q in
    let two : length (contents wb) ≡ 2 = ap length answer in
    let w1 : World = record w {
      conn = record (w.conn) {
        read_buffer = rb;
        hello = parsed w.is_auth_on methods;
        write_buffer = wb;
      };
      selector = sel;
    } in
    let (w2, next, run2, waits, agreed2, kept2, rb2, wb2, client, origin, server) =
      hello_write-sent (record w1 { os = os }) k agreed (kept w.fd u) wv' e (omega arith)
        (omega arith) in
    (
      w1,
      w2,
      next,
      rw run refl,
      run2,
      (transmit-drained os wb k wv' e (omega arith) (omega arith)).0 ∙ answer,
      waits,
      ap contents rb2 ∙ left,
      record {
        agreed = agreed2;
        used = λ j inside. kept2 j (kept j inside);
        read_valid = subst IsValid (sym rb2) rv';
        write_valid = subst IsValid (sym wb2) (drained-IsValid wv');
        sent = ap contents wb2;
        roomy =
            let bound = wv'.bounded in
            let order = wv'.ordered in let length_wb = length-contents wv' in rw wb2 (omega arith);
        client = client;
        origin = origin;
        server = server;
      },
    )
