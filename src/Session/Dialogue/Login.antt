-- ===== src/Session/Dialogue/Login.antt =====
-- src/server/socks5nio.c: the credentials of a client and the answer to them, as events of the connection.
use socks_v5_proxy.Prelude.{
  if◌then◌else◌, length, NonZero, ℕ, ◌≤◌, ◌<◌, ◌≡◌, refl, sym, ap, subst, ◌∙◌, ◌≢◌, ◌⊎◌, inl, inr,
  Bool, true, false, some, List, [], ◌∷◌, ◌++◌, arith,
}
use socks_v5_proxy.Buffer.{buffer_can_read, IsValid, contents, room}
use socks_v5_proxy.Buffer.Queue.{length-contents}
use socks_v5_proxy.Session.{
  auth_read_state, auth_write_state, request_read_state, error_state, Os, World, op_read_only,
  set_interest,
}
use socks_v5_proxy.Session.Streams.{arriving, departing}
use socks_v5_proxy.Session.Greeting.{auth_write}
use socks_v5_proxy.Session.Requesting.{request_init}
use socks_v5_proxy.Session.Served.{status_for, recorded, holding, auth_read-Serves}
use socks_v5_proxy.Session.Drained.{drained, drained-IsValid, transmit-drained}
use socks_v5_proxy.Session.Dialogue.{IsOpen}
use socks_v5_proxy.Session.Table.{machine, read_ready, write_ready, handler_of}
use socks_v5_proxy.Stm.{run_hook, handle_first, jump, stm_handler}
use socks_v5_proxy.Selector.{op_noop}
use socks_v5_proxy.Selector.Consistency.{IsConsistent}
use socks_v5_proxy.Selector.Interests.{IsUsed, selector_set_interest-IsUsed}
use socks_v5_proxy.Auth.{
  auth_status_succeeded, auth_status_failure, AuthParser, auth_parser_init, auth_is_done,
}
use socks_v5_proxy.Auth.Credentials.{credentials, auth_parse}
use socks_v5_proxy.Users.Accounts.{accounts, IsSound}
use socks_v5_proxy.Users.Login.{has_account}
use socks_v5_proxy.Request.{request_parser_init}
use socks_v5_proxy.Request.Reply.{status_succeeded, status_general_socks_server_failure}

-- After a success the connection waits for a request, with the parser for it set up; after a failure it ends.
abbrev pub IsAdmitted : Bool → World → World → ℕ → Type 0
IsAdmitted known w w' next =
    ((known ≡ true)
      × (next ≡ request_read_state)
      × (w'.conn.request ≡ request_parser_init w.conn.request)
      × (w'.conn.response_status ≢ status_succeeded))
    ⊎ ((known ≡ false) × (next ≡ error_state))

-- The event that sends the answer.
auth_write-sent :
    (w : World) (k : ℕ) (known : Bool)
    → IsConsistent w.selector
    → IsUsed w.selector w.fd
    → IsValid w.conn.write_buffer
    → w.os.sent ≡ some k
    → 0 < length (contents w.conn.write_buffer)
    → length (contents w.conn.write_buffer) ≤ k
    → w.conn.auth_status ≡ (if known then auth_status_succeeded else auth_status_failure)
    → (w' : World) × (next : ℕ) × (stm_handler
          (handler_of write_ready)
          (machine (some auth_write_state))
          w
        ≡ some (next, machine (some next), w'))
      × IsAdmitted known w w' next
      × IsConsistent w'.selector
      × ((j : ℕ) → IsUsed w.selector j → IsUsed w'.selector j)
      × (w'.conn.read_buffer ≡ w.conn.read_buffer)
      × (w'.conn.write_buffer ≡ drained w.conn.write_buffer)
      × (w'.conn.client_fd ≡ w.conn.client_fd)
      × (w'.conn.origin_fd ≡ w.conn.origin_fd)
      × (w'.server ≡ w.server)
unfolding stm_handler handle_first jump run_hook request_init auth_write set_interest
    buffer_can_read
auth_write-sent w k true c u v e some_wait enough status =
    let (sel, set_, agreed, kept) = selector_set_interest-IsUsed w.selector w.fd op_read_only c u in
    let (_, sent) = transmit-drained w.os w.conn.write_buffer k v e some_wait enough in
    let run : auth_write w
        ≡ some (
          request_read_state,
          record w {
            conn = record (w.conn) { write_buffer = drained w.conn.write_buffer };
            selector = sel;
          },
        ) =
      rw (auth_write, sent, status, set_interest, set_) refl in
    (
      record w {
        conn = record (w.conn) {
          write_buffer = drained w.conn.write_buffer;
          response_status = status_general_socks_server_failure;
          request = request_parser_init w.conn.request;
        };
        selector = sel;
      },
      request_read_state,
      rw run refl,
      inl (refl, refl, refl, (λ q. omega arith)),
      agreed,
      kept,
      refl,
      refl,
      refl,
      refl,
      refl,
    )
auth_write-sent w k false c u v e some_wait enough status =
    let (sel, set_, agreed, kept) = selector_set_interest-IsUsed w.selector w.fd op_noop c u in
    let (_, sent) = transmit-drained w.os w.conn.write_buffer k v e some_wait enough in
    let w' : World = record w {
      conn = record (w.conn) { write_buffer = drained w.conn.write_buffer };
      selector = sel;
    } in
    let run : auth_write w ≡ some (error_state, w') =
      rw (auth_write, sent, status, set_interest, set_) refl in
    (w', error_state, rw run refl, inr (refl, refl), agreed, kept, refl, refl, refl, refl, refl)

-- The events that receive the last byte of a client's credentials and send the answer to them, on a connection
-- in AUTH_READ whose descriptor is in use, with room for the answer and none that waits, wherever the events
-- before have cut the credentials and where `send` takes both bytes: the machine goes through AUTH_WRITE and
-- sends a success exactly if some account has the name and the password. After a success it waits for a request,
-- with the parser for it set up, and after a failure it is in ERROR; the bytes behind the credentials stay
-- queued, and the table of users is as it was. The name and the password are strings of 1 to 254 bytes.
pub stm_handler-IsAdmitted :
    (w : World) (p : AuthParser) (name pass before rest : List ℕ) (os : Os) (k : ℕ)
    → 0 < length name
    → length name < 255
    → 0 < length pass
    → length pass < 255
    → NonZero name
    → NonZero pass
    → IsSound w.server.registry
    → IsConsistent w.selector
    → IsUsed w.selector w.fd
    → IsValid w.conn.write_buffer
    → 2 ≤ room w.conn.write_buffer
    → contents w.conn.write_buffer ≡ []
    → IsValid w.conn.read_buffer
    → contents w.conn.read_buffer ≡ []
    → auth_parse (auth_parser_init p) before ≡ (w.conn.auth, false, [])
    → auth_is_done w.conn.auth.state ≡ false
    → before ++ arriving w.os w.conn.read_buffer ≡ credentials name pass ++ rest
    → os.sent ≡ some k
    → 2 ≤ k
    → (w1 : World) × (w2 : World) × (next : ℕ) × (stm_handler
          (handler_of read_ready)
          (machine (some auth_read_state))
          w
        ≡ some (auth_write_state, machine (some auth_write_state), w1))
      × (stm_handler
            (handler_of write_ready)
            (machine (some auth_write_state))
            (record w1 { os = os })
          ≡ some (next, machine (some next), w2))
      × (departing os w1.conn.write_buffer ≡ 1 ∷ status_for name pass w.server.registry ∷ [])
      × IsAdmitted (has_account name pass (accounts w.server.registry)) w w2 next
      × (contents w2.conn.read_buffer ≡ rest)
      × IsOpen w w2
unfolding stm_handler handle_first jump run_hook
stm_handler-IsAdmitted w p name pass before rest os k h1 h2 h3 h4 nz mz sound c u wv r quiet rv
      empty cut open_ whole e enough =
    let status = status_for name pass w.server.registry in
    let (sel, rb, wb, run, same, agreed, kept, rv', left, wv', q, size) =
      auth_read-Serves w p name pass before rest h1 h2 h3 h4 nz mz sound c u wv r rv empty cut open_
        whole in
    let answer : contents wb ≡ 1 ∷ status ∷ [] = rw quiet at q in
    let two : length (contents wb) ≡ 2 = ap length answer in
    let w1 = recorded (holding w name pass sel rb) wb in
    let (w2, next, run2, admitted, agreed2, kept2, rb2, wb2, client, origin, server) =
      auth_write-sent (record w1 { os = os }) k (has_account name pass (accounts w.server.registry))
        agreed (kept w.fd u) wv' e (omega arith) (omega arith) same in
    (
      w1,
      w2,
      next,
      rw run refl,
      run2,
      (transmit-drained os wb k wv' e (omega arith) (omega arith)).0 ∙ answer,
      admitted,
      ap contents rb2 ∙ left,
      record {
        agreed = agreed2;
        used = λ j inside. kept2 j (kept j inside);
        read_valid = subst IsValid (sym rb2) rv';
        write_valid = subst IsValid (sym wb2) (drained-IsValid wv');
        sent = ap contents wb2;
        roomy =
            let bound = wv'.bounded in
            let order = wv'.ordered in let length_wb = length-contents wv' in rw wb2 (omega arith);
        client = client;
        origin = origin;
        server = server;
      },
    )
