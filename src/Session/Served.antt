-- ===== src/Session/Served.antt =====
-- src/server/socks5nio.c: the credentials of a client, from its bytes to the answer.

use socks_v5_proxy.Selector.{FdSelector}
use socks_v5_proxy.Consume.{parse}
use socks_v5_proxy.Session.Streams.{arriving, receive-cases}
use socks_v5_proxy.Buffer.{Buffer, IsValid, contents, room}
use socks_v5_proxy.Consume.Stream.{Agrees, parse-resumed, consume-Agrees_of_parse}
use socks_v5_proxy.Auth.Reply.{auth_marshall-Marshalls}
use socks_v5_proxy.Selector.Consistency.{IsConsistent}
use socks_v5_proxy.Selector.Interests.{IsUsed, selector_set_interest-IsUsed}
use socks_v5_proxy.Session.{auth_write_state, World, op_write_only, set_interest, receive}
use socks_v5_proxy.Auth.Credentials as AuthCredentials
use socks_v5_proxy.Auth.Credentials.{credentials, auth_parse, at, padded, auth_parse-credentials}
use socks_v5_proxy.Prelude.{
  if◌then◌else◌, Option-cases, length, replicate, c_string, NonZero, c_string-append, ℕ, suc, ◌-◌,
  ◌≤◌, ◌<◌, ◌≡◌, refl, sym, ap, ap₂, ◌∙◌, inl, inr, true, false, Option, some, List, [], ◌∷◌, ◌++◌,
  arith,
}
use socks_v5_proxy.Auth.{
  auth_done, auth_status_succeeded, auth_status_failure, AuthParser, auth_parser_init,
  auth_parser_feed, auth_is_done, auth_is_error, auth_consume,
}
use socks_v5_proxy.Users.{Registry, active, find_login}
use socks_v5_proxy.Users.Accounts.{accounts, IsSound}
use socks_v5_proxy.Users.Login.{has_account, is_some, find_login-has_account}
use socks_v5_proxy.Session.Greeting.{login_of, login_status, uname_after, auth_process, auth_read}

-- An array of zeros behind a name holds it as a string.
c_string-padded : (xs : List ℕ) → NonZero xs → length xs < 255 → c_string (padded xs) ≡ xs
c_string-padded xs nz h =
    let e : 255 - length xs ≡ suc (254 - length xs) = omega arith in
    rw e (c_string-append xs (replicate (254 - length xs) 0) nz)

-- The status that the accounts give credentials.
abbrev pub status_for : List ℕ → List ℕ → Registry → ℕ
status_for name pass r =
    if has_account name pass (accounts r) then auth_status_succeeded else auth_status_failure

login_status-status_for :
    (name pass : List ℕ) (r : Registry)
    → NonZero name
    → NonZero pass
    → length name < 255
    → length pass < 255
    → IsSound r
    → login_status (find_login (padded name) (padded pass) (active r) 0) ≡ status_for name pass r
login_status-status_for name pass r nz mz h k s =
    let found = find_login-has_account (padded name) (padded pass) (active r) 0 s.terminated in
    let same : is_some (find_login (padded name) (padded pass) (active r) 0)
        ≡ has_account name pass (accounts r) =
      found
      ∙ ap₂ (λ a b. has_account a b (accounts r)) (c_string-padded name nz h)
          (c_string-padded pass mz k) in
    elim (Option-cases (find_login (padded name) (padded pass) (active r) 0)) [
      | inl e ↦ let no_account = ap is_some (sym e) ∙ same in rw (e, ← no_account) refl
      | inr (i, e) ↦ let account = ap is_some (sym e) ∙ same in rw (e, ← account) refl
    ]

-- With room for the answer `auth_process` records the status and appends it.
abbrev pub recorded : World → Buffer → World
recorded w b = record w {
  conn = record (w.conn) {
    write_buffer = b;
    auth_status = login_status (login_of w);
    client_uname = uname_after w.conn.client_uname (login_of w);
  };
}

auth_process-recorded :
    (w : World)
    → IsValid w.conn.write_buffer
    → 2 ≤ room w.conn.write_buffer
    → (b : Buffer) × (auth_process w ≡ some (auth_write_state, recorded w b))
      × IsValid b
      × (contents b ≡ contents w.conn.write_buffer ++ 1 ∷ login_status (login_of w) ∷ [])
      × (room b ≡ room w.conn.write_buffer - 2)
unfolding auth_process
auth_process-recorded w v r = elim (auth_marshall-Marshalls (login_status (login_of w)) v) [
  | inl (small, _) ↦ absurd (omega arith)
  | inr (_, (b, run, v', q, left)) ↦ (b, rw (auth_process, run) refl, v', q, left)
]

-- The parser behind the credentials.
abbrev parsed : List ℕ → List ℕ → AuthParser
parsed name pass =
    AuthCredentials.at (padded name) (padded pass) auth_done (length pass) (length pass)

-- Where the parse of what is received ends with credentials, the connection has them in its parser.
abbrev pub holding : World → List ℕ → List ℕ → FdSelector ℕ ℕ → Buffer → World
holding w name pass sel rb = record w {
  conn = record (w.conn) { read_buffer = rb; auth = parsed name pass };
  selector = sel;
}

-- The status that the table gives them.
abbrev pub looked_up : World → List ℕ → List ℕ → ℕ
looked_up w name pass =
    login_status (find_login (padded name) (padded pass) (active w.server.registry) 0)

-- Credentials that are looked up and answered with a status.
abbrev pub Serves : World → List ℕ → List ℕ → List ℕ → ℕ → Option (ℕ × World) → Type 0
Serves w name pass rest status result =
    (sel : FdSelector ℕ ℕ) × (rb : Buffer) × (wb : Buffer) × (result
      ≡ some (auth_write_state, recorded (holding w name pass sel rb) wb))
    × (looked_up w name pass ≡ status)
    × IsConsistent sel
    × ((k : ℕ) → IsUsed w.selector k → IsUsed sel k)
    × IsValid rb
    × (contents rb ≡ rest)
    × IsValid wb
    × (contents wb ≡ contents w.conn.write_buffer ++ 1 ∷ status ∷ [])
    × (room wb ≡ room w.conn.write_buffer - 2)

auth_read-recorded :
    (w : World) (name pass rest : List ℕ) (status : ℕ) (b : Buffer)
    → receive w.os w.conn.read_buffer ≡ some (some b)
    → Agrees (parsed name pass, false, rest) (auth_consume b w.conn.auth false)
    → IsConsistent w.selector
    → IsUsed w.selector w.fd
    → IsValid w.conn.write_buffer
    → 2 ≤ room w.conn.write_buffer
    → looked_up w name pass ≡ status
    → Serves w name pass rest status (auth_read w)
unfolding auth_read auth_is_done set_interest
auth_read-recorded w name pass rest status b got (rb, consumed, rv, left) c u v r same =
    let (sel, set_, agreed, kept) =
      selector_set_interest-IsUsed w.selector w.fd op_write_only c u in
    let (wb, run, wv, q, size) = auth_process-recorded (holding w name pass sel rb) v r in
    (
      sel,
      rb,
      wb,
      rw (auth_read, got, consumed, auth_is_done, set_interest, set_) (rw run refl),
      same,
      agreed,
      kept,
      rv,
      left,
      wv,
      q ∙ ap (λ st. contents w.conn.write_buffer ++ 1 ∷ st ∷ []) same,
      size,
    )

-- A parser that is not done yet needs more bytes to be.
unfinished :
    (p q : AuthParser) (rest : List ℕ)
    → auth_parse p [] ≡ (q, false, rest)
    → auth_is_done p.state ≡ false
    → auth_is_done q.state ≡ true
    → ⊥
unfolding parse
unfinished p q rest e n d =
    let same : p ≡ q = ap (λ t. t.0) e in let clash = rw (same, d) at n in cc

-- The event that receives the last byte of a client's credentials, wherever the events before have cut them,
-- answers them with the status that the accounts give.
pub auth_read-Serves :
    (w : World) (p : AuthParser) (name pass before rest : List ℕ)
    → 0 < length name
    → length name < 255
    → 0 < length pass
    → length pass < 255
    → NonZero name
    → NonZero pass
    → IsSound w.server.registry
    → IsConsistent w.selector
    → IsUsed w.selector w.fd
    → IsValid w.conn.write_buffer
    → 2 ≤ room w.conn.write_buffer
    → IsValid w.conn.read_buffer
    → contents w.conn.read_buffer ≡ []
    → auth_parse (auth_parser_init p) before ≡ (w.conn.auth, false, [])
    → auth_is_done w.conn.auth.state ≡ false
    → before ++ arriving w.os w.conn.read_buffer ≡ credentials name pass ++ rest
    → Serves w name pass rest (status_for name pass w.server.registry) (auth_read w)
unfolding auth_consume auth_is_done
auth_read-Serves w p name pass before rest h1 h2 h3 h4 nz mz sound c u wv r rv empty cut open_
      whole =
    let arrived = arriving w.os w.conn.read_buffer in
    let status = login_status-status_for name pass w.server.registry nz mz h2 h4 sound in
    let last : auth_parse w.conn.auth arrived ≡ (parsed name pass, false, rest) =
      parse-resumed auth_parser_feed (λ q. q.state) auth_is_done auth_is_error (auth_parser_init p)
        w.conn.auth false before arrived cut open_
      ∙ ap (auth_parse (auth_parser_init p)) whole
      ∙ auth_parse-credentials name pass rest p h1 (omega arith) h3 (omega arith) in
    elim (receive-cases w.os w.conn.read_buffer rv) [
      | inl (e, _) ↦
          absurd (unfinished w.conn.auth (parsed name pass) rest (rw e at last) open_ refl)
      | inr (b, got, bv, q) ↦
          let consumed =
            consume-Agrees_of_parse auth_parser_feed (λ q. q.state) auth_is_done auth_is_error b
              w.conn.auth false arrived (parsed name pass, false, rest) bv (rw empty at q) last in
          auth_read-recorded w name pass rest (status_for name pass w.server.registry) b got
            consumed c u wv r status
    ]
