-- ===== src/Client/Service.antt =====
-- src/client/client.c, src/server/monitornio.c: what the server does with the request of a client that adds
-- a user of the proxy, from the option to the answer.
use socks_v5_proxy.Prelude.{
  length, All, ℕ, ◌+◌, ◌≤◌, ◌<◌, ◌≡◌, ap, ◌∙◌, inl, inr, true, false, some, List, [], ◌∷◌, ◌++◌,
  arith,
}
use socks_v5_proxy.Buffer.{IsValid, contents, room}
use socks_v5_proxy.Client.{ClientRequestArgs, request_sent}
use socks_v5_proxy.Client.Options.{parse_option, cleared_args}
use socks_v5_proxy.Client.Users.{adds_user}
use socks_v5_proxy.Client.Requests.{request_sent-Adds}
use socks_v5_proxy.Users.Accounts.{accounts, IsSound}
use socks_v5_proxy.Monitor.Types.{Statics, MonitorParser, monitor_parser_init, is_alnum}
use socks_v5_proxy.Monitor.Parser.{monitor_is_done}
use socks_v5_proxy.Monitor.Commands.{monitor_parse}
use socks_v5_proxy.Monitor.Deletion.{NonZero-of_alnum}
use socks_v5_proxy.Admins.{monitor_is_admin}
use socks_v5_proxy.Admins.Process.{outcome}
use socks_v5_proxy.Admins.Process.Enrolment.{accounts_after, status_after, monitor_process-addition}
use socks_v5_proxy.Admins.Service.{Service, monitor_read}
use socks_v5_proxy.Admins.Service.Deletions.{IsListed, monitor_read-served}
use socks_v5_proxy.Session.Streams.{arriving}

-- The client is run with `-u name:secret`, of letters and digits, a name that is not empty, less than 255
-- bytes together, and with the token of an administrator. The event of the server that receives the last of
-- its request, wherever the events before have cut it, on a connection that was not behind a separator, with
-- room for the answer: where the table of users is full or the name is taken the accounts stay and the
-- answer is a refusal; otherwise the account comes behind the others and the answer is a success. The
-- administrators are as they were.
pub monitor_read-Adds :
    (w : Service) (st : Statics) (p : MonitorParser) (args : ClientRequestArgs)
    (name secret token buffer before : List ℕ)
    → parse_option cleared_args (record { letter = b'u'; optarg = name ++ b':' ∷ secret })
      ≡ some args
    → length token ≡ 16
    → length buffer ≡ 65556
    → length st.combinedlen ≡ 2
    → p.separated ≡ false
    → All (λ x. is_alnum x ≡ true) name
    → All (λ x. is_alnum x ≡ true) secret
    → 0 < length name
    → length name + length secret < 255
    → monitor_is_admin token w.server.admin_table ≡ true
    → IsSound w.server.registry
    → IsListed w
    → IsValid w.write_buffer
    → 4 ≤ room w.write_buffer
    → IsValid w.read_buffer
    → contents w.read_buffer ≡ []
    → monitor_parse (some (st, monitor_parser_init p)) before
      ≡ (some (w.statics, w.parser), false, [])
    → monitor_is_done (some w.parser.state) ≡ false
    → before ++ arriving w.os w.read_buffer ≡ request_sent args token buffer
    → (w' : Service) × (monitor_read w ≡ some w')
      × IsSound w'.server.registry
      × (accounts w'.server.registry ≡ accounts_after name secret w.server.registry)
      × (w'.server.admin_table ≡ w.server.admin_table)
      × (contents w'.write_buffer
          ≡ contents w.write_buffer ++ status_after name w.server.registry ∷ 0 ∷ 1 ∷ 0 ∷ [])
monitor_read-Adds w st p args name secret token buffer before made h1 h2 h3 h4 h5 h6 h7 h8 admin
      sound l v r rv empty cut open_ whole =
    let (args', made', outcome) =
      request_sent-Adds b'u' 1 name secret token buffer st p (adds_user (omega arith)) h1 h2 h3 h4
        h5 h6 h7 (omega arith) in
    let same_args : args' ≡ args = cc in
    elim outcome [
      | inr (over, _) ↦ absurd (omega arith)
      | inl (short, (st', q, run, done, tok, method, target, first, second, _)) ↦
          let (s', wb', served, sound', listed, admins, _, answer) =
            monitor_process-addition w.scratch w.server w.write_buffer q.monitor name secret
              (rw tok admin) method target first second (NonZero-of_alnum name h5, omega arith)
              (NonZero-of_alnum secret h6, omega arith) sound v r in
          let (w', read_, srv, buf) =
            monitor_read-served w st st' p q before (request_sent args token buffer) s' wb'
              (rw (← same_args) run) done served l rv empty cut open_ whole in
          (
            w',
            read_,
            rw srv sound',
            ap (λ x. accounts x.registry) srv ∙ listed,
            ap (λ x. x.admin_table) srv ∙ admins,
            ap contents buf ∙ answer,
          )
    ]
