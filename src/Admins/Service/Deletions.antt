-- ===== src/Admins/Service/Deletions.antt =====
-- src/server/monitornio.c: a request of an administrator through the connection that it comes in on.

use socks_v5_proxy.Consume.{parse}
use socks_v5_proxy.Prelude.{
  if◌then◌else◌, length, All, ℕ, ◌+◌, ◌*◌, ◌≤◌, ◌<◌, ◌≡◌, refl, sym, ap, ◌∙◌, inl, inr, true, false,
  some, List, [], ◌∷◌, ◌++◌,
}
use socks_v5_proxy.Buffer.{Buffer, IsValid, contents, room}
use socks_v5_proxy.Consume.Stream.{parse-append, consume-Agrees_of_parse}
use socks_v5_proxy.Users.Accounts.{accounts, has_name, remove_name, IsSound}
use socks_v5_proxy.Selector.{FdSelector, items_max_size}
use socks_v5_proxy.Selector.Consistency.{IsConsistent}
use socks_v5_proxy.Selector.Operations.{selector_set_interest-IsConsistent}
use socks_v5_proxy.Monitor.Types.{
  monitor_done, Statics, MonitorParser, monitor_parser_init, is_alnum,
}
use socks_v5_proxy.Monitor.Parser.{
  Connection, monitor_parser_feed, connection_state, monitor_is_done, monitor_consume,
}
use socks_v5_proxy.Monitor.Reply.{monitor_status_succeeded, monitor_status_invalid_data}
use socks_v5_proxy.Monitor.Commands.{monitor_parse}
use socks_v5_proxy.Monitor.Deletion.{deletion}
use socks_v5_proxy.Admins.{monitor_is_admin}
use socks_v5_proxy.Admins.Process.{Server, monitor_process}
use socks_v5_proxy.Admins.Process.Guard.{monitor_process-deletion}
use socks_v5_proxy.Session.{op_write_only}
use socks_v5_proxy.Session.Streams.{arriving, receive-cases}
use socks_v5_proxy.Admins.Service.{
  Service, monitor_answer, monitor_received, with_parse, monitor_read,
}

-- The event's descriptor is one that the table has room for.
pub record IsListed (w : Service) : Type 0 where
  pub consistent : IsConsistent w.selector
  pub small : w.fd < items_max_size
  pub inside : w.fd < length w.selector.fds

-- A request that is parsed without an error is processed, and the answer is waited for.
monitor_received-done :
    (w : Service) (s : Server) (b : Buffer)
    → w.parser.state ≡ monitor_done
    → monitor_process w.scratch w.server w.write_buffer w.parser.monitor ≡ some (s, b)
    → IsListed w
    → (sel : FdSelector ℕ ℕ) × (monitor_received w
        ≡ some (record w { server = s; write_buffer = b; selector = sel }))
unfolding monitor_received monitor_is_done monitor_answer
monitor_received-done w s b d e l =
    let (st, sel, q, _, _) =
      selector_set_interest-IsConsistent w.selector w.fd op_write_only l.consistent l.small
        l.inside in
    (sel, rw (d, e, q) refl)

-- The bytes that arrive end the parse that the events before have begun.
rest_of_parse :
    (k k' k'' : Connection) (before rest : List ℕ)
    → monitor_parse k before ≡ (k', false, [])
    → monitor_is_done (connection_state k') ≡ false
    → monitor_parse k (before ++ rest) ≡ (k'', false, [])
    → monitor_parse k' rest ≡ (k'', false, [])
rest_of_parse k k' k'' before rest h n e =
    let (_, more) =
      parse-append monitor_parser_feed connection_state monitor_is_done (λ st. false) k false before
        rest (rw h n) in
    sym (rw h at more) ∙ e

-- A parse that is not done does not end without a byte.
not_without_bytes :
    (k : Connection) (st : Statics) (q : MonitorParser)
    → monitor_parse k [] ≡ (some (st, q), false, [])
    → monitor_is_done (connection_state k) ≡ false
    → q.state ≡ monitor_done
    → ⊥
unfolding parse monitor_is_done
not_without_bytes k st q e n d =
    let same : k ≡ some (st, q) = ap (λ t. t.0) e in let clash = rw (same, d) at n in cc

-- An event that receives the last of a request which is parsed without an error, wherever the events before
-- have cut it, leaves the server and the answer that the processing of the request gives.
pub monitor_read-served :
    (w : Service) (st st' : Statics) (p q : MonitorParser) (before request : List ℕ) (s' : Server)
    (wb' : Buffer)
    → monitor_parse (some (st, monitor_parser_init p)) request ≡ (some (st', q), false, [])
    → q.state ≡ monitor_done
    → monitor_process w.scratch w.server w.write_buffer q.monitor ≡ some (s', wb')
    → IsListed w
    → IsValid w.read_buffer
    → contents w.read_buffer ≡ []
    → monitor_parse (some (st, monitor_parser_init p)) before
      ≡ (some (w.statics, w.parser), false, [])
    → monitor_is_done (some w.parser.state) ≡ false
    → before ++ arriving w.os w.read_buffer ≡ request
    → (w' : Service) × (monitor_read w ≡ some w') × (w'.server ≡ s') × (w'.write_buffer ≡ wb')
unfolding monitor_read monitor_consume
monitor_read-served w st st' p q before request s' wb' run done served l rv empty cut open_ whole =
    let whole_parse : monitor_parse (some (st, monitor_parser_init p))
          (before ++ arriving w.os w.read_buffer)
        ≡ (some (st', q), false, []) =
      rw whole run in
    let rest =
      rest_of_parse (some (st, monitor_parser_init p)) (some (w.statics, w.parser)) (some (st', q))
        before (arriving w.os w.read_buffer) cut open_ whole_parse in
    elim (receive-cases w.os w.read_buffer rv) [
      | inl (e, _) ↦
          absurd (not_without_bytes (some (w.statics, w.parser)) st' q (rw e at rest) open_ done)
      | inr (b, got, bv, c) ↦
          let (b2, parsed, _, _) =
            consume-Agrees_of_parse monitor_parser_feed connection_state monitor_is_done
              (λ st. false) b (some (w.statics, w.parser)) false (arriving w.os w.read_buffer)
              (some (st', q), false, []) bv (rw empty at c) rest in
          let w1 : Service = with_parse w b2 (st', q) in
          let (sel, out) =
            monitor_received-done w1 s' wb' done served
              (record { consistent = l.consistent; small = l.small; inside = l.inside }) in
          (
            record w1 { server = s'; write_buffer = wb'; selector = sel },
            rw (got, parsed) out,
            refl,
            refl,
          )
    ]

-- A request to delete a user of the proxy, with an administrator's token of 16 bytes and a name of 1 to
-- 511 letters and digits, is served by the event that receives the last of it, wherever the events
-- before have cut it: the accounts are left without the first of that name, the administrators as they
-- were, and the answer is in the buffer.
pub monitor_read-deletion :
    (w : Service) (st : Statics) (p : MonitorParser) (tok name before : List ℕ) (hi lo : ℕ)
    → length tok ≡ 16
    → length st.combinedlen ≡ 2
    → All (λ c. is_alnum c ≡ true) name
    → 0 < length name
    → hi * 256 + lo ≡ length name
    → length name < 512
    → monitor_is_admin tok w.server.admin_table ≡ true
    → IsSound w.server.registry
    → IsListed w
    → IsValid w.write_buffer
    → 4 ≤ room w.write_buffer
    → IsValid w.read_buffer
    → contents w.read_buffer ≡ []
    → monitor_parse (some (st, monitor_parser_init p)) before
      ≡ (some (w.statics, w.parser), false, [])
    → monitor_is_done (some w.parser.state) ≡ false
    → before ++ arriving w.os w.read_buffer ≡ deletion tok 2 hi lo name
    → (w' : Service) × (monitor_read w ≡ some w')
      × (accounts w'.server.registry ≡ remove_name name (accounts w.server.registry))
      × (w'.server.admin_table ≡ w.server.admin_table)
      × (contents w'.write_buffer
          ≡ contents w.write_buffer
            ++ (if has_name name (accounts w.server.registry)
                then monitor_status_succeeded
                else monitor_status_invalid_data)
              ∷ 0
              ∷ 1
              ∷ 0
              ∷ [])
monitor_read-deletion w st p tok name before hi lo h1 h2 h3 h4 h5 h6 h7 h8 l v r rv empty cut open_
      whole =
    let (st', q, s', wb', run, done, served, _, left, same, _, answer) =
      monitor_process-deletion st p tok name hi lo w.scratch w.server w.write_buffer h1 h2 h3 h4 h5
        h6 h7 h8 v r in
    let (w', read_, srv, buf) =
      monitor_read-served w st st' p q before (deletion tok 2 hi lo name) s' wb' run done served l
        rv empty cut open_ whole in
    (
      w',
      read_,
      ap (λ x. accounts x.registry) srv ∙ left,
      ap (λ x. x.admin_table) srv ∙ same,
      ap contents buf ∙ answer,
    )
