-- ===== src/Admins/Service/Requests.antt =====
-- src/server/monitornio.c: what the connections of administrators may do to the server.

use socks_v5_proxy.Selector.{FdSelector, selector_set_interest}
use socks_v5_proxy.Monitor.Parser.{monitor_is_done, monitor_consume}
use socks_v5_proxy.Session.{op_write_only, receive}
use socks_v5_proxy.Buffer.{Buffer}
use socks_v5_proxy.Monitor.Types.{
  monitor_error, monitor_state_value, Monitor, Statics, MonitorParser,
}
use socks_v5_proxy.Admins.{monitor_is_admin}
use socks_v5_proxy.Admins.Process.{Server, is_written, monitor_process}
use socks_v5_proxy.Admins.Process.Guard.{decide-monitor_is_admin}
use socks_v5_proxy.Prelude.{
  leb, if◌then◌else◌, Bool-cases, Option-cases, ℤ, pos, >>=-eq-some, ℕ, ◌≡◌, ap, ◌∙◌, ◌⊎◌, inl, inr,
  true, none, some, List, arith,
}
use socks_v5_proxy.Monitor.Reply.{monitor_error_marshall, monitor_marshall}
use socks_v5_proxy.Admins.Service.{
  Service, connection_destroy, monitor_unregister, monitor_finish, monitor_answer, monitor_received,
  with_parse, monitor_read,
}

-- The end of a connection leaves the server as it is.
pub monitor_finish-server : (w w' : Service) → monitor_finish w ≡ some w' → w'.server ≡ w.server
unfolding monitor_finish monitor_unregister connection_destroy
monitor_finish-server w w' h = ground arith

written-server :
    (n : ℤ) (out out' : Server × Buffer)
    → (if is_written n then some out else none) ≡ some out'
    → out'.0 ≡ out.0
written-server n out out' h = let same : out' ≡ out = ground arith in ap (λ o. o.0) same

monitor_process-server :
    (scratch : List ℕ) (s s' : Server) (wb wb' : Buffer) (m : Monitor)
    → monitor_process scratch s wb m ≡ some (s', wb')
    → (s' ≡ s) ⊎ (monitor_is_admin m.token s.admin_table ≡ true)
unfolding monitor_process
monitor_process-server scratch s s' wb wb' m h =
    let ((n, b), _, g) = >>=-eq-some (monitor_marshall wb _ _ _) _ h in
    let decided = written-server n (_, b) (s', wb') g in
    elim (decide-monitor_is_admin scratch s m) [
      | inl (_, same, _, _) ↦ inl (decided ∙ same)
      | inr (admin, _) ↦ inr admin
    ]

-- What an answer leaves: the parser, and the server unless an administrator asked.
abbrev Guarded : Service → Service → Type 0
Guarded w w' =
    (w'.parser ≡ w.parser)
    × ((w'.server ≡ w.server)
        ⊎ (monitor_is_admin w.parser.monitor.token w.server.admin_table ≡ true))

error-Guarded :
    (w w' : Service) (n : ℤ) (b : Buffer)
    → (if is_written n then some (record w { write_buffer = b }) else none) ≡ some w'
    → Guarded w w'
error-Guarded w w' n b h = ground arith

process-Guarded :
    (w w' : Service) (s : Server) (b : Buffer)
    → some (record w { server = s; write_buffer = b }) ≡ some w'
    → (s ≡ w.server) ⊎ (monitor_is_admin w.parser.monitor.token w.server.admin_table ≡ true)
    → Guarded w w'
process-Guarded w w' s b h (inl e) = ground arith
process-Guarded w w' s b h (inr e) = ground arith

interest-Guarded :
    (w w1 w' : Service) (s : FdSelector ℕ ℕ)
    → Guarded w w1
    → some (record w1 { selector = s }) ≡ some w'
    → Guarded w w'
interest-Guarded w w1 w' s (p, inl e) h = ground arith
interest-Guarded w w1 w' s (p, inr e) h = ground arith

monitor_answer-Guarded : (w w' : Service) → monitor_answer w ≡ some w' → Guarded w w'
unfolding monitor_answer
monitor_answer-Guarded w w' h =
    elim (Bool-cases
      (leb (monitor_state_value monitor_error) (monitor_state_value w.parser.state))) [
        | inl e ↦
            let ((n, b), _, g) =
              >>=-eq-some (monitor_error_marshall w.write_buffer w.parser.state) _ (rw e at h) in
            error-Guarded w w' n b g
        | inr e ↦
            let ((s, b), q, g) =
              >>=-eq-some (monitor_process w.scratch w.server w.write_buffer w.parser.monitor) _
                (rw e at h) in
            process-Guarded w w' s b g
              (monitor_process-server w.scratch w.server s w.write_buffer b w.parser.monitor q)
      ]

monitor_received-Guarded : (w w' : Service) → monitor_received w ≡ some w' → Guarded w w'
unfolding monitor_received
monitor_received-Guarded w w' h = elim (Bool-cases (monitor_is_done (some w.parser.state))) [
  | inr more ↦ let same : some w ≡ some w' = rw more at h in ground arith
  | inl done ↦
      let (w1, a, g) = >>=-eq-some (monitor_answer w) _ (rw done at h) in
      let ((status, s), _, g') =
        >>=-eq-some (selector_set_interest w1.selector (pos w1.fd) op_write_only) _ g in
      interest-Guarded w w1 w' s (monitor_answer-Guarded w w1 a) g'
]

parsed-Guarded :
    (w w' : Service) (b : Buffer) (parsed : Statics × MonitorParser)
    → monitor_received (with_parse w b parsed) ≡ some w'
    → (w'.server ≡ w.server)
      ⊎ (monitor_is_admin w'.parser.monitor.token w.server.admin_table ≡ true)
parsed-Guarded w w' b (st, p) h =
    let (same, cases) = monitor_received-Guarded (with_parse w b (st, p)) w' h in
    elim cases [ inl e ↦ inl e | inr e ↦ inr (rw same e) ]

-- Whatever is received, an event of an administration connection changes the server only if the
-- request that it has parsed carries the token of an administrator.
pub monitor_read-monitor_is_admin :
    (w w' : Service)
    → monitor_read w ≡ some w'
    → (w'.server ≡ w.server)
      ⊎ (monitor_is_admin w'.parser.monitor.token w.server.admin_table ≡ true)
unfolding monitor_read
monitor_read-monitor_is_admin w w' h =
    let (r, _, g) = >>=-eq-some (receive w.os w.read_buffer) _ h in
    elim (Option-cases r) [
      | inl n ↦ inl (monitor_finish-server w w' (rw n at g))
      | inr (b, n) ↦
          let (c, _, g2) =
            >>=-eq-some (monitor_consume b (some (w.statics, w.parser))) _ (rw n at g) in
          let (parsed, _, g3) = >>=-eq-some (c.parser) _ g2 in
          parsed-Guarded w w' c.buffer parsed g3
    ]
