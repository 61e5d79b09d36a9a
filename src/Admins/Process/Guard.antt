-- ===== src/Admins/Process/Guard.antt =====
-- src/server/monitornio.c: what a request may change, and whose request may.

use socks_v5_proxy.Users.{socksv5_unregister_user}
use socks_v5_proxy.Users.Accounts.{Account, accounts, has_name, remove_name, IsSound}
use socks_v5_proxy.Users.Registration.{socksv5_unregister_user_lem}
use socks_v5_proxy.Monitor.Commands.{monitor_parse}
use socks_v5_proxy.Monitor.Deletion.{deletion, monitor_parse-deletion}
use socks_v5_proxy.Prelude.{
  ◌==◌, if◌then◌else◌, Bool-cases, length, All, bytes_eq, ℕ, ◌+◌, ◌*◌, ◌≤◌, ◌<◌, ◌≡◌, refl, sym, ap,
  ◌∙◌, ◌≢◌, ◌⊎◌, inl, inr, true, false, some, List, [], ◌∷◌, ◌++◌, arith,
}
use socks_v5_proxy.Buffer.{Buffer, IsValid, contents, room}
use socks_v5_proxy.Monitor.Types.{
  monitor_done, monitor_method_get, monitor_method_config, Monitor, Statics, MonitorParser,
  monitor_parser_init, is_alnum,
}
use socks_v5_proxy.Monitor.Reply.{
  monitor_status_succeeded, monitor_status_invalid_data, monitor_status_error_auth, network_short,
  null, payload_bytes, monitor_marshall-Marshalls,
}
use socks_v5_proxy.Admins.{monitor_is_admin}
use socks_v5_proxy.Admins.Process.{
  Server, Outcome, process_get, with_registry, first_string, process_config, decide, final_status,
  monitor_process,
}

-- With room for the reply, it is appended, and the server is the one that was decided on.
pub monitor_process-reply :
    (scratch : List ℕ) (s : Server) (wb : Buffer) (m : Monitor)
    → IsValid wb
    → let o = decide scratch s m in
      o.reply_len < 65536
      → length (payload_bytes o.payload o.reply_len) ≡ o.reply_len
      → o.reply_len + 3 ≤ room wb
      → (wb' : Buffer) × (monitor_process scratch s wb m ≡ some (o.server, wb'))
        × IsValid wb'
        × (contents wb'
            ≡ contents wb
              ++ (final_status o
                  ∷ (network_short o.reply_len ++ payload_bytes o.payload o.reply_len)))
unfolding monitor_process
monitor_process-reply scratch s wb m v l e r =
    let o = decide scratch s m in
    elim ((monitor_marshall-Marshalls {b = wb} (final_status o) o.reply_len o.payload v l e).0) [
      | inl (small, _) ↦ absurd (omega arith)
      | inr (_, (wb', q, v', c, _)) ↦ (wb', rw q refl, v', c)
    ]

final_status-other :
    (o : Outcome)
    → o.status ≢ monitor_status_error_auth
    → final_status o ≢ monitor_status_error_auth
final_status-other o h = ground arith

process_get-status :
    (scratch : List ℕ) (s : Server) (m : Monitor)
    → (process_get scratch s m).status ≢ monitor_status_error_auth
unfolding process_get
process_get-status scratch s m = ground arith

process_config-status :
    (s : Server) (m : Monitor) → (process_config s m).status ≢ monitor_status_error_auth
unfolding process_config
process_config-status s m = ground arith

-- A request whose token is no administrator's changes nothing and is answered with the status for
-- that; no other request is answered with that status.
pub decide-monitor_is_admin :
    (scratch : List ℕ) (s : Server) (m : Monitor)
    → let o = decide scratch s m in
      ((monitor_is_admin m.token s.admin_table ≡ false)
        × (o.server ≡ s)
        × (o.payload ≡ null)
        × (final_status o ≡ monitor_status_error_auth))
      ⊎ ((monitor_is_admin m.token s.admin_table ≡ true)
          × (final_status o ≢ monitor_status_error_auth))
unfolding decide
decide-monitor_is_admin scratch s m = elim (Bool-cases (monitor_is_admin m.token s.admin_table)) [
  | inl e ↦ elim (Bool-cases (m.method == monitor_method_get)) [
    | inl g ↦
        rw (e, g)
          (inr
            (refl, final_status-other (process_get scratch s m) (process_get-status scratch s m)))
    | inr g ↦ elim (Bool-cases (m.method == monitor_method_config)) [
      | inl c ↦
          rw (e, g, c)
            (inr (refl, final_status-other (process_config s m) (process_config-status s m)))
      | inr c ↦ rw (e, g, c) (inr (refl, λ k. ground arith))
    ]
  ]
  | inr e ↦ rw e (inl (refl, refl, refl, refl))
]

-- A request that asks changes nothing.
pub decide-get :
    (scratch : List ℕ) (s : Server) (m : Monitor)
    → m.method ≡ monitor_method_get
    → (decide scratch s m).server ≡ s
unfolding decide process_get
decide-get scratch s m h = ground arith

remove_name-absent :
    (name : List ℕ) (cs : List Account) → has_name name cs ≡ false → remove_name name cs ≡ cs
remove_name-absent name [] h = refl
remove_name-absent name (a ∷ cs) h =
    let split : (bytes_eq name a.0 ≡ false) × (has_name name cs ≡ false) = ground arith in
    rw (split.0) (ap (λ r. a ∷ r) (remove_name-absent name cs split.1))

-- What a parsed request to delete a user of the proxy decides.
decide-delete :
    (scratch : List ℕ) (s : Server) (m : Monitor)
    → monitor_is_admin m.token s.admin_table ≡ true
    → m.method ≡ 1
    → m.target ≡ 2
    → decide scratch s m ≡ with_registry s (socksv5_unregister_user (first_string m) s.registry)
unfolding decide process_config
decide-delete scratch s m a e t = rw (a, e, t) refl

-- A request to delete a user of the proxy, with an administrator's token of 16 bytes and a name of 1 to
-- 511 letters and digits, is parsed to the end, and processing it, with room for four bytes, answers
-- and leaves the accounts without the first of that name, and the administrators as they were.
pub monitor_process-deletion :
    (st : Statics) (p : MonitorParser) (tok name : List ℕ) (hi lo : ℕ) (scratch : List ℕ)
    (s : Server) (wb : Buffer)
    → length tok ≡ 16
    → length st.combinedlen ≡ 2
    → All (λ c. is_alnum c ≡ true) name
    → 0 < length name
    → hi * 256 + lo ≡ length name
    → length name < 512
    → monitor_is_admin tok s.admin_table ≡ true
    → IsSound s.registry
    → IsValid wb
    → 4 ≤ room wb
    → (st' : Statics) × (q : MonitorParser) × (s' : Server) × (wb' : Buffer) × (monitor_parse
          (some (st, monitor_parser_init p))
          (deletion tok 2 hi lo name)
        ≡ (some (st', q), false, []))
      × (q.state ≡ monitor_done)
      × (monitor_process scratch s wb q.monitor ≡ some (s', wb'))
      × IsSound s'.registry
      × (accounts s'.registry ≡ remove_name name (accounts s.registry))
      × (s'.admin_table ≡ s.admin_table)
      × IsValid wb'
      × (contents wb'
          ≡ contents wb
            ++ (if has_name name (accounts s.registry)
                then monitor_status_succeeded
                else monitor_status_invalid_data)
              ∷ 0
              ∷ 1
              ∷ 0
              ∷ [])
monitor_process-deletion st p tok name hi lo scratch s wb h1 h2 h3 h4 h5 h6 h7 h8 h9 h10 =
    let (st', q, run, done, same, method, target, string) =
      monitor_parse-deletion st p tok name 2 hi lo h1 h2 (inl refl) h3 h4 h5 h6 in
    let change = socksv5_unregister_user (first_string q.monitor) s.registry in
    let chosen : decide scratch s q.monitor ≡ with_registry s change =
      decide-delete scratch s q.monitor (rw same h7) method target in
    let (sound, cases) = socksv5_unregister_user_lem (first_string q.monitor) s.registry h8 in
    let (wb', out, valid, sent) =
      monitor_process-reply scratch s wb q.monitor h9 (rw chosen (omega arith)) (rw chosen refl)
        (rw chosen (omega arith)) in
    let (result, answer) : (accounts (change.1) ≡ remove_name name (accounts s.registry))
        × (final_status (with_registry s change) ≡ (
            if has_name name (accounts s.registry)
            then monitor_status_succeeded
            else monitor_status_invalid_data)) =
      elim cases [
        | inl (absent, code, same_table) ↦
            let absent' : has_name name (accounts s.registry) ≡ false = rw (← string) absent in
            (
              ap accounts same_table ∙ sym (remove_name-absent name (accounts s.registry) absent'),
              rw (code, absent') refl,
            )
        | inr (present, code, r) ↦
            let present' : has_name name (accounts s.registry) ≡ true = rw (← string) present in
            (r ∙ ap (λ n. remove_name n (accounts s.registry)) string, rw (code, present') refl)
      ] in
    (
      st',
      q,
      (decide scratch s q.monitor).server,
      wb',
      run,
      done,
      out,
      rw chosen sound,
      rw chosen result,
      rw chosen refl,
      valid,
      sent
          ∙ ap
              (λ o.
                contents wb
                ++ (final_status o
                    ∷ (network_short o.reply_len ++ payload_bytes o.payload o.reply_len)))
              chosen
          ∙ ap (λ n. contents wb ++ n ∷ 0 ∷ 1 ∷ 0 ∷ []) answer,
    )
