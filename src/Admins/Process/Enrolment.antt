-- ===== src/Admins/Process/Enrolment.antt =====
-- src/server/monitornio.c: a request that adds a user of the proxy.
use socks_v5_proxy.Prelude.{
  leb, if◌then◌else◌, drop, c_string, ℕ, ◌≤◌, ◌≡◌, refl, ap, ap₂, ◌∙◌, inl, inr, Bool, true, false,
  ◌||◌, some, List, [], ◌∷◌, ◌++◌, arith,
}
use socks_v5_proxy.Buffer.{Buffer, IsValid, contents, room}
use socks_v5_proxy.Users.{max_users, Registry, socksv5_register_user}
use socks_v5_proxy.Users.Accounts.{Account, accounts, has_name, IsShort, IsSound}
use socks_v5_proxy.Users.Registration.{socksv5_register_user_lem}
use socks_v5_proxy.Monitor.Types.{Monitor}
use socks_v5_proxy.Monitor.Reply.{
  monitor_status_succeeded, monitor_status_invalid_data, network_short, payload_bytes,
}
use socks_v5_proxy.Admins.{monitor_is_admin}
use socks_v5_proxy.Admins.Process.{
  Server, with_registry, first_string, second_string, process_config, decide, final_status,
  monitor_process,
}
use socks_v5_proxy.Admins.Process.Guard.{monitor_process-reply}

-- What a parsed request to add a user of the proxy decides.
decide-add :
    (scratch : List ℕ) (s : Server) (m : Monitor)
    → monitor_is_admin m.token s.admin_table ≡ true
    → m.method ≡ 1
    → m.target ≡ 1
    → decide scratch s m
      ≡ with_registry s (socksv5_register_user (first_string m) (second_string m) s.registry)
unfolding decide process_config
decide-add scratch s m a e t = rw (a, e, t) refl

-- Whether a name is not added: the table is full, or the name is taken.
abbrev pub is_refused : List ℕ → Registry → Bool
is_refused name r = leb max_users r.registered_users || has_name name (accounts r)

abbrev pub accounts_after : List ℕ → List ℕ → Registry → List Account
accounts_after name secret r =
    if is_refused name r then accounts r else accounts r ++ (name, secret) ∷ []

abbrev pub status_after : List ℕ → Registry → ℕ
status_after name r =
    if is_refused name r then monitor_status_invalid_data else monitor_status_succeeded

registered-after :
    (name secret : List ℕ) (s : Server)
    → IsSound s.registry
    → IsShort name
    → IsShort secret
    → let change = socksv5_register_user name secret s.registry in
      IsSound change.1
      × (accounts change.1 ≡ accounts_after name secret s.registry)
      × (final_status (with_registry s change) ≡ status_after name s.registry)
registered-after name secret s sound n p =
    let (sound', cases) = socksv5_register_user_lem name secret s.registry sound n p in
    elim cases [
      | inl (full, code, same) ↦
          let test : leb max_users s.registry.registered_users ≡ true = ground arith in
          (sound', rw test (ap accounts same), rw (code, test) refl)
      | inr (inl (free, known, code, same)) ↦
          let test : leb max_users s.registry.registered_users ≡ false = ground arith in
          (sound', rw (test, known) (ap accounts same), rw (code, test, known) refl)
      | inr (inr (free, new, code, grown)) ↦
          let test : leb max_users s.registry.registered_users ≡ false = ground arith in
          (sound', rw (test, new) grown, rw (code, test, new) refl)
    ]

-- Where a parsed request of an administrator is to add a user of the proxy, whose name and password have
-- less than 255 bytes, none of them 0, and there is room for the answer of four bytes: with the table full
-- or the name taken the accounts stay and the answer is a refusal; otherwise the account comes behind the
-- others and the answer is a success.
pub monitor_process-addition :
    (scratch : List ℕ) (s : Server) (wb : Buffer) (m : Monitor) (name secret : List ℕ)
    → monitor_is_admin m.token s.admin_table ≡ true
    → m.method ≡ 1
    → m.target ≡ 1
    → c_string m.union_data ≡ name
    → c_string (drop 256 m.union_data) ≡ secret
    → IsShort name
    → IsShort secret
    → IsSound s.registry
    → IsValid wb
    → 4 ≤ room wb
    → (s' : Server) × (wb' : Buffer) × (monitor_process scratch s wb m ≡ some (s', wb'))
      × IsSound s'.registry
      × (accounts s'.registry ≡ accounts_after name secret s.registry)
      × (s'.admin_table ≡ s.admin_table)
      × IsValid wb'
      × (contents wb' ≡ contents wb ++ status_after name s.registry ∷ 0 ∷ 1 ∷ 0 ∷ [])
monitor_process-addition scratch s wb m name secret admin method target first second n p sound v
      room_ =
    let change = socksv5_register_user name secret s.registry in
    let chosen : decide scratch s m ≡ with_registry s change =
      decide-add scratch s m admin method target
      ∙ ap₂ (λ a b. with_registry s (socksv5_register_user a b s.registry)) first second in
    let (sound', listed, status) = registered-after name secret s sound n p in
    let (wb', out, valid, sent) =
      monitor_process-reply scratch s wb m v (rw chosen (omega arith)) (rw chosen refl)
        (rw chosen (omega arith)) in
    (
      (decide scratch s m).server,
      wb',
      out,
      rw chosen sound',
      rw chosen listed,
      rw chosen refl,
      valid,
      sent
          ∙ ap
              (λ o.
                contents wb
                ++ (final_status o
                    ∷ (network_short o.reply_len ++ payload_bytes o.payload o.reply_len)))
              chosen
          ∙ ap (λ k. contents wb ++ k ∷ 0 ∷ 1 ∷ 0 ∷ []) status,
    )
