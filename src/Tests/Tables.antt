-- ===== src/Tests/Tables.antt =====
-- The sniffer, the administration protocol and the table of users, at concrete inputs.

use socks_v5_proxy.Prelude.{
  drop, replicate, All, c_string, pos, negsuc, ℕ, zero, suc, ◌<◌, ◌≡◌, refl, ◌≢◌, ◌⊎◌, inr, true,
  false, none, some, List, [], ◌∷◌, arith,
}
use socks_v5_proxy.Disector.{
  disector_wait_pop, disector_user, disector_response, DisectorParser, disector_consume,
}
use socks_v5_proxy.Disector.Capture.{sniffing, login, disector_consume-login}
use socks_v5_proxy.Monitor.Types.{
  monitor_done, Statics, MonitorParser, cleared_monitor, monitor_parser_init, is_alnum,
}
use socks_v5_proxy.Monitor.Commands.{monitor_parse}
use socks_v5_proxy.Monitor.Deletion.{deletion, monitor_parse-deletion_fault}
use socks_v5_proxy.Users.{max_users, Registry, socksv5_register_user, socksv5_unregister_user}
use socks_v5_proxy.Users.Accounts.{accounts, has_name, remove_name, IsShort, IsSound}
use socks_v5_proxy.Users.Registration.{socksv5_register_user_lem, socksv5_unregister_user_lem}

disector_consume-login_example :
    (p : DisectorParser) × (disector_consume
        (sniffing (replicate 513 0) disector_user 0)
        (login (97 ∷ []) (98 ∷ 99 ∷ []))
      ≡ some (disector_response, p))
    × (p.state ≡ disector_response)
    × (p.i ≡ 0)
    × (c_string p.disector ≡ 32 ∷ 97 ∷ [])
    × (c_string (drop 255 p.disector) ≡ 32 ∷ 98 ∷ 99 ∷ [])
disector_consume-login_example =
    disector_consume-login (replicate 513 0) (97 ∷ []) (98 ∷ 99 ∷ []) refl
      ((λ e. omega arith, tt), (λ e. omega arith, tt))
      ((λ e. omega arith, (λ e. omega arith, tt)), (λ e. omega arith, (λ e. omega arith, tt)))
      (omega arith) (omega arith)

-- Waiting for "+OK", one byte matched.
abbrev waiting : DisectorParser
waiting = sniffing [] disector_wait_pop 1

abbrev statics : Statics
statics = record { combinedlen = 0 ∷ 0 ∷ []; username_len_with_null = 0 }

abbrev monitor_start : MonitorParser
monitor_start = record {
  monitor = cleared_monitor;
  state = monitor_done;
  len = 16;
  i = 16;
  separated = false;
}

abbrev sixteen : List ℕ
sixteen = replicate 16 65

abbrev long_name : List ℕ
long_name = replicate 512 97

replicate-AllAlnum : (n : ℕ) → All (λ c. is_alnum c ≡ true) (replicate n 97)
replicate-AllAlnum zero = tt
replicate-AllAlnum (suc n) = (refl, replicate-AllAlnum n)

monitor_parse-deletion_fault_example :
    (monitor_parse
      (some (statics, monitor_parser_init monitor_start))
      (deletion sixteen 4 2 0 long_name)).0
    ≡ none
monitor_parse-deletion_fault_example =
    monitor_parse-deletion_fault statics monitor_start sixteen long_name 4 2 0 refl refl (inr refl)
      (replicate-AllAlnum 512) refl (omega arith)

abbrev empty_registry : Registry
empty_registry = record {
  users = replicate 10 (record { uname = replicate 255 0; passwd = replicate 255 0 });
  registered_users = 0;
}

empty_registry-IsSound : IsSound empty_registry
empty_registry-IsSound = record {
  table = refl;
  count = omega arith;
  terminated = tt;
  distinct = tt;
}

short : (c : ℕ) → c ≢ 0 → IsShort (c ∷ [])
short c h = ((h, tt), omega arith)

abbrev pub one_user : Registry
one_user = (socksv5_register_user (97 ∷ []) (98 ∷ []) empty_registry).1

socksv5_register_user_lem_example :
    let (code, r') = socksv5_register_user (97 ∷ []) (98 ∷ []) empty_registry in
    IsSound r'
    × (((empty_registry.registered_users ≡ max_users) × (code ≡ pos 1) × (r' ≡ empty_registry))
        ⊎ (((empty_registry.registered_users < max_users)
              × (has_name (97 ∷ []) (accounts empty_registry) ≡ true)
              × (code ≡ negsuc 0)
              × (r' ≡ empty_registry))
            ⊎ ((empty_registry.registered_users < max_users)
                × (has_name (97 ∷ []) (accounts empty_registry) ≡ false)
                × (code ≡ pos 0)
                × (accounts r' ≡ (97 ∷ [], 98 ∷ []) ∷ []))))
socksv5_register_user_lem_example =
    socksv5_register_user_lem (97 ∷ []) (98 ∷ []) empty_registry empty_registry-IsSound
      (short 97 (λ e. omega arith)) (short 98 (λ e. omega arith))

pub one_user-IsSound : IsSound one_user
one_user-IsSound =
    (socksv5_register_user_lem (97 ∷ []) (98 ∷ []) empty_registry empty_registry-IsSound
      (short 97 (λ e. omega arith)) (short 98 (λ e. omega arith))).0

socksv5_unregister_user_lem_example :
    let (code, r') = socksv5_unregister_user (97 ∷ []) one_user in
    IsSound r'
    × (((has_name (97 ∷ []) (accounts one_user) ≡ false) × (code ≡ negsuc 0) × (r' ≡ one_user))
        ⊎ ((has_name (97 ∷ []) (accounts one_user) ≡ true)
            × (code ≡ pos 0)
            × (accounts r' ≡ remove_name (97 ∷ []) (accounts one_user))))
socksv5_unregister_user_lem_example =
    socksv5_unregister_user_lem (97 ∷ []) one_user one_user-IsSound
