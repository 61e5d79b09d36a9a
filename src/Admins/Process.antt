-- ===== src/Admins/Process.antt =====
-- src/server/monitornio.c: `monitor_process`, and the three settings that it reaches in
-- src/server/socks5nio.c.
-- The numbers of connections and bytes are fields. `scratch` is the array `usernames`, with any
-- contents. A block that `malloc(0)` gives is not NULL.
pub mod Guard
pub mod Enrolment
use socks_v5_proxy.Prelude.{
  ◌==◌, if◌then◌else◌, take, drop, c_string, bytes_eq, ℤ, pos, negsuc, ◌>>=◌, ℕ, Bool, true, false,
  Option, none, some, List, [], ◌∷◌,
}
use socks_v5_proxy.Buffer.{Buffer}
use socks_v5_proxy.Users.{
  Registry, socksv5_register_user, socksv5_unregister_user, socksv5_get_users,
}
use socks_v5_proxy.Monitor.Types.{
  monitor_method_get, monitor_method_config, target_config_pop3disector,
  target_config_add_proxyuser, target_config_delete_proxyuser, target_config_add_admin,
  target_config_delete_admin, Monitor,
}
use socks_v5_proxy.Monitor.Reply.{
  monitor_status_succeeded, monitor_status_invalid_method, monitor_status_invalid_target,
  monitor_status_invalid_data, monitor_status_error_auth, Payload, number, null, bytes_of,
  monitor_marshall,
}
use socks_v5_proxy.Admins.{
  AdminTable, monitor_register_admin, monitor_unregister_admin, monitor_get_admins,
  monitor_is_admin,
}

pub record Server : Type 0 where
  pub registry : Registry
  pub admin_table : AdminTable
  pub is_disector_on : Bool
  pub current_connections : ℕ
  pub historic_connections : ℕ
  pub bytes_transferred : ℕ

-- `status`, `dlen`, the data, `error_response` and the server as they stand at `finally`.
pub record Outcome : Type 0 where
  pub status : ℕ
  pub reply_len : ℕ
  pub payload : Payload
  pub error_response : ℤ
  pub server : Server

-- What is set before the first test, with the status that is chosen later.
abbrev pub outcome : Server → ℕ → Outcome
outcome s st = record {
  status = st;
  reply_len = 1;
  payload = null;
  error_response = pos 0;
  server = s;
}

abbrev pub with_number : Server → ℕ → Outcome
with_number s n = record (outcome s monitor_status_succeeded) { reply_len = 4; payload = number n }

abbrev pub with_bytes : Server → List ℕ × ℕ → Outcome
with_bytes s (out, dlen) = record (outcome s monitor_status_succeeded) {
  reply_len = dlen;
  payload = bytes_of (take dlen out);
}

unfoldable pub process_get : List ℕ → Server → Monitor → Outcome
process_get scratch s m =
    if m.target == 1
    then with_number s s.current_connections
    else if m.target == 0
    then with_number s s.historic_connections
    else if m.target == 2
    then with_number s s.bytes_transferred
    else if m.target == 3
    then with_bytes s (socksv5_get_users s.registry scratch)
    else if m.target == 4
    then with_bytes s (monitor_get_admins s.admin_table scratch)
    else outcome s monitor_status_invalid_target

abbrev pub with_registry : Server → ℤ × Registry → Outcome
with_registry s (code, r) = record (outcome (record s { registry = r }) monitor_status_succeeded) {
  error_response = code;
}

abbrev pub with_admins : Server → ℤ × AdminTable → Outcome
with_admins s (code, t) = record (outcome (record s { admin_table = t }) monitor_status_succeeded) {
  error_response = code;
}

-- The strings in the union: `user`, and `pass` or `token`.
abbrev pub first_string : Monitor → List ℕ
first_string m = c_string m.union_data

abbrev pub second_string : Monitor → List ℕ
second_string m = c_string (drop 256 m.union_data)

-- The enumeration in the first four bytes is `disector_on`.
abbrev pub asks_on : Monitor → Bool
asks_on m = bytes_eq (take 4 m.union_data) (1 ∷ 0 ∷ 0 ∷ 0 ∷ [])

unfoldable pub process_config : Server → Monitor → Outcome
process_config s m =
    if m.target == target_config_pop3disector
    then outcome (record s { is_disector_on = asks_on m }) monitor_status_succeeded
    else if m.target == target_config_add_proxyuser
    then with_registry s (socksv5_register_user (first_string m) (second_string m) s.registry)
    else if m.target == target_config_delete_proxyuser
    then with_registry s (socksv5_unregister_user (first_string m) s.registry)
    else if m.target == target_config_add_admin
    then with_admins s (monitor_register_admin (first_string m) (second_string m) s.admin_table)
    else if m.target == target_config_delete_admin
    then with_admins s (monitor_unregister_admin (first_string m) s.admin_table)
    else outcome s monitor_status_invalid_target

-- The tests up to `finally`.
unfoldable pub decide : List ℕ → Server → Monitor → Outcome
decide scratch s m =
    if monitor_is_admin m.token s.admin_table
    then (if m.method == monitor_method_get
        then process_get scratch s m
        else if m.method == monitor_method_config
        then process_config s m
        else outcome s monitor_status_invalid_method)
    else outcome s monitor_status_error_auth

abbrev pub is_zero : ℤ → Bool
is_zero (pos n) = n == 0
is_zero (negsuc n) = false

abbrev pub final_status : Outcome → ℕ
final_status o = if is_zero o.error_response then o.status else monitor_status_invalid_data

-- `-1` is the only negative result.
abbrev pub is_written : ℤ → Bool
is_written (pos n) = true
is_written (negsuc n) = false

-- `none` is the abort for want of room.
unfoldable pub monitor_process : List ℕ → Server → Buffer → Monitor → Option (Server × Buffer)
monitor_process scratch s wb m =
    let o : Outcome = decide scratch s m in
    do
      (n, wb') ← monitor_marshall wb (final_status o) o.reply_len o.payload
      if is_written n then some (o.server, wb') else none
