-- ===== src/Monitor/Types.antt =====
-- src/include/monitor.h: the request of the administration protocol and the parser's state.
-- The union `data` is the list of its 512 bytes: `user` from 0 on, `pass` and `token` from 256 on.
use socks_v5_proxy.Prelude.{leb, replicate, ℕ, Bool, ◌&&◌, ◌||◌, List}

pub data MonitorState : Type 0 where
  monitor_version monitor_token monitor_method monitor_target monitor_dlen : MonitorState
  monitor_data monitor_done monitor_error monitor_error_unsupported_version : MonitorState
  monitor_error_invalid_token monitor_error_unsupported_method : MonitorState
  monitor_error_unsupported_target monitor_error_invalid_data : MonitorState

-- The values that C gives the enumerators.
abbrev pub monitor_state_value : MonitorState → ℕ
monitor_state_value monitor_version = 0
monitor_state_value monitor_token = 1
monitor_state_value monitor_method = 2
monitor_state_value monitor_target = 3
monitor_state_value monitor_dlen = 4
monitor_state_value monitor_data = 5
monitor_state_value monitor_done = 6
monitor_state_value monitor_error = 7
monitor_state_value monitor_error_unsupported_version = 8
monitor_state_value monitor_error_invalid_token = 9
monitor_state_value monitor_error_unsupported_method = 10
monitor_state_value monitor_error_unsupported_target = 11
monitor_state_value monitor_error_invalid_data = 12

abbrev pub token_size : ℕ
token_size = 16

abbrev pub monitor_method_get : ℕ
monitor_method_get = 0x00

abbrev pub monitor_method_config : ℕ
monitor_method_config = 0x01

abbrev pub target_config_pop3disector : ℕ
target_config_pop3disector = 0x00

abbrev pub target_config_add_proxyuser : ℕ
target_config_add_proxyuser = 0x01

abbrev pub target_config_delete_proxyuser : ℕ
target_config_delete_proxyuser = 0x02

abbrev pub target_config_add_admin : ℕ
target_config_add_admin = 0x03

abbrev pub target_config_delete_admin : ℕ
target_config_delete_admin = 0x04

-- `struct monitor`; `target` is the value of either member of its union.
pub record Monitor : Type 0 where
  pub token : List ℕ
  pub method : ℕ
  pub target : ℕ
  pub dlen : ℕ
  pub union_data : List ℕ

-- `combinedlen` and `username_len_with_null`.
pub record Statics : Type 0 where
  pub combinedlen : List ℕ
  pub username_len_with_null : ℕ

pub record MonitorParser : Type 0 where
  pub monitor : Monitor
  pub state : MonitorState
  pub len : ℕ
  pub i : ℕ
  pub separated : Bool

abbrev pub remaining_set : MonitorParser → ℕ → MonitorParser
remaining_set p len = record p { i = 0; len = len }

abbrev pub remaining_is_done : MonitorParser → Bool
remaining_is_done p = leb p.len p.i

abbrev pub cleared_monitor : Monitor
cleared_monitor = record {
  token = replicate 16 0;
  method = 0;
  target = 0;
  dlen = 0;
  union_data = replicate 512 0;
}

-- `memset` clears the request; `len`, `i` and `separated` keep what they hold.
unfoldable pub monitor_parser_init : MonitorParser → MonitorParser
monitor_parser_init p = record p { state = monitor_version; monitor = cleared_monitor }

abbrev pub is_alnum : ℕ → Bool
is_alnum x =
    (leb b'a' x && leb x b'z') || ((leb b'A' x && leb x b'Z') || (leb b'0' x && leb x b'9'))
