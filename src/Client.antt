-- ===== src/Client.antt =====
-- src/include/clientargs.h, src/client/clientrequest.c: the requests of the administration client.
-- The union `data` is the list of its 512 bytes: `user` from 0 on, `separator` at 255, `pass` and
-- `token` from 256 on, and the enumeration of the sniffer in the first four bytes, the lowest first.
pub mod Options
pub mod Wire
pub mod Sending
pub mod Users
pub mod Requests
pub mod Service
pub mod Main
pub mod Response
use socks_v5_proxy.Prelude.{
  ◌==◌, if◌then◌else◌, length, get_or, set, take, drop, overwrite, c_string, u8, u16, ℕ, ◌+◌, ◌/◌,
  ◌%◌, ◌||◌, List, [], ◌∷◌,
}

pub data Method : Type 0 where
  get config : Method

abbrev pub method_value : Method → ℕ
method_value get = 0
method_value config = 1

abbrev pub historic_connections : ℕ
historic_connections = 0

abbrev pub concurrent_connections : ℕ
concurrent_connections = 1

abbrev pub transferred_bytes : ℕ
transferred_bytes = 2

abbrev pub proxy_users_list : ℕ
proxy_users_list = 3

abbrev pub admin_users_list : ℕ
admin_users_list = 4

abbrev pub toggle_disector : ℕ
toggle_disector = 0

abbrev pub add_proxy_user : ℕ
add_proxy_user = 1

abbrev pub del_proxy_user : ℕ
del_proxy_user = 2

abbrev pub add_admin_user : ℕ
add_admin_user = 3

abbrev pub del_admin_user : ℕ
del_admin_user = 4

-- `struct client_request_args`; `target` is the value of either member of its union.
pub record ClientRequestArgs : Type 0 where
  pub method : Method
  pub target : ℕ
  pub dlen : ℕ
  pub data_bytes : List ℕ

-- `user[USERNAME_SIZE]`, `separator`, and `pass` or `token`, as `strlen` and `memcpy` reach them.
abbrev pub second_offset : ℕ
second_offset = 256

abbrev pub separator_offset : ℕ
separator_offset = 255

-- The bytes that `htons` and `memcpy` store for a `uint16_t`.
abbrev pub htons : ℕ → List ℕ
htons n = u16 n / 256 ∷ u16 n % 256 ∷ []

-- The cases `add_proxy_user` and `add_admin_user`, which differ only in the name of the second member.
unfoldable pub serialize_user : List ℕ → List ℕ → List ℕ
serialize_user mem buffer =
    let username = c_string mem in
    let with_user = overwrite buffer 21 username in
    let with_separator = set with_user (21 + length username) (get_or mem separator_offset 0) in
    overwrite with_separator (21 + length username + 1) (c_string (drop second_offset mem))

unfoldable pub serialize_config_data : ClientRequestArgs → List ℕ → List ℕ
serialize_config_data args buffer =
    if args.target == toggle_disector
    then overwrite buffer 21 (take 1 args.data_bytes)
    else if (args.target == add_proxy_user) || (args.target == add_admin_user)
    then serialize_user args.data_bytes buffer
    else if (args.target == del_proxy_user) || (args.target == del_admin_user)
    then overwrite buffer 21 (take args.dlen args.data_bytes)
    else buffer

-- The stores in front of the `switch`, and the store of the target that both its cases begin with.
unfoldable pub serialize_header : ClientRequestArgs → List ℕ → List ℕ → List ℕ
serialize_header args token buffer =
    let with_version = set buffer 0 1 in
    let with_token = overwrite with_version 1 token in
    let with_method = set with_token 17 (method_value args.method) in
    let with_dlen = overwrite with_method 19 (htons args.dlen) in set with_dlen 18 (u8 args.target)

unfoldable pub serialize_request : ClientRequestArgs → List ℕ → List ℕ → List ℕ
serialize_request args token buffer =
    let with_target = serialize_header args token buffer in
    elim args.method [
      | get ↦ overwrite with_target 21 (take 1 args.data_bytes)
      | config ↦ serialize_config_data args with_target
    ]

-- What `main` gives to `send`.
abbrev pub request_sent : ClientRequestArgs → List ℕ → List ℕ → List ℕ
request_sent args token buffer = take (21 + args.dlen) (serialize_request args token buffer)
