-- ===== src/Client/Options.antt =====
-- src/client/clientargs.c: the command line of the administration client.
-- `none` is a call of `exit`, or a read through the null pointer that `strtok` returned.
use socks_v5_proxy.Prelude.{
  ltb, ◌==◌, if◌then◌else◌, length, set, take, drop, replicate, overwrite, c_string, u16, ◌>>=◌, ℕ,
  zero, suc, ◌+◌, ◌||◌, Option, none, some, List, [], ◌∷◌,
}
use socks_v5_proxy.CommandLine.{Opt, CommandLine, strchr, port}
use socks_v5_proxy.Client.{
  get, config, historic_connections, concurrent_connections, transferred_bytes, proxy_users_list,
  admin_users_list, toggle_disector, add_proxy_user, del_proxy_user, add_admin_user, del_admin_user,
  ClientRequestArgs, second_offset, separator_offset,
}
use socks_v5_proxy.Disector.{codes}

-- `memcpy` of a string of at most 255 bytes into a member of the union, without its terminator.
unfoldable pub string_check : List ℕ → List ℕ → ℕ → Option (List ℕ × ℕ)
string_check src mem off =
    if ltb 255 (length src) then none else some (overwrite mem off src, length src)

-- The token of a command is stored in an array of its own, that of a user in the union.
unfoldable pub token_check : List ℕ → List ℕ → ℕ → Option (List ℕ × ℕ)
token_check src mem off = if length src == 16 then some (overwrite mem off src, 16) else none

-- The bytes `:` that `strtok` skips.
abbrev pub colons : List ℕ → ℕ
colons [] = 0
colons (x ∷ xs) = if x == b':' then suc (colons xs) else 0

-- What is left of `strtok` behind `k` of them, where the rest of the string is given.
unfoldable pub strtok_rest : ℕ → List ℕ → List ℕ → Option (List ℕ × List ℕ)
strtok_rest k src [] = none
strtok_rest k src (x ∷ xs) = elim (strchr (x ∷ xs) b':') [
  | none ↦ some (x ∷ xs, src)
  | some j ↦ some (take j (x ∷ xs), set src (j + k) 0)
]

-- `strtok(src, ":")`: the token, and the string with the 0 that is stored behind it.
unfoldable pub strtok : List ℕ → Option (List ℕ × List ℕ)
strtok src = strtok_rest (colons src) src (drop (colons src) src)

unfoldable pub username_with_password : List ℕ → List ℕ → Option (List ℕ × ℕ)
username_with_password src mem = do
  separator ← strchr src b':'
  if separator == 0 then none else (do
    (username, src') ← strtok src
    (mem1, n) ← string_check username mem 0
    (mem2, m) ←
        string_check (c_string (drop (separator + 1) src')) (set mem1 separator_offset 0)
          second_offset
    some (mem2, n + 1 + m))

-- A string that begins with `:` is complained of, and the code goes on.
unfoldable pub username_with_token : List ℕ → List ℕ → Option (List ℕ × ℕ)
username_with_token src mem = do
  separator ← strchr src b':'
  (username, src') ← strtok src
  (mem1, n) ← string_check username mem 0
  (mem2, m) ←
      token_check (c_string (drop (separator + 1) src')) (set mem1 separator_offset 0) second_offset
  some (mem2, n + 1 + m)

abbrev pub set_get_data : ClientRequestArgs → ClientRequestArgs
set_get_data args = record args { method = get; dlen = 1; data_bytes = set args.data_bytes 0 0 }

abbrev pub get_args : ClientRequestArgs → ℕ → Option ClientRequestArgs
get_args args t = some record (set_get_data args) { target = t }

-- The enumeration is stored as an `int` of four bytes.
abbrev pub toggle_args : ClientRequestArgs → ℕ → Option ClientRequestArgs
toggle_args args v = some record args {
  method = config;
  target = toggle_disector;
  dlen = 1;
  data_bytes = overwrite args.data_bytes 0 (v ∷ 0 ∷ 0 ∷ 0 ∷ []);
}

-- `dlen` is a `uint16_t`.
abbrev pub user_args : ClientRequestArgs → ℕ → Option (List ℕ × ℕ) → Option ClientRequestArgs
user_args args t filled = do
  (mem, n) ← filled
  some record args { method = config; target = t; dlen = u16 n; data_bytes = mem }

-- The `switch` of the loop, on the entry of the request.
unfoldable pub parse_option : ClientRequestArgs → Opt → Option ClientRequestArgs
parse_option args o =
    let c = o.letter in
    if c == b'h'
    then none
    else if c == b'c'
    then get_args args concurrent_connections
    else if c == b'C'
    then get_args args historic_connections
    else if c == b'b'
    then get_args args transferred_bytes
    else if c == b'a'
    then get_args args proxy_users_list
    else if c == b'A'
    then get_args args admin_users_list
    else if c == b'n'
    then toggle_args args 1
    else if c == b'N'
    then toggle_args args 0
    else if c == b'u'
    then user_args args add_proxy_user (username_with_password o.optarg args.data_bytes)
    else if c == b'U'
    then user_args args add_admin_user (username_with_token o.optarg args.data_bytes)
    else if c == b'd'
    then user_args args del_proxy_user (string_check o.optarg args.data_bytes 0)
    else if c == b'D'
    then user_args args del_admin_user (string_check o.optarg args.data_bytes 0)
    else if (c == b'v') || ((c == b':') || (c == b'?'))
    then none
    else some args

-- The entries as `main` clears them.
abbrev pub cleared_args : ClientRequestArgs
cleared_args = record { method = get; target = 0; dlen = 0; data_bytes = replicate 512 0 }

-- The loop, for the entries that are left of `args`.
unfoldable pub parse_options : ℕ → List Opt → Option (List ClientRequestArgs)
parse_options zero os = some []
parse_options (suc n) [] = some []
parse_options (suc n) (o ∷ os) = do
  args ← parse_option cleared_args o
  more ← parse_options n os
  some (args ∷ more)

pub data IpVersion : Type 0 where
  ipv4 ipv6 : IpVersion

-- An address in network order, and a port; the port of an IPv6 address is 0 until it is given.
pub record SockAddr : Type 0 where
  pub addr : List ℕ
  pub sin_port : ℕ

pub record Destination : Type 0 where
  pub token : List ℕ
  pub ip_version : IpVersion
  pub sin4 : SockAddr
  pub sin6 : SockAddr

-- `inet_pton`, for the words that it accepts.
module _ (inet_pton : IpVersion → List ℕ → Option (List ℕ)) where
  unfoldable pub ip_check : List ℕ → Destination → Option Destination
  ip_check src d = elim (inet_pton ipv4 src) [
    | some a ↦ some record d { ip_version = ipv4; sin4 = record (d.sin4) { addr = a } }
    | none ↦ elim (inet_pton ipv6 src) [
      | some a ↦ some record d { ip_version = ipv6; sin6 = record (d.sin6) { addr = a } }
      | none ↦ none
    ]
  ]

  unfoldable pub port_check : List ℕ → Destination → Option Destination
  port_check src d = do
    n ← port src
    elim d.ip_version [
      | ipv4 ↦ some record d { sin4 = record (d.sin4) { sin_port = n } }
      | ipv6 ↦ some record d { sin6 = record (d.sin6) { sin_port = n } }
    ]

  -- The `switch` on `extra_runs`.
  abbrev pub operand : ℕ → List ℕ → Destination → Option Destination
  operand zero w d = token_check w d.token 0 >>= (λ r. some record d { token = r.0 })
  operand (suc zero) w d = ip_check w d
  operand (suc (suc zero)) w d = port_check w d
  operand (suc (suc (suc n))) w d = some d

  -- The `do` loop: a pass for each word up to the third, and the words that are left.
  unfoldable pub operands_loop :
      ℕ → ℕ → List (List ℕ) → Destination → Option (Destination × List (List ℕ))
  operands_loop zero k ws d = some (d, ws)
  operands_loop (suc n) k [] d = some (d, [])
  operands_loop (suc n) k (w ∷ ws) d = do d' ← operand k w d; operands_loop n (suc k) ws d'

  abbrev pub without_more :
      List ClientRequestArgs
      → Destination × List (List ℕ)
      → Option (List ClientRequestArgs × Destination)
  without_more args (d, []) = some (args, d)
  without_more args (d, w ∷ ws) = none

  -- `token` is the array of the caller.
  unfoldable pub parse_args : List ℕ → CommandLine → Option (List ClientRequestArgs × Destination)
  parse_args token line = do
    default_port ← port (codes "8080")
    default_addr ← inet_pton ipv4 (codes "127.0.0.1")
    args ← parse_options 20 line.options
    let start : Destination = record {
      token = token;
      ip_version = ipv4;
      sin4 = record { addr = default_addr; sin_port = default_port };
      sin6 = record { addr = replicate 16 0; sin_port = 0 };
    }
    elim line.operands [
      | [] ↦ none
      | w ∷ ws ↦ operands_loop 3 0 (w ∷ ws) start >>= without_more args
    ]
