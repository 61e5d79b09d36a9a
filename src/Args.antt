-- ===== src/Args.antt =====
-- src/server/args.c: the command line of the server. A string is the list of its bytes; `none` is a call
-- of `exit`.
pub mod Bounds
use socks_v5_proxy.Prelude.{
  leb, ◌==◌, if◌then◌else◌, length, take, drop, ◌>>=◌, ℕ, ◌+◌, Bool, true, false, ◌||◌, Option,
  none, some, List, [], ◌∷◌, ◌++◌,
}
use socks_v5_proxy.CommandLine.{Opt, CommandLine, strchr, port}
use socks_v5_proxy.Disector.{codes}

pub record UserArg : Type 0 where
  pub name : List ℕ
  pub pass : List ℕ

-- The users of the command line; the entries behind them have a null name.
pub record Socks5Args : Type 0 where
  pub socks_addr : List ℕ
  pub is_default_socks_addr : Bool
  pub socks_port : ℕ
  pub mng_addr : List ℕ
  pub is_default_mng_addr : Bool
  pub mng_port : ℕ
  pub disectors_enabled : Bool
  pub users : List UserArg

-- `user`: the strings on the two sides of the first `:`.
unfoldable pub user : List ℕ → Option UserArg
user s = do
  p ← strchr s b':'
  if p == 0 then none else some (record { name = take p s; pass = drop (p + 1) s })

-- `MAX_USERS` of args.h.
abbrev pub max_user_args : ℕ
max_user_args = 10

abbrev pub add_user : Socks5Args → List ℕ → Option Socks5Args
add_user args word =
    if leb max_user_args (length args.users)
    then none
    else (user word >>= (λ u. some (record args { users = args.users ++ u ∷ [] })))

-- The `switch` of the loop.
unfoldable pub parse_option : Socks5Args → Opt → Option Socks5Args
parse_option args o =
    let c = o.letter in
    if c == b'h'
    then none
    else if c == b'l'
    then some (record args { socks_addr = o.optarg; is_default_socks_addr = false })
    else if c == b'L'
    then some (record args { mng_addr = o.optarg; is_default_mng_addr = false })
    else if c == b'N'
    then some (record args { disectors_enabled = false })
    else if c == b'p'
    then (port o.optarg >>= (λ n. some (record args { socks_port = n })))
    else if c == b'P'
    then (port o.optarg >>= (λ n. some (record args { mng_port = n })))
    else if c == b'u'
    then add_user args o.optarg
    else if (c == b'v') || ((c == b':') || (c == b'?'))
    then none
    else some args

abbrev pub default_args : Socks5Args
default_args = record {
  socks_addr = codes "0.0.0.0";
  is_default_socks_addr = true;
  socks_port = 1080;
  mng_addr = codes "127.0.0.1";
  is_default_mng_addr = true;
  mng_port = 8080;
  disectors_enabled = true;
  users = [];
}

-- The loop.
unfoldable pub parse_options : Socks5Args → List Opt → Option Socks5Args
parse_options args [] = some args
parse_options args (o ∷ os) = parse_option args o >>= (λ args'. parse_options args' os)

-- A word that is left over ends the program.
unfoldable pub parse_args : CommandLine → Option Socks5Args
parse_args line = do
  args ← parse_options default_args line.options
  elim line.operands [ [] ↦ some args | w ∷ ws ↦ none ]
