-- ===== src/Start.antt =====
-- src/server.c: the sockets that the server listens on, and the accounts that it starts with. The parsing
-- of addresses and the system calls are parameters.
pub mod Users
pub mod Listening
pub mod Main
use socks_v5_proxy.Prelude.{
  if◌then◌else◌, replicate, ℤ, pos, negsuc, ◌>>=◌, ℕ, Bool, true, false, ◌&&◌, ◌||◌, Option, none,
  some, List, [], ◌∷◌,
}
use socks_v5_proxy.Args.{UserArg, Socks5Args}
use socks_v5_proxy.Users.{Registry, socksv5_register_user}
use socks_v5_proxy.Admins.{default_admin_uname, monitor_register_admin}
use socks_v5_proxy.Admins.Process.{Server}
use socks_v5_proxy.Disector.{codes}

pub data IpVersion : Type 0 where
  ipv4 ipv6 : IpVersion

-- What `socket`, `bind` and `listen` answer when a passive socket is made.
pub record SocketAnswers : Type 0 where
  pub socket : ℤ
  pub bind : ℤ
  pub listen : ℤ

abbrev pub is_negative : ℤ → Bool
is_negative (pos n) = false
is_negative (negsuc n) = true

-- `FD_UNUSED`, and the result of a call that fails.
abbrev pub fd_unused : ℤ
fd_unused = negsuc 0

abbrev pub create_socket : SocketAnswers → ℤ
create_socket w = if is_negative w.socket then negsuc 0 else w.socket

abbrev pub bind_socket : SocketAnswers → ℤ
bind_socket w = if is_negative w.bind || is_negative w.listen then negsuc 0 else pos 0

-- `bind_ipv4_socket` and `bind_ipv6_socket`, which differ in the kind of the address.
unfoldable pub bind_ip_socket : SocketAnswers → ℤ
bind_ip_socket w = if is_negative (bind_socket w) then negsuc 0 else create_socket w

pub record Sockets : Type 0 where
  pub server_v4 : ℤ
  pub monitor_v4 : ℤ
  pub server_v6 : ℤ
  pub monitor_v6 : ℤ

abbrev pub no_sockets : Sockets
no_sockets = record {
  server_v4 = fd_unused;
  monitor_v4 = fd_unused;
  server_v6 = fd_unused;
  monitor_v6 = fd_unused;
}

-- `stopped` is the jump to `finally` with the message of a socket that cannot be made.
pub data Attempt : Type 0 where
  going stopped : Sockets → Attempt

abbrev pub on : Attempt → (Sockets → Attempt) → Attempt
on (going v) f = f v
on (stopped v) f = stopped v

-- How the part of `main` that opens the sockets ends: it goes on, or jumps to `finally`, with the message of
-- a socket that cannot be made, or with none at an address that cannot be parsed.
pub data Opening : Type 0 where
  opened failed unparsed : Sockets → Opening

-- `inet_pton(…) == 1`, with the address, and the answers for a socket on an address and a port.
module _ (inet_pton : IpVersion → List ℕ → Option (List ℕ))
    (answers : IpVersion → List ℕ → ℕ → SocketAnswers) where
  -- A test of an address, and the socket: `none` is an address of another kind, and -1 a failure.
  unfoldable pub passive : IpVersion → List ℕ → ℕ → Option ℤ
  passive v word n = elim (inet_pton v word) [
    | none ↦ none
    | some a ↦ some (bind_ip_socket (answers v a n))
  ]

  -- The variable that is set keeps -1 where there is no socket.
  abbrev pub stored : Option ℤ → (ℤ → Sockets) → Sockets → Attempt
  stored none store v = going v
  stored (some fd) store v = if is_negative fd then stopped v else going (store fd)

  abbrev pub open_server_v4 : Socks5Args → Sockets → Attempt
  open_server_v4 args v =
      stored (passive ipv4 args.socks_addr args.socks_port) (λ fd. record v { server_v4 = fd }) v

  abbrev pub open_monitor_v4 : Socks5Args → Sockets → Attempt
  open_monitor_v4 args v =
      stored (passive ipv4 args.mng_addr args.mng_port) (λ fd. record v { monitor_v4 = fd }) v

  -- IPv6 is tried where there is no IPv4 socket or the address is the default.
  abbrev pub passive_v6 : ℤ → Bool → List ℕ → List ℕ → ℕ → Option ℤ
  passive_v6 v4 is_default default_text word n =
      if is_negative v4 || is_default
      then passive ipv6 (if is_default then default_text else word) n
      else none

  abbrev pub open_server_v6 : Socks5Args → Sockets → Attempt
  open_server_v6 args v =
      stored
        (passive_v6 v.server_v4 args.is_default_socks_addr (codes "::0") args.socks_addr
          args.socks_port)
        (λ fd. record v { server_v6 = fd }) v

  abbrev pub open_monitor_v6 : Socks5Args → Sockets → Attempt
  open_monitor_v6 args v =
      stored
        (passive_v6 v.monitor_v4 args.is_default_mng_addr (codes "::1") args.mng_addr args.mng_port)
        (λ fd. record v { monitor_v6 = fd }) v

  unfoldable pub open_all : Socks5Args → Attempt
  open_all args =
      on (on (on (open_server_v4 args no_sockets) (open_monitor_v4 args)) (open_server_v6 args))
        (open_monitor_v6 args)

  abbrev pub parsed : Sockets → Opening
  parsed s =
      if is_negative s.server_v4 && is_negative s.server_v6
      then unparsed s
      else if is_negative s.monitor_v4 && is_negative s.monitor_v6
      then unparsed s
      else opened s

  unfoldable pub open_sockets : Socks5Args → Opening
  open_sockets args = elim (open_all args) [ stopped v ↦ failed v | going v ↦ parsed v ]

-- The loop that registers the users of the command line.
unfoldable pub register_users : List UserArg → Registry → Registry
register_users [] r = r
register_users (u ∷ us) r = register_users us (socksv5_register_user u.name u.pass r).1

-- Behind the registration of the sockets: `none` where `MONITOR_ROOT_TOKEN` is not set.
unfoldable pub populate : Option (List ℕ) → Socks5Args → Server → Option Server
populate root_token args v = do
  token ← root_token
  let admins = (monitor_register_admin default_admin_uname token v.admin_table).1
  let registry = register_users args.users v.registry
  some record v {
    admin_table = admins;
    registry = registry;
    is_disector_on = if args.disectors_enabled then v.is_disector_on else false;
  }

-- The variables of the server before `main`: the tables are empty, and the sniffer is on.
abbrev pub first_server : Server
first_server = record {
  registry = record {
    users = replicate 10 (record { uname = replicate 255 0; passwd = replicate 255 0 });
    registered_users = 0;
  };
  admin_table = record {
    admins = replicate 3 (record { admin_uname = replicate 255 0; admin_token = replicate 17 0 });
    registered_admins = 0;
  };
  is_disector_on = true;
  current_connections = 0;
  historic_connections = 0;
  bytes_transferred = 0;
}
