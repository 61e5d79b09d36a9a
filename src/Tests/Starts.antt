-- ===== src/Tests/Starts.antt =====
-- The start of the server and the helpers for blocking sockets at concrete inputs.
use socks_v5_proxy.Start.{Sockets, populate, first_server}
use socks_v5_proxy.Start.Listening.{Passive, Fcntl, set_up}
use socks_v5_proxy.Start.Listening.Settled.{Settled, set_up-Settled}
use socks_v5_proxy.Prelude.{
  strncpy, ℤ, pos, negsuc, ℕ, ◌<◌, ◌≡◌, refl, true, some, List, [], ◌∷◌, arith,
}
use socks_v5_proxy.CommandLine.{
  CommandLine, strchr, skip_spaces, strtol_sign, strtol_digits, strtol_body, strtol, port,
}
use socks_v5_proxy.Buffer.{Buffer, IsValid, contents}
use socks_v5_proxy.Users.{active, find_login}
use socks_v5_proxy.Users.Accounts.{IsShort, IsSound}
use socks_v5_proxy.Users.Login.{is_some}
use socks_v5_proxy.Admins.Process.{Server}
use socks_v5_proxy.Args.{Socks5Args, user, parse_option, default_args, parse_options, parse_args}
use socks_v5_proxy.Args.Bounds.{InBounds, parse_args-InBounds}
use socks_v5_proxy.Start.Users.{granted, populate-granted}
use socks_v5_proxy.Disector.{codes}
use socks_v5_proxy.Netutils.{SendAnswer, taken, sock_blocking_write, sock_blocking_copy}
use socks_v5_proxy.Netutils.Progress.{
  Obliging, all_bytes, sock_blocking_write-all, sock_blocking_copy-all,
}

-- `-p 1081 -u a:b -u c:d`
abbrev pub given_line : CommandLine
given_line = record {
  options =
      record { letter = b'p'; optarg = codes "1081" }
      ∷ record { letter = b'u'; optarg = codes "a:b" }
      ∷ record { letter = b'u'; optarg = codes "c:d" }
      ∷ [];
  operands = [];
}

abbrev pub given_args : Socks5Args
given_args = record default_args {
  socks_port = 1081;
  users =
      record { name = codes "a"; pass = codes "b" }
      ∷ record { name = codes "c"; pass = codes "d" }
      ∷ [];
}

pub given_line-given_args : parse_args given_line ≡ some given_args
unfolding parse_args parse_options parse_option port strtol strtol_body strtol_sign skip_spaces
    strtol_digits user strchr
given_line-given_args = refl

parse_args-InBounds_example : InBounds given_args
parse_args-InBounds_example = parse_args-InBounds given_line given_args given_line-given_args

letter-IsShort : (c : ℕ) → 0 < c → IsShort (c ∷ [])
letter-IsShort c h = ((λ e. omega arith, tt), omega arith)

populate-granted_example :
    (v : Server) × (populate (some (codes "0123456789abcdef")) given_args first_server ≡ some v)
    × IsSound v.registry
    × (is_some
          (find_login (strncpy 255 (codes "c")) (strncpy 255 (codes "d")) (active v.registry) 0)
        ≡ granted (codes "c") (codes "d") given_args.users)
populate-granted_example =
    populate-granted given_line given_args (codes "0123456789abcdef") (codes "c") (codes "d")
      given_line-given_args
      (
        (letter-IsShort 97 (omega arith), letter-IsShort 98 (omega arith)),
        ((letter-IsShort 99 (omega arith), letter-IsShort 100 (omega arith)), tt),
      )
      (letter-IsShort 99 (omega arith)) (letter-IsShort 100 (omega arith))

-- A `send` that takes one byte at a time.
abbrev one_byte : ℕ → List ℕ → SendAnswer
one_byte k bytes = record { nwritten = pos 1; errno = 0 }

one_byte-Obliging : Obliging one_byte
unfolding taken
one_byte-Obliging k bytes h = (1, refl, omega arith, omega arith)

abbrev two_waiting : Buffer
two_waiting = record { bytes = 5 ∷ 6 ∷ 7 ∷ 0 ∷ []; limit = 4; read = 1; write = 3 }

sock_blocking_write-all_example :
    (b' : Buffer) × (sock_blocking_write one_byte 2 0 two_waiting
      ≡ some (0, b', contents two_waiting))
    × IsValid b'
    × (contents b' ≡ [])
sock_blocking_write-all_example =
    sock_blocking_write-all one_byte one_byte-Obliging 2 0 (omega arith) (omega arith) (omega arith)

sock_blocking_copy-all_example :
    sock_blocking_copy one_byte 0 ((1 ∷ 2 ∷ []) ∷ (3 ∷ []) ∷ [])
    ≡ some (0, all_bytes ((1 ∷ 2 ∷ []) ∷ (3 ∷ []) ∷ []))
sock_blocking_copy-all_example =
    sock_blocking_copy-all one_byte one_byte-Obliging 0 ((1 ∷ 2 ∷ []) ∷ (3 ∷ []) ∷ [])
      ((omega arith, omega arith), ((omega arith, omega arith), tt))

-- The default addresses, with no IPv6 for the proxy.
abbrev three_sockets : Sockets
three_sockets = record {
  server_v4 = pos 3;
  monitor_v4 = pos 4;
  server_v6 = negsuc 0;
  monitor_v6 = pos 5;
}

-- Every call of `fcntl` is answered by 0.
abbrev pub granting : ℤ → Fcntl → ℤ
granting fd call = pos 0

-- The handlers are told apart, and nothing is attached.
abbrev pub itself : Passive → Passive
itself p = p

abbrev pub nothing : ℕ
nothing = 0

set_up-Settled_example :
    Settled itself nothing granting true true true three_sockets
      (set_up itself nothing granting true true true three_sockets)
set_up-Settled_example =
    set_up-Settled itself nothing granting true true true three_sockets
      (omega arith, (refl, (omega arith, (omega arith, tt))))
      (
        (tt, ((λ e. omega arith), ((λ e. omega arith), tt))),
        ((tt, (tt, tt)), (((λ e. omega arith), tt), (tt, tt))),
      )
