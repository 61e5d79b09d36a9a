-- ===== src/Tests/Clients.antt =====
-- The administration client at concrete inputs.

use socks_v5_proxy.Monitor.Parser.{monitor_parser_feed, monitor_is_done}
use socks_v5_proxy.Client.Service.{monitor_read-Adds}
use socks_v5_proxy.Buffer.{contents}
use socks_v5_proxy.Users.Accounts.{accounts, IsSound}
use socks_v5_proxy.Admins.{is_admin_loop, monitor_is_admin}
use socks_v5_proxy.Admins.Process.Enrolment.{accounts_after, status_after}
use socks_v5_proxy.Admins.Service.{Service, monitor_read}
use socks_v5_proxy.Consume.{parse}
use socks_v5_proxy.Tests.Service.{serving}
use socks_v5_proxy.Tests.Sessions.{answers, empty_buffer}
use socks_v5_proxy.Tests.Descriptors.{one_used-IsConsistent}
use socks_v5_proxy.Prelude.{
  length, drop, replicate, length-replicate, c_string, bytes_eq, u32, ℕ, ◌+◌, ◌≤◌, ◌<◌, ◌≡◌, refl,
  sym, ◌⊎◌, false, none, some, List, [], ◌∷◌, ◌++◌, arith,
}
use socks_v5_proxy.CommandLine.{port}
use socks_v5_proxy.CommandLine.Ports.{denoted, port-denoted}
use socks_v5_proxy.Client.{config, ClientRequestArgs, request_sent}
use socks_v5_proxy.Client.Options.{parse_option, cleared_args}
use socks_v5_proxy.Client.Wire.{header, config_payload, payload}
use socks_v5_proxy.Client.Sending.{asks_concurrent, Sends, deletes_user}
use socks_v5_proxy.Client.Users.{adds_user, option_adds-Sends}
use socks_v5_proxy.Client.Requests.{request_sent-Asks, request_sent-Deletes, request_sent-Adds}
use socks_v5_proxy.Client.Response.{number_of, refused}
use socks_v5_proxy.Client.Main.{returned, Buffers, main_loop, whole_response}
use socks_v5_proxy.Client.Main.Session.{
  answered_number, answered_error, served_none, served_next, main_loop-Served,
}
use socks_v5_proxy.Disector.{codes}
use socks_v5_proxy.Monitor.Types.{monitor_done, Statics, MonitorParser, monitor_parser_init}
use socks_v5_proxy.Monitor.Commands.{monitor_parse, at, tokened}
use socks_v5_proxy.Monitor.Reply.{network_short, network_long}
use socks_v5_proxy.Tests.Administration.{
  sixteen, root_only, no_users, no_users-IsSound, statics, monitor_start,
}

abbrev given_token : List ℕ
given_token = codes "0123456789abcdef"

-- What the array of `main` may hold at first.
abbrev stale_bytes : List ℕ
stale_bytes = replicate 65556 7

length-stale_bytes : length stale_bytes ≡ 65556
length-stale_bytes = length-replicate {A = ℕ} 65556 7

port-denoted_example :
    ((0 < 4)
      × (denoted (codes "8080") ≤ 65535)
      × (port (codes "8080") ≡ some (denoted (codes "8080"))))
    ⊎ (((length (codes "8080") ≡ 0) ⊎ (65535 < denoted (codes "8080")))
        × (port (codes "8080") ≡ none))
port-denoted_example = port-denoted (codes "8080") (refl, (refl, (refl, (refl, tt))))

-- `-c`
request_sent-Asks_example :
    (args : ClientRequestArgs) × (parse_option cleared_args (record { letter = b'c'; optarg = [] })
      ≡ some args)
    × (monitor_parse
          (some (statics, monitor_parser_init monitor_start))
          (request_sent args given_token stale_bytes)
        ≡ (
          at statics (record (tokened given_token) { target = 1 }) monitor_done 16 16 false,
          false,
          0 ∷ 1 ∷ 0 ∷ [],
        ))
request_sent-Asks_example =
    request_sent-Asks b'c' 1 [] given_token stale_bytes statics monitor_start asks_concurrent refl
      length-stale_bytes

-- `-d ana`
request_sent-Deletes_example :
    (args : ClientRequestArgs) × (s' : Statics) × (q : MonitorParser) × (parse_option cleared_args
        (record { letter = b'd'; optarg = codes "ana" })
      ≡ some args)
    × (monitor_parse
          (some (statics, monitor_parser_init monitor_start))
          (request_sent args given_token stale_bytes)
        ≡ (some (s', q), false, []))
    × (q.state ≡ monitor_done)
    × (q.monitor.token ≡ given_token)
    × (q.monitor.method ≡ 1)
    × (q.monitor.target ≡ 2)
    × (c_string q.monitor.union_data ≡ codes "ana")
request_sent-Deletes_example =
    request_sent-Deletes b'd' 2 (codes "ana") given_token stale_bytes statics monitor_start
      deletes_user refl length-stale_bytes refl (refl, (refl, (refl, tt))) (omega arith)
      (omega arith)

-- `-u ana:clave`
request_sent-Adds_example :
    (args : ClientRequestArgs) × (parse_option cleared_args
        (record { letter = b'u'; optarg = codes "ana:clave" })
      ≡ some args)
    × (let result =
          monitor_parse
            (some (statics, monitor_parser_init monitor_start))
            (request_sent args given_token stale_bytes) in
        ((3 + 5 < 255)
          × ((s' : Statics) × (q : MonitorParser) × (result ≡ (some (s', q), false, []))
              × (q.state ≡ monitor_done)
              × (q.monitor.token ≡ given_token)
              × (q.monitor.method ≡ 1)
              × (q.monitor.target ≡ 1)
              × (c_string q.monitor.union_data ≡ codes "ana")
              × (c_string (drop 256 q.monitor.union_data) ≡ codes "clave")
              × (q.separated ≡ false)))
        ⊎ ((255 ≤ 3 + 5) × (result ≡ (none, false, []))))
request_sent-Adds_example =
    request_sent-Adds b'u' 1 (codes "ana") (codes "clave") given_token stale_bytes statics
      monitor_start (adds_user (omega arith)) refl length-stale_bytes refl refl
      (refl, (refl, (refl, tt))) (refl, (refl, (refl, (refl, (refl, tt))))) (omega arith)
      (omega arith)

-- A run with `-c` and `-d ana`, answered by a number and by an error.
abbrev asking_args : ClientRequestArgs
asking_args = record cleared_args { target = 1; dlen = 1 }

abbrev deleting_args : ClientRequestArgs
deleting_args = record {
  method = config;
  target = 2;
  dlen = 3;
  data_bytes = codes "ana" ++ replicate 509 0;
}

abbrev first_response : List ℕ
first_response = 0 ∷ (network_short 4 ++ network_long 7)

abbrev second_response : List ℕ
second_response = 4 ∷ 0 ∷ 1 ∷ 0 ∷ []

abbrev first_buffers : Buffers
first_buffers = record {
  write_buffer = stale_bytes;
  buf = replicate 65538 9;
  received = record {
    combinedlen = 0 ∷ 0 ∷ [];
    numeric_data_array = 0 ∷ 0 ∷ 0 ∷ 0 ∷ [];
    numeric_response = 0;
  };
}

main_loop-Served_example :
    main_loop
      ((asking_args, whole_response first_response)
        ∷ (deleting_args, whole_response second_response)
        ∷ [])
      given_token
      first_buffers
    ≡ record {
      sent =
          header asking_args given_token (payload asking_args)
          ∷ header deleting_args given_token (payload deleting_args)
          ∷ [];
      reports = number_of 1 (u32 7) ∷ refused 4 2 ∷ [];
      ended = returned 0;
    }
unfolding payload config_payload
main_loop-Served_example =
    main_loop-Served given_token _ _ _ first_buffers refl
      (served_next (refl, omega arith) (answered_number 7 refl (omega arith)) (omega arith)
        (served_next (refl, omega arith) (answered_error 4 (omega arith) (omega arith))
          (omega arith) served_none))
      (length-stale_bytes, length-replicate {A = ℕ} 65538 9, refl, refl)

-- The request of `-u a:b` with the token of the only administrator.
request_of_a_b :
    Sends
      (record { letter = b'u'; optarg = (97 ∷ []) ++ b':' ∷ 98 ∷ [] })
      sixteen
      stale_bytes
      (1 ∷ (sixteen ++ 1 ∷ 1 ∷ 0 ∷ 3 ∷ 97 ∷ 0 ∷ 98 ∷ []))
request_of_a_b =
    option_adds-Sends b'u' 1 (97 ∷ []) (98 ∷ []) sixteen stale_bytes (adds_user (omega arith))
      (λ e. omega arith, tt) (λ e. omega arith, tt) (λ e. omega arith, tt) (omega arith)
      (omega arith) refl length-stale_bytes

abbrev adding : Service
adding = record serving { os = answers (sixteen ++ 1 ∷ 1 ∷ 0 ∷ 3 ∷ 97 ∷ 0 ∷ 98 ∷ []) }

monitor_read-Adds_example :
    (w' : Service) × (monitor_read adding ≡ some w')
    × IsSound w'.server.registry
    × (accounts w'.server.registry ≡ accounts_after (97 ∷ []) (98 ∷ []) no_users)
    × (w'.server.admin_table ≡ root_only)
    × (contents w'.write_buffer
        ≡ contents empty_buffer ++ status_after (97 ∷ []) no_users ∷ 0 ∷ 1 ∷ 0 ∷ [])
unfolding parse monitor_parser_feed monitor_is_done monitor_is_admin bytes_eq c_string
    monitor_parser_init is_admin_loop
monitor_read-Adds_example =
    monitor_read-Adds adding statics monitor_start (request_of_a_b.0) (97 ∷ []) (98 ∷ []) sixteen
      stale_bytes (1 ∷ []) (request_of_a_b.1) refl length-stale_bytes refl refl (refl, tt)
      (refl, tt) (omega arith) (omega arith) refl no_users-IsSound
      (record { consistent = one_used-IsConsistent; small = omega arith; inside = omega arith })
      (record { ordered = omega arith; bounded = omega arith; stored = omega arith }) (omega arith)
      (record { ordered = omega arith; bounded = omega arith; stored = omega arith }) refl refl refl
      (sym (request_of_a_b.2))
