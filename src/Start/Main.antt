-- ===== src/Start/Main.antt =====
-- src/server.c: `main` from the command line to its end. What the system answers is a record; what `pselect`
-- answers in a round, and whether a signal comes in it, is a list. The handlers of the selector, with what
-- they change, are parameters, as in the event loop.
pub mod Ends
use socks_v5_proxy.Prelude.{
  if◌then◌else◌, ℤ, pos, negsuc, ◌>>=◌, ℕ, Bool, true, false, Option, none, some, List, [], ◌∷◌,
}
use socks_v5_proxy.CommandLine.{CommandLine}
use socks_v5_proxy.Args.{Socks5Args, parse_args}
use socks_v5_proxy.Selector.{SelectorStatus, selector_success, Item, FdSelector}
use socks_v5_proxy.Selector.Loop.{Loop, Polled, Handlers, selector_select}
use socks_v5_proxy.Selector.Ending.{selector_destroy}
use socks_v5_proxy.Session.{is_success}
use socks_v5_proxy.Admins.Process.{Server}
use socks_v5_proxy.Start.{
  IpVersion, SocketAnswers, Sockets, Opening, opened, failed, unparsed, open_sockets, populate,
  first_server,
}
use socks_v5_proxy.Start.Listening.{
  Passive, Fcntl, SetUp, listening, flags_failed, selector_failed, registration_failed, set_up,
}

pub record System : Type 0 where
  pub inet_pton : IpVersion → List ℕ → Option (List ℕ)
  pub answers : IpVersion → List ℕ → ℕ → SocketAnswers
  pub fcntl : ℤ → Fcntl → ℤ
  pub selector_init : Bool
  pub has_block : Bool
  pub has_memory : Bool
  pub root_token : Option (List ℕ)

pub record Round : Type 0 where
  pub polled : Polled
  pub signalled : Bool

-- The descriptors of the used sockets, in the order in which they are closed.
abbrev pub used : ℤ → List ℕ → List ℕ
used (pos fd) fds = fd ∷ fds
used (negsuc n) fds = fds

abbrev pub close_sockets : Sockets → List ℕ
close_sockets v = used v.server_v4 (used v.server_v6 (used v.monitor_v4 (used v.monitor_v6 [])))

-- What the end of `main` leaves: the items that `selector_destroy` closes, the sockets that are closed, and
-- `ret`, which is `none` where it has not been set.
pub record Ending (H D : Type 0) : Type 0 where
  pub closed_items : List (Item H D)
  pub closed : List ℕ
  pub ret : Option ℕ

-- How the loop ends: by the signals, or by a round that fails; or it waits for a round that is not listed.
pub data Serving (H D W : Type 0) : Type 0 where
  waiting : Loop H D W → Serving H D W
  ended : SelectorStatus → Loop H D W → Serving H D W

-- `exited` are the calls of `exit`, for the command line and for the token.
pub data Run (H D W : Type 0) : Type 0 where
  serving : Loop H D W → Run H D W
  exited : Run H D W
  returned : Ending H D → Run H D W

module _ {H D W : Type 0} where
  -- From `finally` on: the status, whether there is a message, `ret`, the selector if it is not NULL.
  unfoldable pub finally :
      SelectorStatus → Bool → Option ℕ → Option (FdSelector H D) → Sockets → Option (Run H D W)
  finally ss has_message ret selector v = do
    items ← elim selector [ none ↦ some [] | some s ↦ selector_destroy s ]
    some (
        returned (record {
          closed_items = items;
          closed = close_sockets v;
          ret = if is_success ss then (if has_message then some 1 else ret) else some 2;
        }))

  -- The loop, whose first test has `done`.
  unfoldable pub serve : Handlers H D W → Bool → List Round → Loop H D W → Option (Serving H D W)
  serve h true rounds l = some (ended selector_success l)
  serve h false [] l = some (waiting l)
  serve h false (r ∷ rounds) l = do
    (st, l') ← selector_select h r.polled l
    let rest = serve h r.signalled rounds l'
    if is_success st then rest else some (ended st l')

  -- Behind the loop there is a message in any case, and `ret` is 0 after the signals.
  unfoldable pub leave : Sockets → Serving H D W → Option (Run H D W)
  leave v (waiting l) = some (serving l)
  leave v (ended st l) =
      finally st true (if is_success st then some 0 else none) (some l.selector) v

  module _ (h : Handlers H D W) (handlers : Passive → H) (null : D) (world : Server → W)
      (sys : System) where
    -- Behind the registrations.
    unfoldable pub serve_clients :
        Socks5Args → Bool → List Round → Sockets → FdSelector H D → Option (Run H D W)
    serve_clients args signalled rounds v s = elim (populate sys.root_token args first_server) [
      | none ↦ some exited
      | some server ↦
          serve h signalled rounds (record { selector = s; jobs = []; world = world server })
          >>= leave v
    ]

    unfoldable pub after_set_up :
        Socks5Args → Bool → List Round → Sockets → SetUp H D → Option (Run H D W)
    after_set_up args signalled rounds v (listening s) = serve_clients args signalled rounds v s
    after_set_up args signalled rounds v flags_failed = finally selector_success true none none v
    after_set_up args signalled rounds v selector_failed = finally selector_success true none none v
    after_set_up args signalled rounds v (registration_failed st s) =
        finally st true none (some s) v

    unfoldable pub run_server : Socks5Args → Bool → List Round → Opening → Option (Run H D W)
    run_server args signalled rounds (failed v) = finally selector_success true none none v
    run_server args signalled rounds (unparsed v) = finally selector_success false none none v
    run_server args signalled rounds (opened v) =
        set_up handlers null sys.fcntl sys.selector_init sys.has_block sys.has_memory v
        >>= after_set_up args signalled rounds v

    unfoldable pub main : CommandLine → Bool → List Round → Option (Run H D W)
    main line signalled rounds = elim (parse_args line) [
      | none ↦ some exited
      | some args ↦ run_server args signalled rounds (open_sockets sys.inet_pton sys.answers args)
    ]
