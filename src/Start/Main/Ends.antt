-- ===== src/Start/Main/Ends.antt =====
-- src/server.c: how `main` ends, from the command line to the descriptors that it closes, for any handlers.
use socks_v5_proxy.CommandLine.{CommandLine}
use socks_v5_proxy.Args.{Socks5Args}
use socks_v5_proxy.Session.{is_success}
use socks_v5_proxy.Prelude.{
  if◌then◌else◌, All, ℕ, ◌≡◌, ◌⊎◌, Bool, false, ◌&&◌, Option, none, some, List, [],
}
use socks_v5_proxy.Selector.{SelectorStatus, Item}
use socks_v5_proxy.Selector.Loop.{Loop, Handlers}
use socks_v5_proxy.Selector.Ending.{IsLow, selector_destroy}
use socks_v5_proxy.Admins.Process.{Server}
use socks_v5_proxy.Start.{Sockets, Opening, opened, failed, unparsed, populate, first_server}
use socks_v5_proxy.Start.Listening.{Passive, passives}
use socks_v5_proxy.Start.Listening.Settled.{IsDescriptor, Apart, IsReady, Watched, flags_of}
use socks_v5_proxy.Start.Main.{
  System, Round, close_sockets, waiting, ended, Run, serving, exited, returned, serve,
}

abbrev pub sockets_of : Opening → Sockets
sockets_of (opened v) = v
sockets_of (failed v) = v
sockets_of (unparsed v) = v

-- The descriptors of the sockets that `main` goes on with are below `items_max_size`, each its own.
abbrev pub IsApartOpening : Opening → Type 0
IsApartOpening (opened v) = All (λ p. IsDescriptor p.1) (passives v) × Apart (passives v)
IsApartOpening (failed v) = Unit
IsApartOpening (unparsed v) = Unit

module _ {H D W : Type 0} (h : Handlers H D W) (handlers : Passive → H) (null : D)
    (world : Server → W) (sys : System) where
  -- The event loop is entered: the token is set, the accounts are registered, and the selector has the sockets.
  pub record Entered (args : Socks5Args) (v : Sockets) (l : Loop H D W) : Type 0 where
    pub server : Server
    pub populated : populate sys.root_token args first_server ≡ some server
    pub started : l.world ≡ world server
    pub idle : l.jobs ≡ []
    pub settled : IsReady l.selector
    pub watched : All (Watched handlers null l.selector) (passives v)

  -- The value behind a loop that ended with a status, and behind no loop.
  abbrev pub value_after : SelectorStatus → ℕ
  value_after st = if is_success st then 1 else 2

  -- What becomes of a run whose event loop is entered: it still waits, or the loop has ended and the items of the
  -- table are closed; it aborts where the loop does, in a handler, or where the table that the handlers have left
  -- cannot be closed.
  abbrev pub Looped : Bool → List Round → Sockets → Loop H D W → Option (Run H D W) → Type 0
  Looped signalled rounds v l result =
      ((l' : Loop H D W) × (serve h signalled rounds l ≡ some (waiting l'))
        × (result ≡ some (serving l')))
      ⊎ (((st : SelectorStatus) × (l' : Loop H D W) × (items : List (Item H D)) × (serve h signalled
                rounds l
              ≡ some (ended st l'))
            × (selector_destroy l'.selector ≡ some items)
            × (result
                ≡ some (
                    returned (record {
                      closed_items = items;
                      closed = close_sockets v;
                      ret = some (value_after st);
                    }))))
          ⊎ ((result ≡ none)
              × ((serve h signalled rounds l ≡ none)
                  ⊎ ((st : SelectorStatus) × (l' : Loop H D W) × (serve h signalled rounds l
                        ≡ some (ended st l'))
                      × (selector_destroy l'.selector ≡ none)
                      × (IsLow l'.selector.fds → ⊥)))))

  -- The sockets are closed and nothing else is, with 1.
  abbrev pub Failed : Sockets → Option (Run H D W) → Type 0
  Failed v result =
      result
      ≡ some (returned (record { closed_items = []; closed = close_sockets v; ret = some 1 }))

  abbrev pub Ends : Socks5Args → Bool → List Round → Opening → Option (Run H D W) → Type 0
  Ends args signalled rounds (failed v) result = Failed v result
  Ends args signalled rounds (unparsed v) result =
      result ≡ some (returned (record { closed_items = []; closed = close_sockets v; ret = none }))
  Ends args signalled rounds (opened v) result =
      (((flags_of sys.fcntl v && sys.selector_init && sys.has_block && sys.has_memory) ≡ false)
        × Failed v result)
      ⊎ (((sys.root_token ≡ none) × (result ≡ some exited))
          ⊎ ((l : Loop H D W) × Entered args v l × Looped signalled rounds v l result))
