-- ===== src/Tests/Rounds.antt =====
-- A round of the event loop of the proxy, with its listening socket, at concrete inputs.

use socks_v5_proxy.Prelude.{◌==◌, ◌>>=◌, All, ℕ, ◌≡◌, true, false, none, some, [], ◌∷◌}
use socks_v5_proxy.Selector.{FdSelector, Item}
use socks_v5_proxy.Selector.Loop.{Loop, Handlers}
use socks_v5_proxy.Session.Accept.{Listener, Arrival, socksv5_passive_accept}

-- A client comes whose descriptor cannot be made not to block.
abbrev blocking_client : Arrival
blocking_client = record { client = some 2; set_nio = false; memory = true; table_memory = true }

-- The handlers of the listening socket of the proxy, which has one for reading only.
abbrev listening_handlers : Handlers ℕ ℕ Listener
listening_handlers = record {
  has_read = λ f. true;
  has_write = λ f. false;
  handle_read = λ f fd data_ l.
      socksv5_passive_accept blocking_client (record (l.world) { selector = l.selector })
      >>= (λ r. some (record l { selector = r.1.selector; world = r.1 }));
  handle_write = λ f fd data_ l. none;
  handle_block = λ f fd data_ l. none;
}

abbrev listening_item : Item ℕ ℕ
listening_item = record {
  fd = 1;
  interest = record { op_read = true; op_write = false };
  handler = 1;
  attachment = 9;
}

abbrev watched : FdSelector ℕ ℕ
watched = record {
  fds = none ∷ some listening_item ∷ none ∷ [];
  max_fd = 1;
  master_r = λ i. i == 1;
  master_w = λ i. false;
}

-- The table is that one, and the jobs are for a descriptor that has been closed meanwhile.
record Watches (l : Loop ℕ ℕ Listener) : Type 0 where
  pub table : l.selector ≡ watched
  pub stale : All (λ fd. fd ≡ 0) l.jobs

hung_up : Loop ℕ ℕ Listener → Loop ℕ ℕ Listener
hung_up l = record l {
  world = record (l.world) { selector = l.selector; closed = 2 ∷ l.world.closed };
}

abbrev waiting_loop : Loop ℕ ℕ Listener
waiting_loop = record {
  selector = watched;
  jobs = 0 ∷ [];
  world = record { selector = watched; number = 0; idle = 0; pool_size = 0; closed = [] };
}
