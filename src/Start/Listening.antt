-- ===== src/Start/Listening.antt =====
-- src/server.c and `selector_new` of src/server/selector.c: how the listening sockets come into the
-- selector, from the flags of the sockets to the last registration. The answers of `fcntl` and
-- `selector_init`, and whether there is memory, are parameters.
pub mod Settled
use socks_v5_proxy.Prelude.{
  if◌then◌else◌, ℤ, pos, negsuc, ◌>>=◌, ℕ, zero, Bool, true, false, not, ◌&&◌, ◌||◌, Option, none,
  some, List, [], ◌∷◌,
}
use socks_v5_proxy.Selector.{
  SelectorStatus, selector_success, FdSelector, ensure_capacity, selector_register,
}
use socks_v5_proxy.Session.{op_read_only, is_success}
use socks_v5_proxy.Start.{Sockets}

-- The two `fd_handler`s of `main`: the reading handler is `socksv5_passive_accept` or
-- `monitor_passive_accept`, and there are no others.
pub data Passive : Type 0 where
  socksv5 monitor : Passive

-- A selector with no table.
abbrev pub no_table : {H D : Type 0} → FdSelector H D
no_table = record { fds = []; max_fd = 0; master_r = λ i. false; master_w = λ i. false }

unfoldable pub selector_new : {H D : Type 0} → Bool → Bool → ℕ → Option (FdSelector H D)
selector_new has_block has_memory initial_elements =
    if has_block
    then (let (st, s) = ensure_capacity has_memory no_table initial_elements in
        if is_success st then some s else none)
    else none

-- The calls of `fcntl`; `f_setfl flags` is made with `flags | O_NONBLOCK`.
pub data Fcntl : Type 0 where
  f_getfd : Fcntl
  f_setfl : ℤ → Fcntl

abbrev pub is_minus_one : ℤ → Bool
is_minus_one (negsuc zero) = true
is_minus_one _ = false

unfoldable pub selector_fd_set_nio : (ℤ → Fcntl → ℤ) → ℤ → ℤ
selector_fd_set_nio fcntl fd =
    let flags = fcntl fd f_getfd in
    if is_minus_one flags
    then negsuc 0
    else if is_minus_one (fcntl fd (f_setfl flags))
    then negsuc 0
    else pos 0

-- How this part of `main` ends: it goes on to the accounts, or at `finally` with the message for a socket
-- whose flags cannot be set, for the selector, or with the status of a registration.
pub data SetUp (H D : Type 0) : Type 0 where
  listening : FdSelector H D → SetUp H D
  flags_failed : SetUp H D
  selector_failed : SetUp H D
  registration_failed : SelectorStatus → FdSelector H D → SetUp H D

-- The order in which `main` registers.
abbrev pub passives : Sockets → List (Passive × ℤ)
passives v =
    (socksv5, v.server_v4)
    ∷ (socksv5, v.server_v6)
    ∷ (monitor, v.monitor_v4)
    ∷ (monitor, v.monitor_v6)
    ∷ []

-- Whether `main` goes on behind the test of a socket.
abbrev pub has_flags : (ℤ → Fcntl → ℤ) → ℤ → Bool
has_flags fcntl fd = is_minus_one fd || not (is_minus_one (selector_fd_set_nio fcntl fd))

-- The handlers behind the two pointers, and the attachment NULL.
module _ {H D : Type 0} (handlers : Passive → H) (null : D) where
  -- A socket whose descriptor is `fd_unused` is passed over.
  unfoldable pub register_passive :
      Bool → Passive → ℤ → FdSelector H D → Option (SelectorStatus × FdSelector H D)
  register_passive has_memory handler (negsuc zero) s = some (selector_success, s)
  register_passive has_memory handler fd s =
      selector_register has_memory s fd (some (handlers handler)) op_read_only null

  -- Registrations up to the first that fails.
  unfoldable pub register_all : Bool → List (Passive × ℤ) → FdSelector H D → Option (SetUp H D)
  register_all has_memory [] s = some (listening s)
  register_all has_memory (p ∷ ps) s = do
    (st, s') ← register_passive has_memory p.0 p.1 s
    let rest = register_all has_memory ps s'
    if is_success st then rest else some (registration_failed st s')

  unfoldable pub set_up : (ℤ → Fcntl → ℤ) → Bool → Bool → Bool → Sockets → Option (SetUp H D)
  set_up fcntl selector_init has_block has_memory v =
      if has_flags fcntl v.server_v4
        && has_flags fcntl v.server_v6
        && has_flags fcntl v.monitor_v4
        && has_flags fcntl v.monitor_v6
      then (if selector_init
          then elim (selector_new has_block has_memory 1024) [
            | none ↦ some selector_failed
            | some s ↦ register_all has_memory (passives v) s
          ]
          else some selector_failed)
      else some flags_failed
