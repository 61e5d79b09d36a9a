-- ===== src/Selector/Setup.antt =====
-- src/server/selector.c: `selector_init`, `selector_close` and `selector_error`. What `sigprocmask` and
-- `sigaction` answer is an argument: whether they succeed.
use socks_v5_proxy.Prelude.{if◌then◌else◌, ℕ, ◌≡◌, sym, ap, Bool, true, false, List, [], ◌∷◌}
use socks_v5_proxy.Disector.{codes}
use socks_v5_proxy.Selector.{
  SelectorStatus, selector_success, selector_enomem, selector_maxfd, selector_iargs, selector_io,
}

record SelectorInit : Type 0 where
  signal : ℕ
  tv_sec : ℕ
  tv_nsec : ℕ

-- The static variables, the signals that the thread has blocked and those that `wake_handler` handles.
record Wakeups : Type 0 where
  conf : SelectorInit
  blockset : List ℕ
  emptyset : List ℕ
  blocked : List ℕ
  caught : List ℕ

selector_init : Bool → Bool → SelectorInit → Wakeups → SelectorStatus × Wakeups
selector_init sigprocmask sigaction c w =
    let masked : Wakeups = record w { conf = c; blockset = c.signal ∷ [] } in
    if sigprocmask
    then (let blocking : Wakeups = record masked { blocked = c.signal ∷ w.blocked } in
        if sigaction
        then (selector_success, record blocking { caught = c.signal ∷ w.caught; emptyset = [] })
        else (selector_io, blocking))
    else (selector_io, masked)

selector_close : Wakeups → SelectorStatus × Wakeups
selector_close w = (selector_success, w)

-- After a success the signal waits while a round works, and is handled.
selector_init-caught :
    (sigprocmask sigaction : Bool) (c : SelectorInit) (w w' : Wakeups)
    → selector_init sigprocmask sigaction c w ≡ (selector_success, w')
    → (w'.conf ≡ c)
      × (w'.blocked ≡ c.signal ∷ w.blocked)
      × (w'.caught ≡ c.signal ∷ w.caught)
      × (w'.emptyset ≡ [])
unfolding selector_init
selector_init-caught false _ c w w' h = cc
selector_init-caught true false c w w' h = cc
selector_init-caught true true c w w' h =
    let same = sym (ap (λ r. r.1) h) in
    (
      ap (λ v. v.conf) same,
      ap (λ v. v.blocked) same,
      ap (λ v. v.caught) same,
      ap (λ v. v.emptyset) same,
    )

abbrev error_default_msg : List ℕ
error_default_msg = codes "something failed"

selector_error : SelectorStatus → List ℕ
selector_error selector_success = codes "Success"
selector_error selector_enomem = codes "Not enough memory"
selector_error selector_maxfd = codes "Can't handle any more file descriptors"
selector_error selector_iargs = codes "Illegal argument"
selector_error selector_io = codes "I/O error"
selector_error _ = error_default_msg
