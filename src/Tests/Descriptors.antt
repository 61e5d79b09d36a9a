-- ===== src/Tests/Descriptors.antt =====
-- The table of descriptors at concrete inputs.

use socks_v5_proxy.Prelude.{
  ◌==◌, get_elem?, pos, ℕ, zero, suc, ◌≡◌, refl, subst, ◌≢◌, ◌⊎◌, true, false, Option, none, some,
  [], ◌∷◌, arith,
}
use socks_v5_proxy.Selector.{
  SelectorStatus, selector_success, selector_iargs, FdInterest, Item, FdSelector, selector_register,
  selector_unregister_fd,
}
use socks_v5_proxy.Selector.Consistency.{Agreed, IsConsistent}
use socks_v5_proxy.Selector.Operations.{selector_unregister_fd-IsConsistent}
use socks_v5_proxy.Selector.Top.{IsTop}
use socks_v5_proxy.Selector.Registration.{registered, Registered, selector_register-IsConsistent}

abbrev reading : FdInterest
reading = record { op_read = true; op_write = false }

abbrev writing : FdInterest
writing = record { op_read = false; op_write = true }

-- Descriptor 1 is in use, with a number for its handler and for its attachment.
abbrev one_item : Item ℕ ℕ
one_item = registered 1 7 reading 9

abbrev pub one_used : FdSelector ℕ ℕ
one_used = record {
  fds = none ∷ some one_item ∷ none ∷ [];
  max_fd = 1;
  master_r = λ i. i == 1;
  master_w = λ i. false;
}

one_used-Agreed :
    (i : ℕ) (item : Item ℕ ℕ) → get_elem? one_used.fds i ≡ some (some item) → Agreed one_used i item
one_used-Agreed zero item h = cc
one_used-Agreed (suc zero) item h =
    let same : one_item ≡ item = cc in
    subst (λ o. Agreed one_used 1 o) same (refl, omega arith, refl, refl)
one_used-Agreed (suc (suc zero)) item h = cc
one_used-Agreed (suc (suc (suc i))) item h = cc

pub one_used-IsConsistent : IsConsistent one_used
one_used-IsConsistent = record { entries = λ i h. one_used-Agreed i _ h }

selector_register-IsConsistent_example :
    (st : SelectorStatus) × (s' : FdSelector ℕ ℕ) × (selector_register true one_used
        (pos 5)
        (some 8)
        writing
        2
      ≡ some (st, s'))
    × IsConsistent s'
    × Registered true one_used st s' (registered 5 8 writing 2)
selector_register-IsConsistent_example =
    selector_register-IsConsistent true one_used 5 8 writing 2 one_used-IsConsistent (omega arith)

selector_unregister_fd-IsConsistent_example :
    (st : SelectorStatus) × (s' : FdSelector ℕ ℕ) × (closed : Option (Item ℕ ℕ))
    × (selector_unregister_fd one_used (pos 1) ≡ some (st, s', closed))
    × IsConsistent s'
    × (((st ≡ selector_iargs) × (s' ≡ one_used) × (get_elem? one_used.fds 1 ≡ some none))
        ⊎ ((st ≡ selector_success)
            × (get_elem? one_used.fds 1 ≡ some closed)
            × (get_elem? s'.fds 1 ≡ some none)
            × (s'.master_r 1 ≡ false)
            × (s'.master_w 1 ≡ false)
            × IsTop s'
            × ((i : ℕ) → i ≢ 1 → get_elem? s'.fds i ≡ get_elem? one_used.fds i)))
selector_unregister_fd-IsConsistent_example =
    selector_unregister_fd-IsConsistent one_used 1 one_used-IsConsistent (omega arith) (omega arith)
