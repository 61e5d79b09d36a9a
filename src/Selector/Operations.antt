-- ===== src/Selector/Operations.antt =====
-- src/server/selector.c: unregistration and changes of interest.

use socks_v5_proxy.Prelude.{
  leb, ◌==◌, length, get_elem?, pos, ℕ, ◌<◌, ◌≡◌, refl, sym, ◌≢◌, ◌⊎◌, inl, inr, true, false,
  Option, none, some, arith,
}
use socks_v5_proxy.Selector.{
  SelectorStatus, selector_success, selector_iargs, FdInterest, Item, FdSelector, items_max_size,
  items_update_fdset_for_fd, selector_unregister_fd, selector_set_interest,
}
use socks_v5_proxy.Selector.Entries.{get_elem-set, get_elem-set_here, entry-cases}
use socks_v5_proxy.Selector.Top.{IsTop, cleared-IsTop}
use socks_v5_proxy.Selector.Consistency.{
  IsConsistent, put, put-IsConsistent, cleared, cleared-IsConsistent,
}

module _ {H D : Type 0} where
  -- A change of the interest of a descriptor that the table has room for ends without a read outside
  -- the table, and keeps the table, `max_fd` and the sets in agreement; it succeeds exactly for a
  -- descriptor in use.
  pub selector_set_interest-IsConsistent :
      (s : FdSelector H D) (fd : ℕ) (interest : FdInterest)
      → IsConsistent s
      → fd < items_max_size
      → fd < length s.fds
      → (st : SelectorStatus) × (s' : FdSelector H D) × (selector_set_interest s (pos fd) interest
          ≡ some (st, s'))
        × IsConsistent s'
        × (((st ≡ selector_iargs) × (s' ≡ s) × (get_elem? s.fds fd ≡ some none))
            ⊎ ((st ≡ selector_success)
                × ((item : Item H D) × (get_elem? s.fds fd ≡ some (some item))
                    × (get_elem? s'.fds fd ≡ some (some (record item { interest = interest }))))))
  unfolding selector_set_interest items_update_fdset_for_fd
  selector_set_interest-IsConsistent s fd interest c small inside =
      elim (entry-cases s.fds fd inside) [
        | inl e ↦
            let test : leb items_max_size fd ≡ false = ground arith in
            (selector_iargs, s, rw (test, e) refl, c, inl (refl, refl, e))
        | inr (item, e) ↦
            let test : leb items_max_size fd ≡ false = ground arith in
            let (own, low, _, _) = c.entries fd e in
            let new : Item H D = record item { interest = interest } in
            (
              selector_success,
              put s s.max_fd new,
              rw (test, e, ← own) refl,
              put-IsConsistent s s.max_fd new c (omega arith) (omega arith),
              inr (
                refl,
                (
                  item,
                  e,
                  rw own (
                      get_elem-set_here s.fds fd
                        (some (record item { fd = fd; interest = interest })) inside),
                ),
              ),
            )
      ]

  -- Unregistering a descriptor that the table has room for ends without a read outside the table, and
  -- keeps the table, `max_fd` and the sets in agreement. For a descriptor in use it succeeds, hands on
  -- its entry, frees the place, takes the descriptor out of both sets, leaves the other entries and
  -- recomputes `max_fd`, which is in use then, or 0; for one that is not in use it changes nothing.
  pub selector_unregister_fd-IsConsistent :
      (s : FdSelector H D) (fd : ℕ)
      → IsConsistent s
      → fd < items_max_size
      → fd < length s.fds
      → (st : SelectorStatus) × (s' : FdSelector H D) × (closed : Option (Item H D))
        × (selector_unregister_fd s (pos fd) ≡ some (st, s', closed))
        × IsConsistent s'
        × (((st ≡ selector_iargs) × (s' ≡ s) × (get_elem? s.fds fd ≡ some none))
            ⊎ ((st ≡ selector_success)
                × (get_elem? s.fds fd ≡ some closed)
                × (get_elem? s'.fds fd ≡ some none)
                × (s'.master_r fd ≡ false)
                × (s'.master_w fd ≡ false)
                × IsTop s'
                × ((i : ℕ) → i ≢ fd → get_elem? s'.fds i ≡ get_elem? s.fds i)))
  unfolding selector_unregister_fd items_update_fdset_for_fd
  selector_unregister_fd-IsConsistent s fd c small inside =
      let test : leb items_max_size fd ≡ false = ground arith in
      let here : (fd == fd) ≡ true = ground arith in
      elim (entry-cases s.fds fd inside) [
        | inl e ↦ (selector_iargs, s, none, rw (test, e) refl, c, inl (refl, refl, e))
        | inr (item, e) ↦
            let (own, _, _, _) = c.entries fd e in
            (
              selector_success,
              cleared s fd,
              some item,
              rw (test, e, own) refl,
              cleared-IsConsistent s fd c,
              inr (
                refl,
                e,
                get_elem-set_here s.fds fd none inside,
                rw here refl,
                rw here refl,
                cleared-IsTop s fd c,
                λ i n. elim (get_elem-set s.fds fd i none) [
                  | inl (q, _, _) ↦ absurd (n (sym q))
                  | inr (q, _) ↦ q
                ],
              ),
            )
      ]
