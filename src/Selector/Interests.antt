-- ===== src/Selector/Interests.antt =====
-- src/server/selector.c: a change of interest, for the descriptors that are in use.
use socks_v5_proxy.Prelude.{
  leb, get_elem?, pos, ℕ, ◌<◌, ◌≡◌, refl, sym, ◌∙◌, ◌≢◌, inl, inr, false, some, arith,
}
use socks_v5_proxy.Selector.{
  selector_success, FdInterest, Item, FdSelector, items_max_size, items_update_fdset_for_fd,
  selector_set_interest,
}
use socks_v5_proxy.Selector.Entries.{get_elem-set}
use socks_v5_proxy.Selector.Consistency.{IsConsistent, put, put-IsConsistent}

module _ {H D : Type 0} where
  -- A descriptor that the selector can have, with an entry.
  pub record IsUsed (s : FdSelector H D) (fd : ℕ) : Type 0 where
    pub small : fd < items_max_size
    pub entry : (item : Item H D) × (get_elem? s.fds fd ≡ some (some item))

  put-IsUsed :
      (s : FdSelector H D) (mx : ℕ) (new : Item H D) (fd : ℕ)
      → IsUsed s fd
      → IsUsed (put s mx new) fd
  unfolding items_update_fdset_for_fd
  put-IsUsed s mx new fd u = elim (get_elem-set s.fds new.fd fd (some new)) [
    | inl (_, _, e) ↦ record { small = u.small; entry = (new, e) }
    | inr (e, _) ↦ let (item, old) = u.entry in record { small = u.small; entry = (item, e ∙ old) }
  ]

  -- The interest of a descriptor in use is changed with success: the table, `max_fd` and the sets go on
  -- agreeing, the descriptors in use are the same, and the other entries are as they were.
  pub selector_set_interest-away :
      (s : FdSelector H D) (fd : ℕ) (interest : FdInterest)
      → IsConsistent s
      → IsUsed s fd
      → (s' : FdSelector H D) × (selector_set_interest s (pos fd) interest
          ≡ some (selector_success, s'))
        × IsConsistent s'
        × ((k : ℕ) → IsUsed s k → IsUsed s' k)
        × ((k : ℕ) → k ≢ fd → get_elem? s'.fds k ≡ get_elem? s.fds k)
  unfolding selector_set_interest items_update_fdset_for_fd
  selector_set_interest-away s fd interest c u =
      let small = u.small in
      let test : leb items_max_size fd ≡ false = ground arith in
      let (item, e) = u.entry in
      let (own, low, _, _) = c.entries fd e in
      let new : Item H D = record item { interest = interest } in
      (
        put s s.max_fd new,
        rw (test, e, ← own) refl,
        put-IsConsistent s s.max_fd new c (omega arith) (omega arith),
        λ k. put-IsUsed s s.max_fd new k,
        λ k n. elim (get_elem-set s.fds item.fd k (some new)) [
          | inl (q, _, _) ↦ absurd (n (sym q ∙ own))
          | inr (q, _) ↦ q
        ],
      )

  pub selector_set_interest-IsUsed :
      (s : FdSelector H D) (fd : ℕ) (interest : FdInterest)
      → IsConsistent s
      → IsUsed s fd
      → (s' : FdSelector H D) × (selector_set_interest s (pos fd) interest
          ≡ some (selector_success, s'))
        × IsConsistent s'
        × ((k : ℕ) → IsUsed s k → IsUsed s' k)
  selector_set_interest-IsUsed s fd interest c u =
      let (s', e, agreed, kept, _) = selector_set_interest-away s fd interest c u in
      (s', e, agreed, kept)
