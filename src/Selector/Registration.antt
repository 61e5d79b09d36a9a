-- ===== src/Selector/Registration.antt =====
-- src/server/selector.c: registration, with the growth of the table.
use socks_v5_proxy.Prelude.{
  ltb, leb, if◌then◌else◌, ltb→lt, tests, Bool-cases, length, get_elem?, replicate, length-append,
  length-replicate, pos, ℕ, ◌-◌, ◌<◌, ◌≡◌, refl, ap, ◌⊎◌, inl, inr, Bool, true, false, Option, none,
  some, ◌++◌, arith,
}
use socks_v5_proxy.Selector.{
  SelectorStatus, selector_success, selector_enomem, selector_fdinuse, FdInterest, Item, FdSelector,
  items_max_size, next_capacity, items_update_fdset_for_fd, ensure_capacity, register_entry,
  register_fd, selector_register,
}
use socks_v5_proxy.Selector.Entries.{
  get_elem-append_unused, get_elem-inside, get_elem-set_here, entry-cases,
}
use socks_v5_proxy.Selector.Capacity.{next_capacity-room}
use socks_v5_proxy.Selector.Consistency.{IsConsistent, put, put-IsConsistent}

module _ {H D : Type 0} where
  -- What a registration stores.
  abbrev pub registered : ℕ → H → FdInterest → D → Item H D
  registered fd handler interest attachment = record {
    fd = fd;
    interest = interest;
    handler = handler;
    attachment = attachment;
  }

  -- The three ends of a registration that is well-formed.
  abbrev pub Registered :
      Bool → FdSelector H D → SelectorStatus → FdSelector H D → Item H D → Type 0
  Registered has_memory s st s' new =
      ((st ≡ selector_success) × (get_elem? s'.fds new.fd ≡ some (some new)))
      ⊎ (((st ≡ selector_fdinuse)
            × ((old : Item H D) × (get_elem? s'.fds new.fd ≡ some (some old)))
            × (s' ≡ s))
          ⊎ ((st ≡ selector_enomem) × (has_memory ≡ false) × (s' ≡ s)))

  register_entry-IsConsistent :
      (s : FdSelector H D) (fd : ℕ) (handler : H) (interest : FdInterest) (attachment : D)
      → IsConsistent s
      → fd < length s.fds
      → (st : SelectorStatus) × (s' : FdSelector H D) × (register_entry s fd handler interest
            attachment
          ≡ some (st, s'))
        × IsConsistent s'
        × (((st ≡ selector_success)
              × (get_elem? s.fds fd ≡ some none)
              × (get_elem? s'.fds fd ≡ some (some (registered fd handler interest attachment))))
            ⊎ ((st ≡ selector_fdinuse)
                × ((old : Item H D) × (get_elem? s.fds fd ≡ some (some old)))
                × (s' ≡ s)))
  unfolding register_entry items_update_fdset_for_fd
  register_entry-IsConsistent s fd handler interest attachment c inside =
      let new = registered fd handler interest attachment in
      let mx : ℕ = if ltb s.max_fd fd then fd else s.max_fd in
      elim (entry-cases s.fds fd inside) [
        | inr (item, e) ↦
            (selector_fdinuse, s, rw (e, register_entry) refl, c, inr (refl, (item, e), refl))
        | inl e ↦ (
          selector_success,
          put s mx new,
          rw (e, register_entry) refl,
          put-IsConsistent s mx new c (ground arith) (ground arith),
          inl (refl, e, get_elem-set_here s.fds fd (some new) inside),
        )
      ]

  -- A table with unused entries behind.
  abbrev longer : FdSelector H D → ℕ → FdSelector H D
  longer s n = record s { fds = s.fds ++ replicate n none }

  longer-IsConsistent : (s : FdSelector H D) (n : ℕ) → IsConsistent s → IsConsistent (longer s n)
  longer-IsConsistent s n c = record {
    entries = λ i h. c.entries i (get_elem-append_unused s.fds n i h);
  }

  get_elem-longer :
      (s : FdSelector H D) (n i : ℕ) {old : Item H D}
      → get_elem? (longer s n).fds i ≡ some (some old)
      → i < length s.fds
  get_elem-longer s n i h = get_elem-inside s.fds i (get_elem-append_unused s.fds n i h)

  ensure_capacity-grown :
      (has_memory : Bool) (s : FdSelector H D) (fd : ℕ)
      → ltb fd (length s.fds) ≡ false
      → ltb items_max_size fd ≡ false
      → has_memory ≡ true
      → ensure_capacity has_memory s fd
        ≡ (selector_success, longer s (next_capacity fd - length s.fds))
  unfolding ensure_capacity
  ensure_capacity-grown has_memory s fd e fits m = rw (e, fits, m) refl

  register_fd-grown :
      (has_memory : Bool) (s : FdSelector H D) (fd : ℕ) (handler : H) (interest : FdInterest)
      (attachment : D)
      → ltb fd (length s.fds) ≡ false
      → ltb items_max_size fd ≡ false
      → has_memory ≡ true
      → register_fd has_memory s fd handler interest attachment
        ≡ register_entry (longer s (next_capacity fd - length s.fds)) fd handler interest attachment
  unfolding register_fd
  register_fd-grown has_memory s fd handler interest attachment e fits m =
      rw (e, register_fd, ensure_capacity-grown has_memory s fd e fits m)
        (ap (λ r. register_entry r.1 fd handler interest attachment)
          (ensure_capacity-grown has_memory s fd e fits m))

  ensure_capacity-failed :
      (has_memory : Bool) (s : FdSelector H D) (fd : ℕ)
      → ltb fd (length s.fds) ≡ false
      → ltb items_max_size fd ≡ false
      → has_memory ≡ false
      → ensure_capacity has_memory s fd ≡ (selector_enomem, s)
  unfolding ensure_capacity
  ensure_capacity-failed has_memory s fd e fits m = rw (e, fits, m) refl

  register_fd-failed :
      (has_memory : Bool) (s : FdSelector H D) (fd : ℕ) (handler : H) (interest : FdInterest)
      (attachment : D)
      → ltb fd (length s.fds) ≡ false
      → ltb items_max_size fd ≡ false
      → has_memory ≡ false
      → register_fd has_memory s fd handler interest attachment ≡ some (selector_enomem, s)
  unfolding register_fd
  register_fd-failed has_memory s fd handler interest attachment e fits m =
      rw (e, register_fd, ensure_capacity-failed has_memory s fd e fits m)
        (ap (λ r. some (selector_enomem, r.1)) (ensure_capacity-failed has_memory s fd e fits m))

  -- Registering a descriptor below `items_max_size` with a handler ends without a read outside the
  -- table, and keeps the table, `max_fd` and the sets in agreement: it stores the entry, or finds the
  -- descriptor in use, or finds no memory for a longer table, and changes nothing then.
  pub selector_register-IsConsistent :
      (has_memory : Bool) (s : FdSelector H D) (fd : ℕ) (handler : H) (interest : FdInterest)
      (attachment : D)
      → IsConsistent s
      → fd < items_max_size
      → (st : SelectorStatus) × (s' : FdSelector H D) × (selector_register has_memory s
            (pos fd)
            (some handler)
            interest
            attachment
          ≡ some (st, s'))
        × IsConsistent s'
        × Registered has_memory s st s' (registered fd handler interest attachment)
  unfolding selector_register register_fd
  selector_register-IsConsistent has_memory s fd handler interest attachment c small =
      let test : leb items_max_size fd ≡ false = ground arith in
      let fits : ltb items_max_size fd ≡ false = ground arith in
      elim (Bool-cases (ltb fd (length s.fds))) [
        | inl e ↦
            let (st, s', q, c', cases) =
              register_entry-IsConsistent s fd handler interest attachment c
                (ltb→lt fd (length s.fds) e) in
            (
              st,
              s',
              rw (test, e, register_fd) q,
              c',
              elim cases [
                | inl (a, _, n) ↦ inl (a, n)
                | inr (a, (old, o), u) ↦ inr (inl (a, (old, rw u o), u))
              ],
            )
        | inr e ↦ elim (Bool-cases has_memory) [
          | inr m ↦ (
            selector_enomem,
            s,
            rw (test, register_fd-failed has_memory s fd handler interest attachment e fits m) refl,
            c,
            inr (inr (refl, m, refl)),
          )
          | inl m ↦
              let n : ℕ = next_capacity fd - length s.fds in
              let inside : fd < length (longer s n).fds = omega (
                tests,
                next_capacity-room fd small,
                length-append s.fds (replicate n none),
                length-replicate {A = Option (Item H D)} n none,
              ) in
              let (st, s', q, c', cases) =
                register_entry-IsConsistent (longer s n) fd handler interest attachment
                  (longer-IsConsistent s n c) inside in
              (
                st,
                s',
                rw (test, register_fd-grown has_memory s fd handler interest attachment e fits m) q,
                c',
                elim cases [
                  | inl (a, _, k) ↦ inl (a, k)
                  | inr (_, (old, o), _) ↦
                      let there : fd < length s.fds = get_elem-longer s n fd o in
                      absurd (ground arith)
                ],
              )
        ]
      ]
