-- ===== src/Selector/Consistency.antt =====
-- src/server/selector.c: the table of descriptors, `max_fd` and the two sets agree.
use socks_v5_proxy.Prelude.{
  ltb, ◌==◌, if◌then◌else◌, length, get_elem?, set, take, ℕ, zero, suc, ◌≤◌, ◌<◌, ◌≡◌, refl, sym,
  subst, ◌∙◌, inl, inr, true, false, Option, none, some, List, [], ◌∷◌, arith,
}
use socks_v5_proxy.Selector.{op_noop, Item, FdSelector, items_max_fd, items_update_fdset_for_fd}
use socks_v5_proxy.Selector.Entries.{get_elem-set, get_elem-inside, get_elem-take}

module _ {H D : Type 0} where
  -- What holds of the entry in use at an index: its descriptor is the index, `max_fd` is not below it,
  -- and the two sets have its interest.
  abbrev pub Agreed : FdSelector H D → ℕ → Item H D → Type 0
  Agreed s i item =
      (item.fd ≡ i)
      × (i ≤ s.max_fd)
      × (s.master_r i ≡ item.interest.op_read)
      × (s.master_w i ≡ item.interest.op_write)

  pub record IsConsistent (s : FdSelector H D) : Type 0 where
    pub entries : (i : ℕ) {item : Item H D} → get_elem? s.fds i ≡ some (some item) → Agreed s i item

  items_max_fd-least : (xs : List (Option (Item H D))) (m : ℕ) → m ≤ items_max_fd xs m
  unfolding items_max_fd
  items_max_fd-least [] m = omega arith
  items_max_fd-least (none ∷ xs) m = items_max_fd-least xs m
  items_max_fd-least (some item ∷ xs) m =
      let ih = items_max_fd-least xs (if ltb m item.fd then item.fd else m) in ground arith

  items_max_fd-bound :
      (xs : List (Option (Item H D))) (m i : ℕ) {item : Item H D}
      → get_elem? xs i ≡ some (some item)
      → item.fd ≤ items_max_fd xs m
  unfolding items_max_fd
  items_max_fd-bound [] m i h = cc
  items_max_fd-bound (none ∷ xs) m zero h = cc
  items_max_fd-bound (none ∷ xs) m (suc i) h = items_max_fd-bound xs m i h
  items_max_fd-bound (some it ∷ xs) m zero {item} h =
      let least = items_max_fd-least xs (if ltb m it.fd then it.fd else m) in
      let same : it.fd ≡ item.fd = cc in ground arith
  items_max_fd-bound (some it ∷ xs) m (suc i) h =
      items_max_fd-bound xs (if ltb m it.fd then it.fd else m) i h

  -- The selector with an entry put at its own index, and the sets and `max_fd` brought up to it.
  abbrev pub put : FdSelector H D → ℕ → Item H D → FdSelector H D
  put s mx item =
      items_update_fdset_for_fd (record s { fds = set s.fds item.fd (some item); max_fd = mx })
        item.fd item.interest

  put-Agreed :
      (s : FdSelector H D) (mx : ℕ) (item other : Item H D) (i : ℕ)
      → IsConsistent s
      → s.max_fd ≤ mx
      → item.fd ≤ mx
      → get_elem? (set s.fds item.fd (some item)) i ≡ some (some other)
      → Agreed (put s mx item) i other
  unfolding items_update_fdset_for_fd
  put-Agreed s mx item other i c l m h = elim (get_elem-set s.fds item.fd i (some item)) [
    | inl (e, _, q) ↦
        let same : item ≡ other = cc in
        let here : (i == item.fd) ≡ true = ground arith in
        subst (λ o. Agreed (put s mx item) i o) same
          (
            e,
            omega arith,
            rw (here, items_update_fdset_for_fd) refl,
            rw (here, items_update_fdset_for_fd) refl,
          )
    | inr (q, inl n) ↦
        let (a, b, r, w) = c.entries i (sym q ∙ h) in
        let away : (i == item.fd) ≡ false = ground arith in
        (
          a,
          omega arith,
          rw (away, items_update_fdset_for_fd) r,
          rw (away, items_update_fdset_for_fd) w,
        )
    | inr (q, inr out) ↦
        let old = sym q ∙ h in
        let (a, b, r, w) = c.entries i old in
        let inside : i < length s.fds = get_elem-inside s.fds i old in
        let away : (i == item.fd) ≡ false = ground arith in
        (
          a,
          omega arith,
          rw (away, items_update_fdset_for_fd) r,
          rw (away, items_update_fdset_for_fd) w,
        )
  ]

  pub put-IsConsistent :
      (s : FdSelector H D) (mx : ℕ) (item : Item H D)
      → IsConsistent s
      → s.max_fd ≤ mx
      → item.fd ≤ mx
      → IsConsistent (put s mx item)
  unfolding items_update_fdset_for_fd
  put-IsConsistent s mx item c l m = record { entries = λ i h. put-Agreed s mx item _ i c l m h }

  -- The selector without the entry at an index.
  abbrev pub cleared : FdSelector H D → ℕ → FdSelector H D
  cleared s fd =
      items_update_fdset_for_fd
        (record s {
          fds = set s.fds fd none;
          max_fd = items_max_fd (take (suc s.max_fd) (set s.fds fd none)) 0;
        })
        fd op_noop

  cleared-Agreed :
      (s : FdSelector H D) (fd i : ℕ) (other : Item H D)
      → IsConsistent s
      → get_elem? (set s.fds fd none) i ≡ some (some other)
      → Agreed (cleared s fd) i other
  unfolding items_update_fdset_for_fd
  cleared-Agreed s fd i other c h = elim (get_elem-set s.fds fd i none) [
    | inl (e, _, q) ↦
        let clash : ◌≡◌ {A = Option (Option (Item H D))} (some none) (some (some other)) =
          sym q ∙ h in
        cc
    | inr (q, w) ↦
        let old = sym q ∙ h in
        let (own, low, r, t) = c.entries i old in
        let inside : i < length s.fds = get_elem-inside s.fds i old in
        let away : (i == fd) ≡ false = elim w [ inl n ↦ ground arith | inr out ↦ ground arith ] in
        let bound : other.fd ≤ items_max_fd (take (suc s.max_fd) (set s.fds fd none)) 0 =
          items_max_fd-bound (take (suc s.max_fd) (set s.fds fd none)) 0 i
            (get_elem-take (suc s.max_fd) (set s.fds fd none) i (omega arith) ∙ h) in
        (
          own,
          omega arith,
          rw (away, items_update_fdset_for_fd) r,
          rw (away, items_update_fdset_for_fd) t,
        )
  ]

  pub cleared-IsConsistent :
      (s : FdSelector H D) (fd : ℕ) → IsConsistent s → IsConsistent (cleared s fd)
  unfolding items_update_fdset_for_fd
  cleared-IsConsistent s fd c = record { entries = λ i h. cleared-Agreed s fd i _ c h }
