-- ===== src/Selector/Ending.antt =====
-- src/server/selector.c: `selector_destroy`. The handlers of the closed entries do not use the selector; the
-- blocks that are freed are not values of the model.
use socks_v5_proxy.Prelude.{
  leb, length, get_elem?, set, take, drop, length-set, pos, ◌>>=◌, ℕ, zero, suc, ◌+◌, ◌≤◌, ◌<◌, ◌≡◌,
  refl, sym, ◌∙◌, inl, inr, false, Option, none, some, List, [], ◌∷◌, arith,
}
use socks_v5_proxy.Selector.{
  op_noop, Item, FdSelector, items_max_size, items_max_fd, items_update_fdset_for_fd,
  selector_unregister_fd,
}
use socks_v5_proxy.Selector.Entries.{get_elem-set, entry-cases}

module _ {H D : Type 0} where
  abbrev pub with_closed : Option (Item H D) → List (Item H D) → List (Item H D)
  with_closed none items = items
  with_closed (some item) items = item ∷ items

  -- The rounds of the loop for n entries from an index on, with the items that are closed.
  unfoldable pub destroy_entries : ℕ → ℕ → FdSelector H D → Option (List (Item H D))
  destroy_entries zero i s = some []
  destroy_entries (suc n) i s = elim (get_elem? s.fds i) [
    | none ↦ none
    | some none ↦ destroy_entries n (suc i) s
    | some (some item) ↦ do
      (st, s', closed) ← selector_unregister_fd s (pos i)
      items ← destroy_entries n (suc i) s'
      some (with_closed closed items)
  ]

  unfoldable pub selector_destroy : FdSelector H D → Option (List (Item H D))
  selector_destroy s = destroy_entries (length s.fds) 0 s

  -- The entries in use, in the order of the table.
  abbrev pub items_in_use : List (Option (Item H D)) → List (Item H D)
  items_in_use [] = []
  items_in_use (none ∷ xs) = items_in_use xs
  items_in_use (some item ∷ xs) = item ∷ items_in_use xs

  drop-entry :
      (xs : List (Option (Item H D))) (i : ℕ) (x : Option (Item H D))
      → get_elem? xs i ≡ some x
      → drop i xs ≡ x ∷ drop (suc i) xs
  drop-entry [] i x h = cc
  drop-entry (y ∷ xs) zero x h = cc
  drop-entry (y ∷ xs) (suc i) x h = drop-entry xs i x h

  drop-set :
      (xs : List (Option (Item H D))) (i : ℕ) (x : Option (Item H D))
      → drop (suc i) (set xs i x) ≡ drop (suc i) xs
  drop-set [] i x = refl
  drop-set (y ∷ xs) zero x = refl
  drop-set (y ∷ xs) (suc i) x = drop-set xs i x

  drop-all : (xs : List (Option (Item H D))) (i : ℕ) → length xs ≤ i → drop i xs ≡ []
  drop-all [] zero h = refl
  drop-all [] (suc i) h = refl
  drop-all (y ∷ xs) zero h = absurd (omega arith)
  drop-all (y ∷ xs) (suc i) h = drop-all xs i (omega arith)

  -- No descriptor from `items_max_size` on is in use.
  abbrev pub IsLow : List (Option (Item H D)) → Type 0
  IsLow xs = (i : ℕ) (item : Item H D) → get_elem? xs i ≡ some (some item) → i < items_max_size

  set-IsLow : (xs : List (Option (Item H D))) (i : ℕ) → IsLow xs → IsLow (set xs i none)
  set-IsLow xs i low j item h = elim (get_elem-set xs i j none) [
    | inl (_, _, q) ↦
        let clash : ◌≡◌ {A = Option (Option (Item H D))} (some none) (some (some item)) =
          sym q ∙ h in
        cc
    | inr (q, _) ↦ low j item (sym q ∙ h)
  ]

  destroy_entries-items_in_use :
      (n i : ℕ) (s : FdSelector H D)
      → n + i ≡ length s.fds
      → IsLow s.fds
      → destroy_entries n i s ≡ some (items_in_use (drop i s.fds))
  unfolding destroy_entries selector_unregister_fd items_update_fdset_for_fd
  destroy_entries-items_in_use zero i s e low = rw (drop-all s.fds i (omega arith)) refl
  destroy_entries-items_in_use (suc n) i s e low = elim (entry-cases s.fds i (omega arith)) [
    | inl h ↦
        rw (destroy_entries, h, drop-entry s.fds i none h)
          (destroy_entries-items_in_use n (suc i) s (omega arith) low)
    | inr (item, h) ↦
        let test : leb items_max_size i ≡ false = let l = low i item h in ground arith in
        let size = length-set s.fds i none in
        let s1 : FdSelector H D =
          items_update_fdset_for_fd
            (record s {
              fds = set s.fds i none;
              max_fd = items_max_fd (take (suc s.max_fd) (set s.fds i none)) 0;
            })
            item.fd op_noop in
        let ih = destroy_entries-items_in_use n (suc i) s1 (omega arith) (set-IsLow s.fds i low) in
        rw (destroy_entries, h, test, drop-entry s.fds i (some item) h)
          (rw (h, ih, drop-set s.fds i none) refl)
  ]

  -- Where no descriptor from `items_max_size` on is in use, the loop closes each entry in use once, in the
  -- order of the table, and reads no entry outside it.
  pub selector_destroy-items_in_use :
      (s : FdSelector H D) → IsLow s.fds → selector_destroy s ≡ some (items_in_use s.fds)
  unfolding selector_destroy
  selector_destroy-items_in_use s low =
      destroy_entries-items_in_use (length s.fds) 0 s (omega arith) low
