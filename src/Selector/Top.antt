-- ===== src/Selector/Top.antt =====
-- src/server/selector.c: what `items_max_fd` finds.
use socks_v5_proxy.Prelude.{
  ltb, if◌then◌else◌, Bool-cases, get_elem?, set, take, length-take, ℕ, suc, ◌≡◌, refl, sym, subst,
  ◌∙◌, ◌⊎◌, inl, inr, Option, none, some, List, [], ◌∷◌, arith,
}
use socks_v5_proxy.Selector.{Item, FdSelector, items_max_fd, items_update_fdset_for_fd}
use socks_v5_proxy.Selector.Entries.{get_elem-inside, get_elem-take}
use socks_v5_proxy.Selector.Consistency.{IsConsistent, cleared, cleared-IsConsistent}

module _ {H D : Type 0} where
  -- `max_fd` is in use, or 0.
  abbrev pub IsTop : FdSelector H D → Type 0
  IsTop s = (s.max_fd ≡ 0) ⊎ ((item : Item H D) × (get_elem? s.fds s.max_fd ≡ some (some item)))

  items_max_fd-reached :
      (xs : List (Option (Item H D))) (m : ℕ)
      → (items_max_fd xs m ≡ m)
        ⊎ ((i : ℕ) × (item : Item H D) × (get_elem? xs i ≡ some (some item))
            × (item.fd ≡ items_max_fd xs m))
  unfolding items_max_fd
  items_max_fd-reached [] m = inl refl
  items_max_fd-reached (none ∷ xs) m = elim (items_max_fd-reached xs m) [
    | inl e ↦ inl e
    | inr (i, item, there, e) ↦ inr (suc i, item, there, e)
  ]
  items_max_fd-reached (some it ∷ xs) m =
      elim (items_max_fd-reached xs (if ltb m it.fd then it.fd else m)) [
        | inr (i, item, there, e) ↦ inr (suc i, item, there, e)
        | inl e ↦ elim (Bool-cases (ltb m it.fd)) [
          | inl above ↦ inr (0, it, refl, sym (e ∙ rw above refl))
          | inr below ↦ inl (e ∙ rw below refl)
        ]
      ]

  pub cleared-IsTop : (s : FdSelector H D) (fd : ℕ) → IsConsistent s → IsTop (cleared s fd)
  unfolding items_update_fdset_for_fd items_max_fd
  cleared-IsTop s fd c =
      let fds = set s.fds fd none in
      let front = take (suc s.max_fd) fds in
      elim (items_max_fd-reached front 0) [
        | inl e ↦ inl e
        | inr (i, item, there, e) ↦
            let inside = get_elem-inside front i there in
            let size = length-take (suc s.max_fd) fds in
            let here : get_elem? fds i ≡ some (some item) =
              sym (get_elem-take (suc s.max_fd) fds i (omega arith)) ∙ there in
            let (own, _, _, _) = IsConsistent.entries (cleared-IsConsistent s fd c) i here in
            let top : i ≡ items_max_fd front 0 = sym own ∙ e in
            inr (item, subst (λ k. get_elem? fds k ≡ some (some item)) top here)
      ]
