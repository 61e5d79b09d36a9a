-- ===== src/Session/Settling.antt =====
-- src/server/socks5nio.c: what becomes of a descriptor that `accept` gives.

use socks_v5_proxy.Prelude.{
  ltb, leb, ◌==◌, ltb→lt, Bool-cases, get_elem?, pos, ℕ, ◌-◌, ◌≤◌, ◌≡◌, refl, ap, ◌∙◌, ◌⊎◌, inl,
  inr, Bool, true, false, Option, none, some, ◌∷◌, arith,
}
use socks_v5_proxy.Selector.{
  SelectorStatus, selector_iargs, FdSelector, items_max_size, selector_register,
}
use socks_v5_proxy.Session.{Socks5, op_read_only, is_success}
use socks_v5_proxy.Session.Lifetime.{max_pool}
use socks_v5_proxy.Selector.Consistency.{IsConsistent}
use socks_v5_proxy.Selector.Registration.{registered, selector_register-IsConsistent}
use socks_v5_proxy.Session.Accept.{
  Listener, Arrival, fresh, socks5_new, retire, hang_up, register_client, socksv5_passive_accept,
}

-- No more blocks are idle than were ever counted, and no more are counted than the pool may have.
pub record IsPooled (l : Listener) : Type 0 where
  pub counted : l.idle ≤ l.pool_size
  pub bounded : l.pool_size ≤ max_pool

-- A new connection, registered for reading, or the descriptor is closed again.
abbrev pub Settled : ℕ → Listener → Option Socks5 → Listener → Type 0
Settled fd l r l' =
    ((r ≡ none) × (l'.closed ≡ fd ∷ l.closed))
    ⊎ ((r ≡ some (fresh fd))
        × (l'.closed ≡ l.closed)
        × (get_elem? l'.selector.fds fd ≡ some (some (registered fd fd op_read_only l.number))))

-- The block and the pool after it was taken.
abbrev Taken : ℕ → Listener → Option Socks5 → Listener → Type 0
Taken fd l block l1 =
    IsPooled l1
    × (l1.selector ≡ l.selector)
    × (l1.closed ≡ l.closed)
    × (l1.number ≡ l.number)
    × ((block ≡ none) ⊎ (block ≡ some (fresh fd)))

socks5_new-Taken :
    (memory : Bool) (fd : ℕ) (l : Listener)
    → IsPooled l
    → Taken fd l (socks5_new memory fd l).0 (socks5_new memory fd l).1
unfolding socks5_new
socks5_new-Taken memory fd l p = elim (Bool-cases (l.idle == 0)) [
  | inl e ↦ elim (Bool-cases memory) [
    | inl m ↦ rw (e, m) (p, refl, refl, refl, inr refl)
    | inr m ↦ rw (e, m) (p, refl, refl, refl, inl refl)
  ]
  | inr e ↦
      let less : l.idle - 1 ≤ l.pool_size = omega (arith, p.counted) in
      rw e (record { counted = less; bounded = p.bounded }, refl, refl, refl, inr refl)
]

retire-IsPooled :
    (l : Listener)
    → IsPooled l
    → IsPooled (retire l) × ((retire l).closed ≡ l.closed) × ((retire l).selector ≡ l.selector)
unfolding retire
retire-IsPooled l p = elim (Bool-cases (ltb l.pool_size max_pool)) [
  | inl e ↦
      let low = ltb→lt l.pool_size max_pool e in
      rw e (record { counted = omega (arith, p.counted); bounded = omega arith }, refl, refl)
  | inr e ↦ rw e (p, refl, refl)
]

-- A registration either has the descriptor in the table or is refused.
pub register-cases :
    (memory : Bool) (s : FdSelector ℕ ℕ) (fd number : ℕ)
    → IsConsistent s
    → (st : SelectorStatus) × (s' : FdSelector ℕ ℕ) × (selector_register memory s
          (pos fd)
          (some fd)
          op_read_only
          number
        ≡ some (st, s'))
      × IsConsistent s'
      × ((is_success st ≡ false)
          ⊎ ((is_success st ≡ true)
              × (get_elem? s'.fds fd ≡ some (some (registered fd fd op_read_only number)))))
unfolding selector_register
register-cases memory s fd number c = elim (Bool-cases (leb items_max_size fd)) [
  | inl big ↦ (selector_iargs, s, rw big refl, c, inl refl)
  | inr small ↦
      let (st, s', q, c', cases) =
        selector_register-IsConsistent memory s fd fd op_read_only number c (ground arith) in
      (
        st,
        s',
        q,
        c',
        elim cases [
          | inl (e, g) ↦ inr (rw e refl, g)
          | inr (inl (e, _, _)) ↦ inl (rw e refl)
          | inr (inr (e, _, _)) ↦ inl (rw e refl)
        ],
      )
]

pub hang_up-IsPooled : (l : Listener) (fd : ℕ) → IsPooled l → IsPooled (hang_up l fd)
hang_up-IsPooled l fd p = record { counted = p.counted; bounded = p.bounded }

abbrev Ended : Bool → ℕ → Listener → Option Socks5 → Listener → Type 0
Ended memory fd l block l1 =
    (r : Option Socks5) × (l' : Listener) × (register_client memory fd block l1 ≡ some (r, l'))
    × IsPooled l'
    × IsConsistent l'.selector
    × Settled fd l r l'

register_client-Ended :
    (memory : Bool) (fd : ℕ) (l : Listener) (block : Option Socks5) (l1 : Listener)
    → Taken fd l block l1
    → IsConsistent l.selector
    → Ended memory fd l block l1
unfolding register_client
register_client-Ended memory fd l none l1 (p, sel, cl, _, _) c =
    (none, hang_up l1 fd, refl, hang_up-IsPooled l1 fd p, rw sel c, inl (refl, rw cl refl))
register_client-Ended memory fd l (some s) l1 (p, sel, cl, num, inl e) c = absurd (ground arith)
register_client-Ended memory fd l (some s) l1 (p, sel, cl, num, inr e) c =
    let (st, s', q, c', cases) = register-cases memory l1.selector fd l1.number (rw sel c) in
    let l2 : Listener = record l1 { selector = s' } in
    elim cases [
      | inl f ↦
          let (rp, rc, rs) =
            retire-IsPooled (hang_up l2 fd) (record { counted = p.counted; bounded = p.bounded }) in
          (
            none,
            retire (hang_up l2 fd),
            rw (q, f) refl,
            rp,
            rw rs c',
            inl (refl, rc ∙ ap (λ t. fd ∷ t) cl),
          )
      | inr (f, g) ↦ (
        some s,
        l2,
        rw (q, f) refl,
        record { counted = p.counted; bounded = p.bounded },
        c',
        inr (e, cl, rw (← num) g),
      )
    ]

-- Where `accept` gives a descriptor the handler ends, with the pool within its bounds and the table
-- consistent; the new connection is registered for reading under its descriptor, or the descriptor is
-- closed again.
pub socksv5_passive_accept-Settled :
    (a : Arrival) (l : Listener) (fd : ℕ)
    → a.client ≡ some fd
    → IsPooled l
    → IsConsistent l.selector
    → (r : Option Socks5) × (l' : Listener) × (socksv5_passive_accept a l ≡ some (r, l'))
      × IsPooled l'
      × IsConsistent l'.selector
      × Settled fd l r l'
unfolding socksv5_passive_accept
socksv5_passive_accept-Settled a l fd h p c = elim (Bool-cases (a.set_nio)) [
  | inr n ↦ (none, hang_up l fd, rw (h, n) refl, hang_up-IsPooled l fd p, c, inl (refl, refl))
  | inl n ↦
      let new = socks5_new a.memory fd l in
      let (r, l', q, rp, rc, rest) =
        register_client-Ended a.table_memory fd l new.0 new.1 (socks5_new-Taken a.memory fd l p)
          c in
      (r, l', rw (h, n) q, rp, rc, rest)
]
