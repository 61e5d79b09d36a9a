-- ===== src/Stm/Laws.antt =====
-- src/server/stm.c: the table that `stm_init` accepts, and where an event leaves the machine.
use socks_v5_proxy.Prelude.{
  ltb, ◌==◌, Bool-cases, Option-cases, get_elem?, >>=-eq-some, ℕ, zero, suc, ◌+◌, ◌≤◌, ◌<◌, ◌≡◌,
  refl, ap, ◌∙◌, ◌≢◌, ◌⊎◌, inl, inr, Bool, true, false, ◌&&◌, Option, none, some, List, arith,
}
use socks_v5_proxy.Stm.{
  StateDefinition, StateMachine, states_checked, stm_init, run_hook, handle_first, jump,
  stm_handler, stm_state,
}

and-true : (a b : Bool) → (a && b) ≡ true → (a ≡ true) × (b ≡ true)
and-true a b h = ground arith

last-part :
    {K S : Type 0} (move : ℕ → K → Option (S × K)) (r : ℕ × K) (s : S × K) {ret : ℕ} {s' : S}
    {k' : K}
    → move r.0 r.1 ≡ some s
    → ◌≡◌ {A = Option (ℕ × S × K)} (some (r.0, s.0, s.1)) (some (ret, s', k'))
    → move ret r.1 ≡ some (s', k')
last-part move r s e h = cc

module _ {K : Type 0} where
  -- The table has an entry for each state up to `max_state`, which carries its own number; the machine
  -- is at no state yet or at one of them.
  pub record IsReady (stm : StateMachine K) : Type 0 where
    pub ordered :
        (i : ℕ)
        → i ≤ stm.max_state
        → (d : StateDefinition K) × (get_elem? stm.states i ≡ some d) × (d.state ≡ i)
    pub start : stm.initial < stm.max_state
    pub here : (c : ℕ) → stm.current ≡ some c → c ≤ stm.max_state

  states_checked-ordered :
      (n i j : ℕ) (table : List (StateDefinition K))
      → states_checked n i table ≡ true
      → i ≤ j
      → j < i + n
      → (d : StateDefinition K) × (get_elem? table j ≡ some d) × (d.state ≡ j)
  unfolding states_checked
  states_checked-ordered zero i j table h l u = absurd (omega arith)
  states_checked-ordered (suc n) i j table h l u = elim (Option-cases (get_elem? table i)) [
    | inl e ↦ cc (rw (e, states_checked) at h)
    | inr (d, e) ↦
        let both : (d.state == i && states_checked n (suc i) table) ≡ true =
          rw (e, states_checked) at h in
        let (own, rest) = and-true _ _ both in
        elim (Bool-cases (i == j)) [
          | inl s ↦ let s' : i ≡ j = ground arith in (d, rw (← s') e, ground arith)
          | inr s ↦ states_checked-ordered n (suc i) j table rest (ground arith) (omega arith)
        ]
  ]

  -- What `stm_init` accepts is ready, and at no state yet.
  pub stm_init-IsReady :
      (stm stm' : StateMachine K)
      → stm_init stm ≡ some stm'
      → IsReady stm' × (stm'.current ≡ none) × (stm'.states ≡ stm.states)
  unfolding stm_init
  stm_init-IsReady stm stm' h =
      let facts : (states_checked (suc stm.max_state) 0 stm.states ≡ true)
          × (stm.initial < stm.max_state)
          × (stm' ≡ record stm { current = none }) =
        ground arith in
      rw facts.2 (
        record {
          ordered = λ i l.
              states_checked-ordered (suc stm.max_state) 0 i stm.states facts.0 (omega arith)
                (omega arith);
          start = facts.1;
          here = λ c e. cc;
        },
        refl,
        refl,
      )

  -- The machine as the first event finds it: its table is kept, and it is at a state of the table.
  handle_first_lem :
      (stm stm1 : StateMachine K) (k k1 : K)
      → IsReady stm
      → handle_first stm k ≡ some (stm1, k1)
      → (stm1.states ≡ stm.states) × (stm1.max_state ≡ stm.max_state) × (stm1.initial ≡ stm.initial)
  unfolding handle_first
  handle_first_lem stm stm1 k k1 r h = ground arith

  jump_lem :
      (stm stm2 : StateMachine K) (next : ℕ) (k k2 : K)
      → jump stm next k ≡ some (stm2, k2)
      → (stm2.states ≡ stm.states)
        × (stm2.max_state ≡ stm.max_state)
        × (stm2.initial ≡ stm.initial)
        × (next ≤ stm.max_state)
        × (stm2.current ≡ some next)
  unfolding jump
  jump_lem stm stm2 next k k2 h = ground arith

  -- A handler that returns has made its two moves.
  handler-parts :
      (event : StateDefinition K → Option (K → Option (ℕ × K))) (stm stm' : StateMachine K)
      (k k' : K) (ret : ℕ)
      → stm_handler event stm k ≡ some (ret, stm', k')
      → (stm1 : StateMachine K) × (k1 : K) × (k2 : K) × (handle_first stm k ≡ some (stm1, k1))
        × (jump stm1 ret k2 ≡ some (stm', k'))
  unfolding stm_handler
  handler-parts event stm stm' k k' ret h =
      let (s1, e1, h1) = >>=-eq-some (handle_first stm k) _ h in
      let (c, e2, h2) = >>=-eq-some (s1.0.current) _ h1 in
      let (d, e3, h3) = >>=-eq-some (get_elem? s1.0.states c) _ h2 in
      let (f, e4, h4) = >>=-eq-some (event d) _ h3 in
      let (r, e5, h5) = >>=-eq-some (f s1.1) _ h4 in
      let (s2, e6, h6) = >>=-eq-some (jump s1.0 r.0 r.1) _ h5 in
      (s1.0, s1.1, r.1, e1, last-part (jump s1.0) r s2 e6 h6)

  -- Where an event leaves a ready machine: at the state that the handler returned, which is in the
  -- table, and ready for the next event.
  pub stm_handler-IsReady :
      (event : StateDefinition K → Option (K → Option (ℕ × K))) (stm stm' : StateMachine K)
      (k k' : K) (ret : ℕ)
      → IsReady stm
      → stm_handler event stm k ≡ some (ret, stm', k')
      → IsReady stm'
        × (stm'.current ≡ some ret)
        × (ret ≤ stm.max_state)
        × (stm_state stm' ≡ some ret)
  unfolding stm_handler stm_state
  stm_handler-IsReady event stm stm' k k' ret r h =
      let (stm1, k1, k2, first, last) = handler-parts event stm stm' k k' ret h in
      let f = handle_first_lem stm stm1 k k1 r first in
      let j = jump_lem stm1 stm' ret k2 k' last in
      (
        record {
          ordered = λ i l. rw (j.0 ∙ f.0) (r.ordered i (omega arith));
          start = omega arith;
          here = λ c e. ground arith;
        },
        j.4,
        omega arith,
        let (d, g, s) = r.ordered ret (omega arith) in
            rw (j.4, stm_state, j.0 ∙ f.0, g) (ap some s),
      )

  -- An event on a machine at state `c`, whose handler returns `ret`, a state of the table: if that is
  -- `c` itself no hook runs; if not, the hook of the departure runs and then that of the arrival, and
  -- the machine is at `ret`.
  pub stm_handler-transition :
      (event : StateDefinition K → Option (K → Option (ℕ × K))) (stm : StateMachine K)
      (k k1 k2 k3 : K) (c ret : ℕ) (f : K → Option (ℕ × K)) (from to : StateDefinition K)
      → stm.current ≡ some c
      → get_elem? stm.states c ≡ some from
      → event from ≡ some f
      → f k ≡ some (ret, k1)
      → ret ≤ stm.max_state
      → get_elem? stm.states ret ≡ some to
      → run_hook from.on_departure from.state k1 ≡ some k2
      → run_hook to.on_arrival to.state k2 ≡ some k3
      → ((c ≡ ret) × (stm_handler event stm k ≡ some (ret, stm, k1)))
        ⊎ ((c ≢ ret)
            × (stm_handler event stm k ≡ some (ret, record stm { current = some ret }, k3)))
  unfolding stm_handler handle_first jump
  stm_handler-transition event stm k k1 k2 k3 c ret f from to h1 h2 h3 h4 h5 h6 h7 h8 =
      let room : ltb stm.max_state ret ≡ false = ground arith in
      elim (Bool-cases (c == ret)) [
        | inl e ↦ inl (ground arith, rw (h1, h2, h3, h4, room, e) refl)
        | inr e ↦ inr (λ q. ground arith, rw (h1, h2, h3, h4, room, e, h7, h6, h8) refl)
      ]
