-- ===== src/Stm.antt =====
-- src/server/stm.c and src/include/stm.h: the state machine engine.
-- `K` is what a hook or handler reads and changes through its `struct selector_key`. A hook or a
-- handler may abort, and so may the engine: `none`. A null pointer to a function is `none` in its
-- field. `current` is the index of the state in `states`, or `none` for NULL.
pub mod Laws
use socks_v5_proxy.Prelude.{
  ltb, ◌==◌, if◌then◌else◌, get_elem?, ◌>>=◌, ℕ, zero, suc, Bool, true, false, ◌&&◌, Option, none,
  some, List,
}

pub record StateDefinition (K : Type 0) : Type 0 where
  pub state : ℕ
  pub on_arrival : Option (ℕ → K → Option K)
  pub on_departure : Option (ℕ → K → Option K)
  pub on_read_ready : Option (K → Option (ℕ × K))
  pub on_write_ready : Option (K → Option (ℕ × K))
  pub on_block_ready : Option (K → Option (ℕ × K))

pub record StateMachine (K : Type 0) : Type 0 where
  pub initial : ℕ
  pub states : List (StateDefinition K)
  pub max_state : ℕ
  pub current : Option ℕ

module _ {K : Type 0} where
  -- The `for` loop of `stm_init`: entries `i`, `i + 1`, … of the table, `n` of them, name themselves. A
  -- read behind the table is `false` too.
  unfoldable pub states_checked : ℕ → ℕ → List (StateDefinition K) → Bool
  states_checked zero i table = true
  states_checked (suc n) i table = elim (get_elem? table i) [
    | none ↦ false
    | some d ↦ d.state == i && states_checked n (suc i) table
  ]

  unfoldable pub stm_init : StateMachine K → Option (StateMachine K)
  stm_init stm =
      if states_checked (suc stm.max_state) 0 stm.states
      then (if ltb stm.initial stm.max_state then some (record stm { current = none }) else none)
      else none

  -- A hook that is not NULL is called with the state's own number.
  unfoldable pub run_hook : Option (ℕ → K → Option K) → ℕ → K → Option K
  run_hook none st k = some k
  run_hook (some f) st k = f st k

  unfoldable pub handle_first : StateMachine K → K → Option (StateMachine K × K)
  unfolding run_hook
  handle_first stm k = elim (stm.current) [
    | some c ↦ some (stm, k)
    | none ↦ (do
      d ← get_elem? stm.states stm.initial
      k' ← run_hook d.on_arrival d.state k
      some (record stm { current = some stm.initial }, k'))
  ]

  -- The hooks run only when the state changes.
  unfoldable pub jump : StateMachine K → ℕ → K → Option (StateMachine K × K)
  unfolding run_hook
  jump stm next k = if ltb stm.max_state next then none else elim (stm.current) [
    | none ↦ (do
      d ← get_elem? stm.states next
      k' ← run_hook d.on_arrival d.state k
      some (record stm { current = some next }, k'))
    | some c ↦ if c == next then some (stm, k) else (do
      from ← get_elem? stm.states c
      k' ← run_hook from.on_departure from.state k
      to ← get_elem? stm.states next
      k'' ← run_hook to.on_arrival to.state k'
      some (record stm { current = some next }, k''))
  ]

  -- The common body of the three handlers: `event` selects the state's function.
  unfoldable pub stm_handler :
      (StateDefinition K → Option (K → Option (ℕ × K)))
      → StateMachine K
      → K
      → Option (ℕ × StateMachine K × K)
  stm_handler event stm k = do
    (stm', k') ← handle_first stm k
    c ← stm'.current
    d ← get_elem? stm'.states c
    f ← event d
    (ret, k'') ← f k'
    (stm'', k''') ← jump stm' ret k''
    some (ret, stm'', k''')

  unfoldable pub stm_handler_read : StateMachine K → K → Option (ℕ × StateMachine K × K)
  stm_handler_read = stm_handler (λ d. d.on_read_ready)

  unfoldable pub stm_handler_write : StateMachine K → K → Option (ℕ × StateMachine K × K)
  stm_handler_write = stm_handler (λ d. d.on_write_ready)

  unfoldable pub stm_handler_block : StateMachine K → K → Option (ℕ × StateMachine K × K)
  stm_handler_block = stm_handler (λ d. d.on_block_ready)

  unfoldable pub stm_handler_close : StateMachine K → K → Option K
  unfolding run_hook
  stm_handler_close stm k = elim (stm.current) [
    | none ↦ some k
    | some c ↦ (do d ← get_elem? stm.states c; run_hook d.on_departure d.state k)
  ]

  unfoldable pub stm_state : StateMachine K → Option ℕ
  stm_state stm = elim (stm.current) [
    | none ↦ some stm.initial
    | some c ↦ (do d ← get_elem? stm.states c; some d.state)
  ]
