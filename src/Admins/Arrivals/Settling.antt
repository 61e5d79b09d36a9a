-- ===== src/Admins/Arrivals/Settling.antt =====
-- src/server/monitornio.c: what becomes of a descriptor that `accept` gives to the administration server.

use socks_v5_proxy.Prelude.{
  ltb, ◌==◌, ltb→lt, Bool-cases, length, get_elem?, replicate, length-replicate, ℕ, ◌-◌, ◌≤◌, ◌≡◌,
  refl, ◌⊎◌, inl, inr, Bool, false, Option, none, some, [], ◌∷◌, arith,
}
use socks_v5_proxy.Buffer.{IsValid, contents}
use socks_v5_proxy.Buffer.Queue.{buffer_init-IsValid}
use socks_v5_proxy.Selector.Consistency.{IsConsistent}
use socks_v5_proxy.Selector.Registration.{registered}
use socks_v5_proxy.Monitor.Types.{monitor_version, monitor_parser_init}
use socks_v5_proxy.Session.{op_read_only}
use socks_v5_proxy.Session.Accept.{Listener, Arrival, hang_up}
use socks_v5_proxy.Session.Settling.{register-cases}
use socks_v5_proxy.Admins.Service.{max_idle}
use socks_v5_proxy.Admins.Arrivals.{
  Connection, raw_monitor_buffer_size, cleared_connection, connection_new, retire_connection,
  monitor_init, register_connection, monitor_passive_accept,
}

-- The pool has at most as many idle blocks as were counted, and counts no more than its bound.
pub record IsStocked (l : Listener) : Type 0 where
  pub counted : l.idle ≤ l.pool_size
  pub bounded : l.pool_size ≤ max_idle

-- A connection that waits for the first byte of a request, with empty buffers.
pub record IsFresh (fd : ℕ) (c : Connection) : Type 0 where
  pub client : c.client_fd ≡ fd
  pub start : (c.parser.state ≡ monitor_version) × (c.parser.separated ≡ false)
  pub received : IsValid c.read_buffer × (contents c.read_buffer ≡ [])
  pub answered : IsValid c.write_buffer × (contents c.write_buffer ≡ [])

monitor_init-IsFresh : (fd : ℕ) → IsFresh fd (monitor_init (cleared_connection fd))
unfolding monitor_init cleared_connection monitor_parser_init
monitor_init-IsFresh fd =
    let n : raw_monitor_buffer_size ≤ length (replicate {A = ℕ} raw_monitor_buffer_size 0) =
      omega (arith, length-replicate {A = ℕ} raw_monitor_buffer_size 0) in
    let empty =
      buffer_init-IsValid raw_monitor_buffer_size (replicate raw_monitor_buffer_size 0) n in
    record { client = refl; start = (refl, refl); received = empty; answered = empty }

-- The new connection is registered for reading under its descriptor, or the descriptor is closed again.
abbrev pub Admitted : ℕ → Listener → Option Connection → Listener → Type 0
Admitted fd l r l' =
    ((r ≡ none) × (l'.closed ≡ fd ∷ l.closed))
    ⊎ ((c : Connection) × (r ≡ some c)
        × IsFresh fd c
        × (l'.closed ≡ l.closed)
        × (get_elem? l'.selector.fds fd ≡ some (some (registered fd fd op_read_only l.number))))

abbrev Result : Bool → ℕ → Option Connection → Listener → Listener → Type 0
Result memory fd block l l1 =
    (r : Option Connection) × (l' : Listener) × (register_connection memory fd block l1
      ≡ some (r, l'))
    × IsStocked l'
    × IsConsistent l'.selector
    × Admitted fd l r l'

register-none :
    (memory : Bool) (fd : ℕ) (l : Listener)
    → IsStocked l
    → IsConsistent l.selector
    → Result memory fd none l l
unfolding register_connection
register-none memory fd l p c = (
  none,
  hang_up l fd,
  refl,
  record { counted = p.counted; bounded = p.bounded },
  c,
  inl (refl, refl),
)

retire-IsStocked :
    (l : Listener)
    → IsStocked l
    → IsStocked (retire_connection l)
      × ((retire_connection l).closed ≡ l.closed)
      × ((retire_connection l).selector ≡ l.selector)
unfolding retire_connection
retire-IsStocked l p = elim (Bool-cases (ltb l.pool_size max_idle)) [
  | inl e ↦
      let low = ltb→lt l.pool_size max_idle e in
      rw e (record { counted = omega (arith, p.counted); bounded = omega arith }, refl, refl)
  | inr e ↦ rw e (p, refl, refl)
]

-- With a block, taken from the pool or not.
register-some :
    (memory : Bool) (fd k : ℕ) (l : Listener)
    → k ≤ l.pool_size
    → l.pool_size ≤ max_idle
    → IsConsistent l.selector
    → Result memory fd (some (cleared_connection fd)) l (record l { idle = k })
unfolding register_connection
register-some memory fd k l low high c =
    let (st, s', q, c', cases) = register-cases memory l.selector fd l.number c in
    let l2 : Listener = record l { idle = k; selector = s' } in
    elim cases [
      | inl f ↦
          let (rp, rc, rs) =
            retire-IsStocked (hang_up l2 fd) (record { counted = low; bounded = high }) in
          (
            none,
            retire_connection (hang_up l2 fd),
            rw (register_connection, q, f) refl,
            rp,
            rw rs c',
            inl (refl, rc),
          )
      | inr (f, g) ↦ (
        some (monitor_init (cleared_connection fd)),
        l2,
        rw (register_connection, q, f) refl,
        record { counted = low; bounded = high },
        c',
        inr (monitor_init (cleared_connection fd), refl, monitor_init-IsFresh fd, refl, g),
      )
    ]

-- Where `accept` gives a descriptor the handler ends, with the pool within its bounds and the table
-- consistent; the new connection waits for the first byte of a request, with empty buffers, and is
-- registered for reading under its descriptor, or the descriptor is closed again.
pub monitor_passive_accept-Admitted :
    (a : Arrival) (l : Listener) (fd : ℕ)
    → a.client ≡ some fd
    → IsStocked l
    → IsConsistent l.selector
    → (r : Option Connection) × (l' : Listener) × (monitor_passive_accept a l ≡ some (r, l'))
      × IsStocked l'
      × IsConsistent l'.selector
      × Admitted fd l r l'
unfolding monitor_passive_accept connection_new
monitor_passive_accept-Admitted a l fd h p c = elim (Bool-cases (a.set_nio)) [
  | inr n ↦ (
    none,
    hang_up l fd,
    rw (monitor_passive_accept, h, n) refl,
    record { counted = p.counted; bounded = p.bounded },
    c,
    inl (refl, refl),
  )
  | inl n ↦ elim (Bool-cases (l.idle == 0)) [
    | inr e ↦
        let (r, l', q, rp, rc, rest) =
          register-some a.table_memory fd (l.idle - 1) l (omega (arith, p.counted)) p.bounded c in
        (r, l', rw (monitor_passive_accept, h, n, connection_new, e) q, rp, rc, rest)
    | inl e ↦ elim (Bool-cases (a.memory)) [
      | inr m ↦
          let (r, l', q, rp, rc, rest) = register-none a.table_memory fd l p c in
          (r, l', rw (monitor_passive_accept, h, n, connection_new, e, m) q, rp, rc, rest)
      | inl m ↦
          let (r, l', q, rp, rc, rest) =
            register-some a.table_memory fd l.idle l p.counted p.bounded c in
          (r, l', rw (monitor_passive_accept, h, n, connection_new, e, m) q, rp, rc, rest)
    ]
  ]
]
