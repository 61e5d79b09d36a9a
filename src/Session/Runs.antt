-- ===== src/Session/Runs.antt =====
-- src/server/socks5nio.c: the whole life of a connection, with what happens between its events.

use socks_v5_proxy.Prelude.{
  ◌==◌, pos, negsuc, ℕ, ◌≡◌, refl, subst, ◌≢◌, ◌⊎◌, inl, inr, Bool, true, false, not, ◌&&◌, ◌||◌,
  some, List, [], ◌∷◌, arith,
}
use socks_v5_proxy.Stm.{StateMachine, stm_handler}
use socks_v5_proxy.Session.{hello_read_state, request_resolv_state, copy_state, Address, World}
use socks_v5_proxy.Session.Requesting.{request_resolv_blocking}
use socks_v5_proxy.Session.Table.{machine, Event, handler_of}
use socks_v5_proxy.Session.Phases.{admits, links, Earned, Step-Earned}
use socks_v5_proxy.Session.Phase.{phase_of, is_linked, IsPending}
use socks_v5_proxy.Session.Refinement.{event-Stepped}

-- Whether an event is for the descriptor of the connection to the origin.
abbrev pub is_for_origin : World → Bool
is_for_origin w = elim (w.conn.origin_fd) [ pos fd ↦ w.fd == fd | negsuc k ↦ false ]

-- Whether an event in REQUEST_CONNECTING reads no error from its socket, which is the one of the connection to
-- the origin, or another one.
abbrev pub links_origin : ℕ → World → Bool
links_origin c w = is_for_origin w && links (is_linked w.os) (phase_of c w)

abbrev pub links_other : ℕ → World → Bool
links_other c w = not (is_for_origin w) && links (is_linked w.os) (phase_of c w)

-- A run from the arrival at HELLO_READ to a state and a world. The flags tell whether some event of it
-- has let the client through, whether some event in REQUEST_CONNECTING has read no error from the socket of the
-- connection to the origin, and whether one has read none from another socket. Between two events of this
-- connection other connections change the globals and the selector, the operating system has new answers, and
-- a name may be resolved.
pub data Run : Bool → Bool → Bool → ℕ → World → Type 0 where
  start : (w : World) → Run false false false hello_read_state w
  event :
      {a o s : Bool} {c0 c : ℕ} {w0 w : World} {stm' : StateMachine World} (ev : Event)
      → Run a o s c0 w0
      → w0.os.connect_errno ≢ some 0
      → stm_handler (handler_of ev) (machine (some c0)) w0 ≡ some (c, stm', w)
      → Run
          (a || admits w0.is_auth_on (phase_of c0 w0))
          (o || links_origin c0 w0)
          (s || links_other c0 w0)
          c
          w
  others : {a o s : Bool} {c : ℕ} {w0 w : World} → Run a o s c w0 → w.conn ≡ w0.conn → Run a o s c w
  resolved :
      {a o s : Bool} {w0 : World} (answer : List Address)
      → Run a o s request_resolv_state w0
      → Run a o s request_resolv_state (request_resolv_blocking answer w0)

-- The phase and the pending status depend on the connection only.
abbrev Owes : Bool → Bool → ℕ → World → Type 0
Owes a l c w = Earned a l (phase_of c w) × IsPending c w

Owes-conn : (a l : Bool) (c : ℕ) (w0 w : World) → w.conn ≡ w0.conn → Owes a l c w0 → Owes a l c w
Owes-conn a l c w0 w e o = rw e o

Owes-resolved :
    (a l : Bool) (w0 : World) (answer : List Address)
    → Owes a l request_resolv_state w0
    → Owes a l request_resolv_state (request_resolv_blocking answer w0)
unfolding request_resolv_blocking
Owes-resolved a l w0 [] (e, p) = (e, inr (omega arith))
Owes-resolved a l w0 (x ∷ answer) (e, p) = (e, p)

-- The socket of an event is the one of the connection to the origin, or another one.
either_socket : (o s f l : Bool) → (o || s) || l ≡ (o || (f && l)) || (s || (not f && l))
either_socket false false false l = refl
either_socket false false true false = refl
either_socket false false true true = refl
either_socket false true false l = refl
either_socket false true true false = refl
either_socket false true true true = refl
either_socket true s f l = refl

-- Along a run the phase has what it owes, and no success is recorded for a pending request.
Run-Owes : {a o s : Bool} {c : ℕ} {w : World} → Run a o s c w → Owes a (o || s) c w
Run-Owes (start w) = (tt, inl (inl (omega arith)))
Run-Owes (event {a} {o} {s} {c0} {c} {w0} {w} {stm'} ev r n h) =
    let (owed, p) = Run-Owes r in
    let (_, step, p') = event-Stepped ev c0 w0 w c stm' n p h in
    let same = either_socket o s (is_for_origin w0) (links (is_linked w0.os) (phase_of c0 w0)) in
    (
      subst (λ l. Earned (a || admits w0.is_auth_on (phase_of c0 w0)) l (phase_of c w)) same
          (Step-Earned a (o || s) step owed),
      p',
    )
Run-Owes (others {a} {o} {s} {c} {w0} {w} r e) = Owes-conn a (o || s) c w0 w e (Run-Owes r)
Run-Owes (resolved {a} {o} {s} {w0} answer r) = Owes-resolved a (o || s) w0 answer (Run-Owes r)

either_flag : (o s : Bool) → o || s ≡ true → (o ≡ true) ⊎ (s ≡ true)
either_flag true s h = inl refl
either_flag false s h = inr h

-- Bytes are copied only for a client that was let through, because its credentials were accepted or
-- because authentication was off when its greeting had been answered, and only after an event in
-- REQUEST_CONNECTING had read no error from the socket that it was for: the one of the connection to the origin,
-- or another one, as it is where an attempt to connect has been lost.
pub Run-copying :
    {a o s : Bool} {w : World} → Run a o s copy_state w → (a ≡ true) × ((o ≡ true) ⊎ (s ≡ true))
Run-copying {a} {o} {s} r =
    let (admitted, linked) = (Run-Owes r).0 in (admitted, either_flag o s linked)
