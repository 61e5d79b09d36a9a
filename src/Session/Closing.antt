-- ===== src/Session/Closing.antt =====
-- src/server/socks5nio.c: how the two directions of a copy are closed.
use socks_v5_proxy.Session.Relay.{copy_end-conn}
use socks_v5_proxy.Prelude.{
  Option-cases, u32, >>=-eq-some, ℕ, ◌+◌, ◌≡◌, ◌⊎◌, inl, inr, true, some, arith,
}
use socks_v5_proxy.Buffer.{Buffer}
use socks_v5_proxy.Selector.{op_noop}
use socks_v5_proxy.Session.{copy_state, done_state, Socks5, World, set_interest, receive, transmit}
use socks_v5_proxy.Session.Copying.{
  End, client_end, origin_end, other, rb, set_rb, wb, copy_compute_interests, copy_ptr, has_fd,
  close_reading, close_writing, copy_end, copy_from, copy_r, sniff, copy_to, copy_w,
}

-- Each end reads exactly while the other one writes, and both have a descriptor.
pub record IsPaired (s : Socks5) : Type 0 where
  pub onward : s.client_duplex.op_read ≡ s.origin_duplex.op_write
  pub back : s.client_duplex.op_write ≡ s.origin_duplex.op_read
  pub connected : has_fd s.origin_fd ≡ true

pub close_reading-IsPaired : (s : Socks5) (e : End) → IsPaired s → IsPaired (close_reading s e)
unfolding close_reading
close_reading-IsPaired s client_end p = ground arith
close_reading-IsPaired s origin_end p = ground arith

pub close_writing-IsPaired : (s : Socks5) (e : End) → IsPaired s → IsPaired (close_writing s e)
unfolding close_writing
close_writing-IsPaired s client_end p = ground arith
close_writing-IsPaired s origin_end p = ground arith

pub set_rb-IsPaired : (s : Socks5) (e : End) (b : Buffer) → IsPaired s → IsPaired (set_rb s e b)
set_rb-IsPaired s client_end b p = ground arith
set_rb-IsPaired s origin_end b p = ground arith

-- One direction is open, or none is and the connection is no longer counted.
abbrev pub Ends : World → World → ℕ → Type 0
Ends w w' ret =
    ((ret ≡ copy_state)
      × ((w'.conn.client_duplex.op_read ≡ true) ⊎ (w'.conn.client_duplex.op_write ≡ true))
      × (w'.server.current_connections ≡ w.server.current_connections))
    ⊎ ((ret ≡ done_state)
        × (w'.conn.client_duplex ≡ op_noop)
        × (w'.conn.origin_duplex ≡ op_noop)
        × (w'.server.current_connections ≡ u32 (w.server.current_connections + 4294967295)))

copy_end-Ends :
    (e : End) (w w' : World) (ret : ℕ)
    → IsPaired w.conn
    → copy_end e w ≡ some (ret, w')
    → Ends w w' ret
unfolding copy_end copy_compute_interests set_interest
copy_end-Ends client_end w w' ret p h = ground arith
copy_end-Ends origin_end w w' ret p h = ground arith

copy_from-Ends :
    (e : End) (w w' : World) (ret : ℕ)
    → IsPaired w.conn
    → copy_from e w ≡ some (ret, w')
    → IsPaired w'.conn × Ends w w' ret
unfolding copy_from
copy_from-Ends e w w' ret p h =
    let (r, q, g) = >>=-eq-some (receive w.os (rb w.conn e)) _ h in
    elim (Option-cases r) [
      | inl n ↦
          let p' = close_reading-IsPaired w.conn e p in
          (rw (copy_end-conn e _ w' ret (rw n at g)) p', copy_end-Ends e _ w' ret p' (rw n at g))
      | inr (b, n) ↦
          let p' = set_rb-IsPaired w.conn e b p in
          (rw (copy_end-conn e _ w' ret (rw n at g)) p', copy_end-Ends e _ w' ret p' (rw n at g))
    ]

copy_to-Ends :
    (e : End) (w w' : World) (ret : ℕ)
    → IsPaired w.conn
    → copy_to e w ≡ some (ret, w')
    → IsPaired w'.conn × Ends w w' ret
unfolding copy_to
copy_to-Ends e w w' ret p h =
    let (r, q, g) = >>=-eq-some (transmit w.os (wb w.conn e)) _ h in
    elim (Option-cases r) [
      | inl n ↦
          let p' = close_writing-IsPaired w.conn e p in
          (rw (copy_end-conn e _ w' ret (rw n at g)) p', copy_end-Ends e _ w' ret p' (rw n at g))
      | inr ((bytes, b), n) ↦
          let (d, _, l) = >>=-eq-some (sniff w bytes) _ (rw n at g) in
          let p' = set_rb-IsPaired (record (w.conn) { dp = d }) (other e) b (ground arith) in
          (rw (copy_end-conn e _ w' ret l) p', copy_end-Ends e _ w' ret p' l)
    ]

-- An event of a copy whose ends are paired keeps them paired. It ends the copy exactly when both
-- directions are closed at both ends, and then, and only then, the connection is counted down.
pub copy-Ends :
    (w w' : World) (ret : ℕ)
    → IsPaired w.conn
    → (copy_r w ≡ some (ret, w')) ⊎ (copy_w w ≡ some (ret, w'))
    → IsPaired w'.conn × Ends w w' ret
unfolding copy_r copy_w
copy-Ends w w' ret p (inl h) =
    let (e, _, g) = >>=-eq-some (copy_ptr w) _ h in copy_from-Ends e w w' ret p g
copy-Ends w w' ret p (inr h) =
    let (e, _, g) = >>=-eq-some (copy_ptr w) _ h in copy_to-Ends e w w' ret p g
