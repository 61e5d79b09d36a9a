-- ===== src/Session/Relay.antt =====
-- src/server/socks5nio.c: the state COPY as a relay of two streams.
use socks_v5_proxy.Prelude.{
  Option-cases, >>=-eq-some, ℕ, ◌≡◌, refl, sym, ◌⊎◌, inl, inr, none, some, List, ◌++◌, append-nil,
  arith,
}
use socks_v5_proxy.Disector.{DisectorParser}
use socks_v5_proxy.Buffer.{Buffer, IsValid, contents}
use socks_v5_proxy.Session.{Socks5, World, set_interest, receive, transmit}
use socks_v5_proxy.Session.Copying.{
  End, client_end, origin_end, other, rb, set_rb, wb, set_wb, copy_compute_interests, close_reading,
  close_writing, copy_end, copy_from, sniff, copy_to,
}
use socks_v5_proxy.Session.Streams.{arriving, departing, receive-cases, transmit-cases}

-- The end of a handler leaves the connection as it is.
pub copy_end-conn :
    (e : End) (w w' : World) (ret : ℕ) → copy_end e w ≡ some (ret, w') → w'.conn ≡ w.conn
unfolding copy_end copy_compute_interests set_interest
copy_end-conn e w w' ret h = ground arith

-- What closing a direction, and storing a buffer, do to the buffers.
pub close_reading-rb : (s : Socks5) (e x : End) → rb (close_reading s e) x ≡ rb s x
unfolding close_reading
close_reading-rb s client_end client_end = ground arith
close_reading-rb s client_end origin_end = ground arith
close_reading-rb s origin_end client_end = ground arith
close_reading-rb s origin_end origin_end = ground arith

pub close_writing-rb : (s : Socks5) (e x : End) → rb (close_writing s e) x ≡ rb s x
unfolding close_writing
close_writing-rb s client_end client_end = ground arith
close_writing-rb s client_end origin_end = ground arith
close_writing-rb s origin_end client_end = ground arith
close_writing-rb s origin_end origin_end = ground arith

set_rb-rb :
    (s : Socks5) (e : End) (b : Buffer)
    → (rb (set_rb s e b) e ≡ b) × (rb (set_rb s e b) (other e) ≡ rb s (other e))
set_rb-rb s client_end b = (refl, refl)
set_rb-rb s origin_end b = (refl, refl)

-- The two ways of a receipt at an end, and of a transmission.
pub copy_from-conn :
    (e : End) (w w' : World) (ret : ℕ)
    → copy_from e w ≡ some (ret, w')
    → ((receive w.os (rb w.conn e) ≡ some none) × (w'.conn ≡ close_reading w.conn e))
      ⊎ ((b : Buffer) × (receive w.os (rb w.conn e) ≡ some (some b))
          × (w'.conn ≡ set_rb w.conn e b))
unfolding copy_from
copy_from-conn e w w' ret h =
    let (r, q, g) = >>=-eq-some (receive w.os (rb w.conn e)) _ h in
    elim (Option-cases r) [
      | inl n ↦ inl (rw (← n) q, copy_end-conn e _ w' ret (rw n at g))
      | inr (b, n) ↦ inr (b, rw (← n) q, copy_end-conn e _ w' ret (rw n at g))
    ]

pub copy_to-conn :
    (e : End) (w w' : World) (ret : ℕ)
    → copy_to e w ≡ some (ret, w')
    → ((transmit w.os (wb w.conn e) ≡ some none) × (w'.conn ≡ close_writing w.conn e))
      ⊎ ((bytes : List ℕ) × (b : Buffer) × (p : DisectorParser) × (transmit w.os (wb w.conn e)
            ≡ some (some (bytes, b)))
          × (w'.conn ≡ set_wb (record (w.conn) { dp = p }) e b))
unfolding copy_to
copy_to-conn e w w' ret h =
    let (r, q, g) = >>=-eq-some (transmit w.os (wb w.conn e)) _ h in
    elim (Option-cases r) [
      | inl n ↦ inl (rw (← n) q, copy_end-conn e _ w' ret (rw n at g))
      | inr ((bytes, b), n) ↦
          let (p, _, l) = >>=-eq-some (sniff w bytes) _ (rw n at g) in
          inr (bytes, b, p, rw (← n) q, copy_end-conn e _ w' ret l)
    ]

-- A receipt at an end appends what arrives to the buffer of that end, and leaves the other buffer.
pub copy_from-rb :
    (e : End) (w w' : World) (ret : ℕ)
    → IsValid (rb w.conn e)
    → copy_from e w ≡ some (ret, w')
    → IsValid (rb w'.conn e)
      × (contents (rb w'.conn e) ≡ contents (rb w.conn e) ++ arriving w.os (rb w.conn e))
copy_from-rb e w w' ret v h = elim (copy_from-conn e w w' ret h) [
  | inl (q, c) ↦ elim (receive-cases w.os (rb w.conn e) v) [
    | inl (f, _) ↦ rw (c, close_reading-rb, f) (v, sym (append-nil _))
    | inr (b', g, _, _) ↦ absurd (ground arith)
  ]
  | inr (b, q, c) ↦ elim (receive-cases w.os (rb w.conn e) v) [
    | inl (_, g) ↦ absurd (ground arith)
    | inr (b', g, v', f) ↦
        let same : b ≡ b' = ground arith in rw (c, (set_rb-rb w.conn e b).0, same) (v', f)
  ]
]

pub copy_from-wb :
    (e : End) (w w' : World) (ret : ℕ) → copy_from e w ≡ some (ret, w') → wb w'.conn e ≡ wb w.conn e
copy_from-wb e w w' ret h = elim (copy_from-conn e w w' ret h) [
  | inl (q, c) ↦ rw (c, close_reading-rb) refl
  | inr (b, q, c) ↦ rw c (set_rb-rb w.conn e b).1
]

-- A transmission at an end takes what departs off the front of the other end's buffer.
pub copy_to-wb :
    (e : End) (w w' : World) (ret : ℕ)
    → IsValid (wb w.conn e)
    → copy_to e w ≡ some (ret, w')
    → IsValid (wb w'.conn e)
      × (contents (wb w.conn e) ≡ departing w.os (wb w.conn e) ++ contents (wb w'.conn e))
copy_to-wb e w w' ret v h = elim (copy_to-conn e w w' ret h) [
  | inl (q, c) ↦ elim (transmit-cases w.os (wb w.conn e) v) [
    | inl (f, _) ↦ rw (c, close_writing-rb, f) (v, refl)
    | inr (b', g, _, _) ↦ absurd (ground arith)
  ]
  | inr (bytes, b, p, q, c) ↦ elim (transmit-cases w.os (wb w.conn e) v) [
    | inl (_, g) ↦ absurd (ground arith)
    | inr (b', g, v', f) ↦
        let same : b ≡ b' = ground arith in
        rw (c, (set_rb-rb (record (w.conn) { dp = p }) (other e) b).0, same) (v', f)
  ]
]

pub copy_to-rb :
    (e : End) (w w' : World) (ret : ℕ) → copy_to e w ≡ some (ret, w') → rb w'.conn e ≡ rb w.conn e
copy_to-rb client_end w w' ret h = elim (copy_to-conn client_end w w' ret h) [
  | inl (q, c) ↦ rw (c, close_writing-rb) refl
  | inr (bytes, b, p, q, c) ↦ rw c refl
]
copy_to-rb origin_end w w' ret h = elim (copy_to-conn origin_end w w' ret h) [
  | inl (q, c) ↦ rw (c, close_writing-rb) refl
  | inr (bytes, b, p, q, c) ↦ rw c refl
]
