-- ===== src/Session/Progress.antt =====
-- src/server/socks5nio.c: the handlers of the state COPY end, and leave a connection that can go on.
use socks_v5_proxy.Disector.{DisectorParser, disector_consume}
use socks_v5_proxy.Session.Streams.{departing, receive-cases, transmit-cases}
use socks_v5_proxy.Prelude.{
  ◌==◌, Bool-cases, Option-cases, length, u32, pos, ℕ, ◌+◌, ◌≡◌, refl, ◌⊎◌, inl, inr, true, Option,
  none, some, arith,
}
use socks_v5_proxy.Buffer.{Buffer, IsValid}
use socks_v5_proxy.Selector.{FdSelector}
use socks_v5_proxy.Selector.Consistency.{IsConsistent}
use socks_v5_proxy.Selector.Interests.{IsUsed, selector_set_interest-IsUsed}
use socks_v5_proxy.Session.{copy_state, done_state, Socks5, World, set_interest}
use socks_v5_proxy.Session.Copying.{
  End, client_end, origin_end, other, fd_of, duplex, rb, set_rb, wb, set_wb, interest_of,
  copy_compute_interests, copy_ptr, close_reading, close_writing, is_noop, copy_end, copy_from,
  copy_r, is_sniffed, sniff, copy_to, copy_w,
}
use socks_v5_proxy.Session.Closing.{
  IsPaired, close_reading-IsPaired, close_writing-IsPaired, set_rb-IsPaired, Ends, copy-Ends,
}

-- A connection between two descriptors that the selector has, with buffers in order.
pub record IsCopying (s : Socks5) (sel : FdSelector ℕ ℕ) : Type 0 where
  pub agreed : IsConsistent sel
  pub client : IsUsed sel s.client_fd
  pub origin : (o : ℕ) × (s.origin_fd ≡ pos o) × IsUsed sel o
  pub paired : IsPaired s
  pub read_valid : IsValid s.read_buffer
  pub write_valid : IsValid s.write_buffer

rb-IsValid : (s : Socks5) (sel : FdSelector ℕ ℕ) (e : End) → IsCopying s sel → IsValid (rb s e)
rb-IsValid s sel client_end c = c.read_valid
rb-IsValid s sel origin_end c = c.write_valid

-- The descriptor of an end.
end_fd :
    (s : Socks5) (sel : FdSelector ℕ ℕ) (e : End)
    → IsCopying s sel
    → (k : ℕ) × (fd_of s e ≡ pos k) × IsUsed sel k
end_fd s sel client_end c = (s.client_fd, refl, c.client)
end_fd s sel origin_end c = c.origin

copy_compute_interests-IsCopying :
    (e : End) (w : World)
    → IsCopying w.conn w.selector
    → (sel : FdSelector ℕ ℕ) × (copy_compute_interests e w ≡ some (record w { selector = sel }))
      × IsCopying w.conn sel
unfolding copy_compute_interests set_interest
copy_compute_interests-IsCopying e w c =
    let (k, at_fd, u) = end_fd w.conn w.selector e c in
    let (sel, run, agreed, kept) =
      selector_set_interest-IsUsed w.selector k (interest_of w.conn e) c.agreed u in
    let (o, is_o, uo) = c.origin in
    (
      sel,
      rw (copy_compute_interests, set_interest, at_fd, run) refl,
      record {
        agreed = agreed;
        client = kept w.conn.client_fd c.client;
        origin = (o, is_o, kept o uo);
        paired = c.paired;
        read_valid = c.read_valid;
        write_valid = c.write_valid;
      },
    )

-- What may change at an end: the directions, the sniffer and a buffer.
close_reading-IsCopying :
    (s : Socks5) (sel : FdSelector ℕ ℕ) (e : End)
    → IsCopying s sel
    → IsCopying (close_reading s e) sel
unfolding close_reading
close_reading-IsCopying s sel client_end c =
    let p = close_reading-IsPaired s client_end c.paired in ground arith
close_reading-IsCopying s sel origin_end c =
    let p = close_reading-IsPaired s origin_end c.paired in ground arith

close_writing-IsCopying :
    (s : Socks5) (sel : FdSelector ℕ ℕ) (e : End)
    → IsCopying s sel
    → IsCopying (close_writing s e) sel
unfolding close_writing
close_writing-IsCopying s sel client_end c =
    let p = close_writing-IsPaired s client_end c.paired in ground arith
close_writing-IsCopying s sel origin_end c =
    let p = close_writing-IsPaired s origin_end c.paired in ground arith

set_rb-IsCopying :
    (s : Socks5) (sel : FdSelector ℕ ℕ) (e : End) (b : Buffer)
    → IsCopying s sel
    → IsValid b
    → IsCopying (set_rb s e b) sel
set_rb-IsCopying s sel client_end b c v = record {
  agreed = c.agreed;
  client = c.client;
  origin = c.origin;
  paired = set_rb-IsPaired s client_end b c.paired;
  read_valid = v;
  write_valid = c.write_valid;
}
set_rb-IsCopying s sel origin_end b c v = record {
  agreed = c.agreed;
  client = c.client;
  origin = c.origin;
  paired = set_rb-IsPaired s origin_end b c.paired;
  read_valid = c.read_valid;
  write_valid = v;
}

dp-IsCopying :
    (s : Socks5) (sel : FdSelector ℕ ℕ) (p : DisectorParser)
    → IsCopying s sel
    → IsCopying (record s { dp = p }) sel
dp-IsCopying s sel p c = record {
  agreed = c.agreed;
  client = c.client;
  origin = c.origin;
  paired = let q = c.paired in ground arith;
  read_valid = c.read_valid;
  write_valid = c.write_valid;
}

-- The handler ends, and the connection can go on.
abbrev Proceeds : Option (ℕ × World) → Type 0
Proceeds result =
    (ret : ℕ) × (w' : World) × (result ≡ some (ret, w')) × IsCopying w'.conn w'.selector

copy_end-Proceeds : (e : End) (w : World) → IsCopying w.conn w.selector → Proceeds (copy_end e w)
unfolding copy_end
copy_end-Proceeds e w c =
    let (sel1, run1, c1) = copy_compute_interests-IsCopying e w c in
    let w1 : World = record w { selector = sel1 } in
    let (sel2, run2, c2) = copy_compute_interests-IsCopying (other e) w1 c1 in
    elim (Bool-cases (is_noop (duplex w.conn e))) [
      | inl shut ↦ (
        done_state,
        record w {
          selector = sel2;
          server = record (w.server) {
            current_connections = u32 (w.server.current_connections + 4294967295);
          };
        },
        rw (copy_end, run1, run2, shut) refl,
        c2,
      )
      | inr open_ ↦
          (copy_state, record w { selector = sel2 }, rw (copy_end, run1, run2, open_) refl, c2)
    ]

copy_from-Proceeds : (e : End) (w : World) → IsCopying w.conn w.selector → Proceeds (copy_from e w)
unfolding copy_from
copy_from-Proceeds e w c =
    elim (receive-cases w.os (rb w.conn e) (rb-IsValid w.conn w.selector e c)) [
      | inl (_, q) ↦
          let (ret, w', run, c') =
            copy_end-Proceeds e (record w { conn = close_reading w.conn e })
              (close_reading-IsCopying w.conn w.selector e c) in
          (ret, w', rw (copy_from, q) run, c')
      | inr (b, q, v, _) ↦
          let (ret, w', run, c') =
            copy_end-Proceeds e (record w { conn = set_rb w.conn e b })
              (set_rb-IsCopying w.conn w.selector e b c v) in
          (ret, w', rw (copy_from, q) run, c')
    ]

-- Where the sniffer ends with the bytes that are sent, so does the handler.
copy_to-Proceeds :
    (e : End) (w : World)
    → IsCopying w.conn w.selector
    → ((sniff w (departing w.os (wb w.conn e)) ≡ none) × (copy_to e w ≡ none))
      ⊎ Proceeds (copy_to e w)
unfolding copy_to
copy_to-Proceeds e w c =
    elim (transmit-cases w.os (wb w.conn e) (rb-IsValid w.conn w.selector (other e) c)) [
      | inl (_, q) ↦
          let (ret, w', run, c') =
            copy_end-Proceeds e (record w { conn = close_writing w.conn e })
              (close_writing-IsCopying w.conn w.selector e c) in
          inr (ret, w', rw (copy_to, q) run, c')
      | inr (b, q, v, _) ↦
          let sent = departing w.os (wb w.conn e) in
          elim (Option-cases (sniff w sent)) [
            | inl fault ↦ inl (fault, rw (copy_to, q, fault) refl)
            | inr (p, fine) ↦
                let sniffed : Socks5 = record (w.conn) { dp = p } in
                let (ret, w', run, c') =
                  copy_end-Proceeds e
                    (record w {
                      conn = set_wb sniffed e b;
                      server = record (w.server) {
                        bytes_transferred = u32 (w.server.bytes_transferred + length sent);
                      };
                    })
                    (set_rb-IsCopying sniffed w.selector (other e) b
                      (dp-IsCopying w.conn w.selector p c) v) in
                inr (ret, w', rw (copy_to, q, fine) run, c')
          ]
    ]

-- The sniffer would store outside of its arrays.
abbrev pub Faults : World → End → Type 0
Faults w e =
    (is_sniffed w ≡ true) × (disector_consume w.conn.dp (departing w.os (wb w.conn e)) ≡ none)

sniff-Faults : (w : World) (e : End) → sniff w (departing w.os (wb w.conn e)) ≡ none → Faults w e
unfolding sniff
sniff-Faults w e h = elim (Bool-cases (is_sniffed w)) [
  | inr quiet ↦ cc (rw (sniff, quiet) at h)
  | inl looks ↦ elim (Option-cases (disector_consume w.conn.dp (departing w.os (wb w.conn e)))) [
    | inl fault ↦ (looks, fault)
    | inr ((st, p), fine) ↦ cc (rw (sniff, looks, fine) at h)
  ]
]

-- The end that the event is for.
abbrev pub IsAt : World → End → Type 0
IsAt w e = fd_of w.conn e ≡ pos w.fd

copy_ptr-IsAt :
    (w : World)
    → (IsAt w client_end ⊎ IsAt w origin_end)
    → (e : End) × (copy_ptr w ≡ some e) × IsAt w e
unfolding copy_ptr
copy_ptr-IsAt w h = elim (Bool-cases (w.conn.client_fd == w.fd)) [
  | inl same ↦ (client_end, rw (copy_ptr, same) refl, ground arith)
  | inr apart ↦ elim h [
    | inl q ↦ absurd (ground arith)
    | inr q ↦
        let here : (w.fd == w.fd) ≡ true = ground arith in
        (origin_end, rw (copy_ptr, apart, q, here) refl, q)
  ]
]

-- The handler ends, as it should, with a connection that can go on.
abbrev pub Continues : World → Option (ℕ × World) → Type 0
Continues w result =
    (ret : ℕ) × (w' : World) × (result ≡ some (ret, w'))
    × IsCopying w'.conn w'.selector
    × Ends w w' ret

-- On a connection between two descriptors that the selector has, with paired directions and valid buffers, an
-- event at either of the two for reading ends, whatever is received, and an event for writing ends, whatever
-- is sent, except where the sniffer looks at the bytes and would store outside of its arrays. The connection
-- can go on then: its ends are paired, its buffers valid, both descriptors in use. The event ends the copy
-- exactly when both directions are closed, and only then the connection is counted down.
pub copying-Ends :
    (w : World)
    → IsCopying w.conn w.selector
    → (IsAt w client_end ⊎ IsAt w origin_end)
    → Continues w (copy_r w)
      × (Continues w (copy_w w) ⊎ ((e : End) × IsAt w e × Faults w e × (copy_w w ≡ none)))
unfolding copy_r copy_w
copying-Ends w c h =
    let (e, here, at_end) = copy_ptr-IsAt w h in
    let (ret, w', run, c') = copy_from-Proceeds e w c in
    let read_ : copy_r w ≡ some (ret, w') = rw (copy_r, here) run in
    (
      (ret, w', read_, c', (copy-Ends w w' ret c.paired (inl read_)).1),
      elim (copy_to-Proceeds e w c) [
        | inl (fault, stop) ↦ inr (e, at_end, sniff-Faults w e fault, rw (copy_w, here) stop)
        | inr (ret2, w2, run2, c2) ↦
            let written : copy_w w ≡ some (ret2, w2) = rw (copy_w, here) run2 in
            inl (ret2, w2, written, c2, (copy-Ends w w2 ret2 c.paired (inr written)).1)
      ],
    )
