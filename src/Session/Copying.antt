-- ===== src/Session/Copying.antt =====
-- src/server/socks5nio.c: the state COPY.
use socks_v5_proxy.Prelude.{
  ltb, leb, ◌==◌, if◌then◌else◌, length, u32, ℤ, pos, negsuc, ◌>>=◌, ℕ, ◌+◌, Bool, true, false, not,
  ◌&&◌, ◌||◌, Option, none, some, List,
}
use socks_v5_proxy.Buffer.{Buffer, buffer_can_write, buffer_can_read}
use socks_v5_proxy.Disector.{
  disector_wait_pop, disector_user, disector_response, disector_done, disector_incompatible,
  disector_state_value, DisectorParser, disector_parser_reset, disector_parser_init,
  disector_consume,
}
use socks_v5_proxy.Selector.{FdInterest}
use socks_v5_proxy.Session.{
  copy_state, done_state, Socks5, World, op_both, is_success, Handler, set_interest, receive,
  transmit,
}

unfoldable pub copy_init : ℕ → World → Option World
copy_init state w = some (record w {
  conn = record (w.conn) {
    client_duplex = op_both;
    origin_duplex = op_both;
    dp = disector_parser_init;
  };
})

-- The two ends of a copy.
pub data End : Type 0 where
  client_end origin_end : End

abbrev pub other : End → End
other client_end = origin_end
other origin_end = client_end

-- The fields of `struct copy` at an end: `*fd`, `duplex`, `rb` and `wb`.
abbrev pub fd_of : Socks5 → End → ℤ
fd_of s client_end = pos s.client_fd
fd_of s origin_end = s.origin_fd

abbrev pub duplex : Socks5 → End → FdInterest
duplex s client_end = s.client_duplex
duplex s origin_end = s.origin_duplex

abbrev pub set_duplex : Socks5 → End → FdInterest → Socks5
set_duplex s client_end d = record s { client_duplex = d }
set_duplex s origin_end d = record s { origin_duplex = d }

abbrev pub rb : Socks5 → End → Buffer
rb s client_end = s.read_buffer
rb s origin_end = s.write_buffer

abbrev pub set_rb : Socks5 → End → Buffer → Socks5
set_rb s client_end b = record s { read_buffer = b }
set_rb s origin_end b = record s { write_buffer = b }

abbrev pub wb : Socks5 → End → Buffer
wb s e = rb s (other e)

abbrev pub set_wb : Socks5 → End → Buffer → Socks5
set_wb s e b = set_rb s (other e) b

abbrev pub no_read : FdInterest → FdInterest
no_read d = record d { op_read = false }

abbrev pub no_write : FdInterest → FdInterest
no_write d = record d { op_write = false }

-- The value that `copy_compute_interests` computes.
abbrev pub interest_of : Socks5 → End → FdInterest
interest_of s e = record {
  op_read = (duplex s e).op_read && buffer_can_write (rb s e);
  op_write = (duplex s e).op_write && buffer_can_read (wb s e);
}

-- `none` is the abort where the selector refuses.
unfoldable pub copy_compute_interests : End → World → Option World
copy_compute_interests e w = do
  (st, w') ← set_interest w (fd_of w.conn e) (interest_of w.conn e)
  if is_success st then some w' else none

abbrev pub is_fd : ℤ → ℕ → Bool
is_fd (negsuc k) fd = false
is_fd (pos n) fd = n == fd

-- `copy_ptr`, with the assertion that follows each of its calls.
unfoldable pub copy_ptr : World → Option End
copy_ptr w =
    if w.conn.client_fd == w.fd
    then some client_end
    else if is_fd w.conn.origin_fd w.fd
    then some origin_end
    else none

-- An end gives up one direction, and the other end, where there is one, the opposite one.
abbrev pub has_fd : ℤ → Bool
has_fd (negsuc k) = false
has_fd (pos n) = true

unfoldable pub close_reading : Socks5 → End → Socks5
close_reading s e =
    let s1 = set_duplex s e (no_read (duplex s e)) in
    if has_fd (fd_of s (other e))
    then set_duplex s1 (other e) (no_write (duplex s1 (other e)))
    else s1

unfoldable pub close_writing : Socks5 → End → Socks5
close_writing s e =
    let s1 = set_duplex s e (no_write (duplex s e)) in
    if has_fd (fd_of s (other e))
    then set_duplex s1 (other e) (no_read (duplex s1 (other e)))
    else s1

abbrev pub is_noop : FdInterest → Bool
is_noop d = not d.op_read && not d.op_write

-- The common end of `copy_r` and `copy_w`.
unfoldable pub copy_end : End → Handler
unfolding copy_compute_interests
copy_end e w = do
  w1 ← copy_compute_interests e w
  w2 ← copy_compute_interests (other e) w1
  if is_noop (duplex w2.conn e)
      then some (
        done_state,
        record w2 {
          server = record (w2.server) {
            current_connections = u32 (w2.server.current_connections + 4294967295);
          };
        },
      )
      else some (copy_state, w2)

-- `copy_r` at a given end.
unfoldable pub copy_from : End → Handler
unfolding copy_end close_reading
copy_from e w = do
  r ← receive w.os (rb w.conn e)
  elim r [
    | none ↦ copy_end e (record w { conn = close_reading w.conn e })
    | some b ↦ copy_end e (record w { conn = set_rb w.conn e b })
  ]

unfoldable pub copy_r : Handler
unfolding copy_ptr copy_from
copy_r w = do e ← copy_ptr w; copy_from e w

-- Whether the sniffer looks at what goes to a descriptor.
abbrev pub is_sniffed : World → Bool
is_sniffed w =
    let st = disector_state_value w.conn.dp.state in
    w.server.is_disector_on
    && not (st == disector_state_value disector_incompatible)
    && ((ltb st (disector_state_value disector_response)
          && leb (disector_state_value disector_user) st
          && is_fd w.conn.origin_fd w.fd)
        || ((st == disector_state_value disector_response
              || st == disector_state_value disector_wait_pop)
            && w.conn.client_fd == w.fd))

-- The sniffer on the bytes that were sent; credentials that it finds are logged. `none` is a store
-- outside of it.
unfoldable pub sniff : World → List ℕ → Option DisectorParser
sniff w bytes =
    if is_sniffed w
    then (do
      (st, p) ← disector_consume w.conn.dp bytes
      some (
          if disector_state_value st == disector_state_value disector_done
          then disector_parser_reset p
          else p))
    else some w.conn.dp

-- `copy_w` at a given end.
unfoldable pub copy_to : End → Handler
unfolding copy_end close_writing sniff
copy_to e w = do
  r ← transmit w.os (wb w.conn e)
  elim r [
    | none ↦ copy_end e (record w { conn = close_writing w.conn e })
    | some (bytes, b) ↦ (do
      p ← sniff w bytes
      copy_end e (record w {
        conn = set_wb (record (w.conn) { dp = p }) e b;
        server = record (w.server) {
          bytes_transferred = u32 (w.server.bytes_transferred + length bytes);
        };
      }))
  ]

unfoldable pub copy_w : Handler
unfolding copy_ptr copy_to
copy_w w = do e ← copy_ptr w; copy_to e w
