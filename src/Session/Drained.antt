-- ===== src/Session/Drained.antt =====
-- src/server/socks5nio.c: a buffer whose bytes have all been sent.
use socks_v5_proxy.Prelude.{
  leb, ◌==◌, length, pos, ℕ, ◌+◌, ◌-◌, ◌≤◌, ◌<◌, min, ◌≡◌, refl, true, false, some, arith,
}
use socks_v5_proxy.Buffer.{Buffer, buffer_compact, buffer_read_adv, IsValid, contents}
use socks_v5_proxy.Buffer.Queue.{length-contents}
use socks_v5_proxy.Session.{Os, transmit}
use socks_v5_proxy.Session.Streams.{departing, buffer_read_ptr_lem}

-- A buffer after all of it has been sent.
abbrev pub drained : Buffer → Buffer
drained b = record b { read = 0; write = 0 }

buffer_read_adv-drained :
    (b : Buffer) (n : ℕ)
    → b.read + n ≡ b.write
    → 0 < n
    → buffer_read_adv b (pos n) ≡ some (drained b)
unfolding buffer_read_adv buffer_compact
buffer_read_adv-drained b n e h =
    let fits : leb b.write b.write ≡ true = ground arith in
    let same : (b.write == b.write) ≡ true = ground arith in
    let behind : (b.write == 0) ≡ false = ground arith in rw (e, fits, same, behind) refl

pub drained-IsValid : {b : Buffer} → IsValid b → IsValid (drained b)
drained-IsValid v = record { ordered = omega arith; bounded = omega arith; stored = v.stored }

-- Where `send` takes as much as waits, all of it departs.
pub transmit-drained :
    (os : Os) (b : Buffer) (k : ℕ)
    → IsValid b
    → os.sent ≡ some k
    → 0 < length (contents b)
    → length (contents b) ≤ k
    → (departing os b ≡ contents b) × (transmit os b ≡ some (some (contents b, drained b)))
unfolding transmit
transmit-drained os b k v e some_wait enough =
    let size = length-contents v in
    let all : min k (b.write - b.read) ≡ b.write - b.read = omega arith in
    let run =
      buffer_read_adv-drained b (b.write - b.read) (let o = v.ordered in omega arith)
        (omega arith) in
    (rw (e, all) refl, rw (buffer_read_ptr_lem v, e, all, run) refl)
