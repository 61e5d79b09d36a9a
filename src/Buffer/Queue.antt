-- ===== src/Buffer/Queue.antt =====
-- src/server/buffer.c: reading and compacting, against the queue of the bytes between the pointers.
use socks_v5_proxy.Prelude.{
  ◌==◌, Bool-cases, length, get_or, take, drop-eq-cons, overwrite, window, length-overwrite,
  length-window, window-overwrite, pos, ℕ, suc, ◌+◌, ◌-◌, ◌≤◌, ◌<◌, ◌≡◌, refl, sym, ap, ◌∙◌, inl,
  inr, true, some, List, [], ◌∷◌, arith,
}
use socks_v5_proxy.Buffer.{
  Buffer, buffer_init, buffer_can_read, buffer_compact, buffer_read_adv, buffer_read, IsValid,
  contents,
}

pub length-contents : {b : Buffer} → IsValid b → length (contents b) ≡ b.write - b.read
length-contents {b} v = length-window b.read (b.write - b.read) b.bytes (omega arith)

-- A fresh buffer over a large enough storage is valid and empty.
pub buffer_init-IsValid :
    (n : ℕ) (storage : List ℕ)
    → n ≤ length storage
    → IsValid (buffer_init n storage) × (contents (buffer_init n storage) ≡ [])
unfolding buffer_init
buffer_init-IsValid n storage h = (omega arith, refl)

-- The first byte of a non-empty window, and the window behind it.
window-suc :
    (mem : List ℕ) (r w : ℕ)
    → r < w
    → w ≤ length mem
    → window r (w - r) mem ≡ get_or mem r 0 ∷ window (suc r) (w - suc r) mem
window-suc mem r w h k =
    let e : w - r ≡ suc (w - suc r) = omega arith in
    ap (λ n. window r n mem) e ∙ ap (take (suc (w - suc r))) (drop-eq-cons r mem 0 (omega arith))

window-zero : (mem : List ℕ) (k : ℕ) → window k 0 mem ≡ []
window-zero mem k = refl

-- Moving the queued bytes to the front keeps them.
moved-contents :
    {b : Buffer}
    → IsValid b
    → window 0 (b.write - b.read) (overwrite b.bytes 0 (contents b)) ≡ contents b
moved-contents {b} v =
    window-overwrite 0 0 b.bytes 0 (b.write - b.read) (contents b) refl
      (omega (arith, length-contents v)) (omega arith)

-- Compacting a valid buffer keeps it valid and keeps its contents.
buffer_compact-contents :
    {b : Buffer}
    → IsValid b
    → IsValid (buffer_compact b) × (contents (buffer_compact b) ≡ contents b)
unfolding buffer_compact
buffer_compact-contents {b} v =
    ground (arith, moved-contents v, length-overwrite b.bytes 0 (contents b))

-- Advancing the read pointer takes that many bytes off the front of the queue.
pub buffer_read_adv-contents :
    {b : Buffer} (n : ℕ)
    → IsValid b
    → n ≤ b.write - b.read
    → (b' : Buffer) × (buffer_read_adv b (pos n) ≡ some b')
      × IsValid b'
      × (contents b' ≡ window (b.read + n) (b.write - (b.read + n)) b.bytes)
unfolding buffer_read_adv
buffer_read_adv-contents {b} n v h =
    let s : Buffer = record b { read = b.read + n } in
    let s-valid : IsValid s = omega arith in
    let kept : IsValid (buffer_compact s) × (contents (buffer_compact s) ≡ contents s) =
      buffer_compact-contents s-valid in
    elim (Bool-cases (s.read == s.write)) [
      | inl e ↦ (buffer_compact s, ground arith, kept.0, kept.1)
      | inr e ↦ (s, ground arith, s-valid, refl)
    ]

-- Reading a byte from a valid buffer takes the oldest byte off the queue.
pub buffer_read-contents :
    {b : Buffer}
    → IsValid b
    → buffer_can_read b ≡ true
    → (c : ℕ) × (b' : Buffer) × (buffer_read b ≡ some (c, b'))
      × IsValid b'
      × (contents b ≡ c ∷ contents b')
unfolding buffer_read
buffer_read-contents {b} v h =
    let lt : b.read < b.write = ground arith in
    let (b', e, v', q) = buffer_read_adv-contents 1 v (omega arith) in
    let front : contents b ≡ get_or b.bytes b.read 0 ∷ contents b' =
      window-suc b.bytes b.read b.write lt (omega arith)
      ∙ ap (λ r. get_or b.bytes b.read 0 ∷ r)
          (ap (λ k. window k (b.write - k) b.bytes) (omega arith) ∙ sym q) in
    (get_or b.bytes b.read 0, b', rw (h, e), v', front)
