-- ===== src/Session/Streams.antt =====
-- src/server/socks5nio.c: what a `recv` into a buffer and a `send` from one do to its queue.
use socks_v5_proxy.Prelude.{
  ◌==◌, Option-cases, List-cases, length, take, drop, length-take, window, ℕ, zero, suc, ◌+◌, ◌-◌,
  ◌≤◌, min, ◌≡◌, refl, sym, ap, ◌∙◌, ◌⊎◌, inl, inr, false, none, some, List, [], ◌∷◌, ◌++◌, arith,
}
use socks_v5_proxy.Buffer.{Buffer, buffer_read_ptr, IsValid, contents, room}
use socks_v5_proxy.Buffer.Queue.{buffer_read_adv-contents}
use socks_v5_proxy.Buffer.Stores.{buffer_write_adv-fill, buffer_write_ptr_lem}
use socks_v5_proxy.Session.{Os, receive, transmit}

-- The bytes that `recv` puts into a buffer, and those that `send` takes.
abbrev pub arriving : Os → Buffer → List ℕ
arriving os b = take (room b) os.received

abbrev pub departing : Os → Buffer → List ℕ
departing os b = elim (os.sent) [
  | none ↦ []
  | some k ↦ window b.read (min k (b.write - b.read)) b.bytes
]

pub buffer_read_ptr_lem :
    {b : Buffer} → IsValid b → buffer_read_ptr b ≡ some (b.read, b.write - b.read)
unfolding buffer_read_ptr
buffer_read_ptr_lem v = ground arith

pub receive-nothing :
    (os : Os) (b : Buffer) → IsValid b → arriving os b ≡ [] → receive os b ≡ some none
unfolding receive
receive-nothing os b v e = rw (buffer_write_ptr_lem v, e) refl

-- On a valid buffer a receipt appends what arrives, or there is nothing.
pub receive-cases :
    (os : Os) (b : Buffer)
    → IsValid b
    → ((arriving os b ≡ []) × (receive os b ≡ some none))
      ⊎ ((b' : Buffer) × (receive os b ≡ some (some b'))
          × IsValid b'
          × (contents b' ≡ contents b ++ arriving os b))
unfolding receive
receive-cases os b v = elim (List-cases (arriving os b)) [
  | inl e ↦ inl (e, receive-nothing os b v e)
  | inr (x, rest, e) ↦
      let short : length (arriving os b) ≤ room b =
        omega (arith, length-take (room b) os.received) in
      let (b', h, v', q, _) = buffer_write_adv-fill (arriving os b) v short in
      let some_of : (length (arriving os b) == 0) ≡ false = ground (arith, e) in
      inr (b', rw (buffer_write_ptr_lem v, some_of, h) refl, v', q)
]

-- Two windows that meet are one.
take-nil : (k : ℕ) → ◌≡◌ {A = List ℕ} (take k []) []
take-nil zero = refl
take-nil (suc k) = refl

take-append :
    (t n m : ℕ) (mem : List ℕ) → t ≡ n + m → take t mem ≡ take n mem ++ take m (drop n mem)
take-append t zero m mem e = let f : t ≡ m = omega arith in rw f refl
take-append t (suc n) m [] e = take-nil t ∙ sym (take-nil m)
take-append zero (suc n) m (x ∷ mem) e = absurd (omega arith)
take-append (suc t) (suc n) m (x ∷ mem) e = ap (λ r. x ∷ r) (take-append t n m mem (omega arith))

drop-drop : (r n k : ℕ) (mem : List ℕ) → k ≡ r + n → drop n (drop r mem) ≡ drop k mem
drop-drop zero n k mem e = let f : k ≡ n = omega arith in rw f refl
drop-drop (suc r) n zero mem e = absurd (omega arith)
drop-drop (suc r) zero (suc k) [] e = refl
drop-drop (suc r) (suc n) (suc k) [] e = refl
drop-drop (suc r) n (suc k) (x ∷ mem) e = drop-drop r n k mem (omega arith)

pub window-append :
    (r n t : ℕ) (mem : List ℕ)
    → n ≤ t
    → window r t mem ≡ window r n mem ++ window (r + n) (t - n) mem
window-append r n t mem h =
    let d = drop-drop r n (r + n) mem refl in
    rw (← d) (take-append t n (t - n) (drop r mem) (omega arith))

-- On a valid buffer a transmission takes what departs off the front, or fails.
pub transmit-cases :
    (os : Os) (b : Buffer)
    → IsValid b
    → ((departing os b ≡ []) × (transmit os b ≡ some none))
      ⊎ ((b' : Buffer) × (transmit os b ≡ some (some (departing os b, b')))
          × IsValid b'
          × (contents b ≡ departing os b ++ contents b'))
unfolding transmit
transmit-cases os b v = elim (Option-cases (os.sent)) [
  | inl e ↦ inl (rw e refl, rw (buffer_read_ptr_lem v, e) refl)
  | inr (k, e) ↦
      let n : ℕ = min k (b.write - b.read) in
      let (b', h, v', q) = buffer_read_adv-contents n v (omega arith) in
      let rest : b.write - (b.read + n) ≡ b.write - b.read - n = omega arith in
      let split = window-append b.read n (b.write - b.read) b.bytes (omega arith) in
      inr (b', rw (buffer_read_ptr_lem v, e, h) refl, v', rw (e, q, rest) split)
]
