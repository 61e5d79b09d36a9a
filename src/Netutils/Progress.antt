-- ===== src/Netutils/Progress.antt =====
-- src/server/netutils.c: with a `send` that takes something of what it is offered, all is sent.
use socks_v5_proxy.Buffer.Queue.{length-contents, buffer_read_adv-contents}
use socks_v5_proxy.Session.Streams.{buffer_read_ptr_lem, window-append}
use socks_v5_proxy.Prelude.{
  ltb, tests, Bool-cases, length, take, drop, length-append, length-take, length-drop, take-take,
  window, All, take-all, pos, ◌>>=◌, ℕ, zero, suc, ◌+◌, ◌-◌, ◌≤◌, ◌<◌, ◌≡◌, refl, sym, ap, ◌∙◌, inl,
  inr, true, false, Option, none, some, List, [], ◌∷◌, ◌++◌, append-nil, arith,
}
use socks_v5_proxy.Buffer.{Buffer, buffer_can_read, buffer_read_adv, IsValid, contents}
use socks_v5_proxy.Netutils.{
  SendAnswer, taken, write_step, chunk_step, sock_blocking_write, send_chunk, sock_blocking_copy,
}

-- Every call that is offered something takes at least one byte of it, and no more than that.
abbrev pub Obliging : (ℕ → List ℕ → SendAnswer) → Type 0
Obliging send =
    (k : ℕ) (bytes : List ℕ)
    → 0 < length bytes
    → (m : ℕ) × (taken (send k bytes) ≡ some m) × (0 < m) × (m ≤ length bytes)

-- What `buffer_read_adv` takes off the front.
buffer_read_adv-takes :
    {b : Buffer} (m : ℕ)
    → IsValid b
    → m ≤ length (contents b)
    → (b' : Buffer) × (buffer_read_adv b (pos m) ≡ some b')
      × IsValid b'
      × (contents b ≡ take m (contents b) ++ contents b')
      × (length (contents b') + m ≡ length (contents b))
buffer_read_adv-takes {b} m v h =
    let size = length-contents v in
    let (b', e, v', q) = buffer_read_adv-contents m v (omega arith) in
    let rest : b.write - (b.read + m) ≡ b.write - b.read - m = omega arith in
    let split = window-append b.read m (b.write - b.read) b.bytes (omega arith) in
    let front : take m (contents b) ≡ window b.read m b.bytes =
      take-take m (b.write - b.read) (drop b.read b.bytes) (omega arith) in
    let whole : contents b ≡ take m (contents b) ++ contents b' = rw (front, q, rest) split in
    (
      b',
      e,
      v',
      whole,
      omega (
        arith,
        ap length whole,
        length-append (take m (contents b)) (contents b'),
        length-take {A = ℕ} m (contents b),
      ),
    )

take-append-drop : (m : ℕ) (xs : List ℕ) → take m xs ++ drop m xs ≡ xs
take-append-drop zero xs = refl
take-append-drop (suc m) [] = refl
take-append-drop (suc m) (x ∷ xs) = ap (λ r. x ∷ r) (take-append-drop m xs)

empty-list : (xs : List ℕ) → length xs ≡ 0 → xs ≡ []
empty-list [] h = refl
empty-list (x ∷ xs) h = absurd (omega arith)

buffer_can_read-false : {b : Buffer} → IsValid b → buffer_can_read b ≡ false → contents b ≡ []
unfolding buffer_can_read
buffer_can_read-false {b} v h =
    let over : b.write - b.read ≡ 0 = ground arith in
    empty-list (contents b) (length-contents v ∙ over)

buffer_can_read-true : {b : Buffer} → IsValid b → buffer_can_read b ≡ true → 0 < length (contents b)
unfolding buffer_can_read
buffer_can_read-true {b} v h =
    let some_left : b.read < b.write = ground arith in let size = length-contents v in omega arith

-- The passes that go on and the last one.
write_step-more :
    (again : Buffer → Option (ℕ × Buffer × List ℕ)) (answer : SendAnswer) (m : ℕ) {b' : Buffer}
    (b : Buffer) (offered : List ℕ) (r : ℕ × Buffer × List ℕ)
    → taken answer ≡ some m
    → buffer_read_adv b (pos m) ≡ some b'
    → buffer_can_read b' ≡ true
    → again b' ≡ some r
    → write_step again answer b offered ≡ some (r.0, r.1, take m offered ++ r.2)
unfolding write_step
write_step-more again answer m b offered r e a c rest = rw (write_step, e, a, c, rest) refl

write_step-last :
    (again : Buffer → Option (ℕ × Buffer × List ℕ)) (answer : SendAnswer) (m : ℕ) {b' : Buffer}
    (b : Buffer) (offered : List ℕ)
    → taken answer ≡ some m
    → buffer_read_adv b (pos m) ≡ some b'
    → buffer_can_read b' ≡ false
    → write_step again answer b offered ≡ some (0, b', take m offered)
unfolding write_step
write_step-last again answer m b offered e a c = rw (write_step, e, a, c) refl

chunk_step-more :
    (again : List ℕ → Option (Option ℕ × ℕ × List ℕ)) (answer : SendAnswer) (k m : ℕ)
    (bytes : List ℕ) (r : Option ℕ × ℕ × List ℕ)
    → taken answer ≡ some m
    → ltb m (length bytes) ≡ true
    → again (drop m bytes) ≡ some r
    → chunk_step again answer k bytes ≡ some (r.0, r.1, take m bytes ++ r.2)
unfolding chunk_step
chunk_step-more again answer k m bytes r e more rest = rw (chunk_step, e, more, rest) refl

chunk_step-last :
    (again : List ℕ → Option (Option ℕ × ℕ × List ℕ)) (answer : SendAnswer) (k m : ℕ)
    (bytes : List ℕ)
    → taken answer ≡ some m
    → ltb m (length bytes) ≡ false
    → chunk_step again answer k bytes ≡ some (none, k + 1, take m bytes)
unfolding chunk_step
chunk_step-last again answer k m bytes e last = rw (chunk_step, e, last) refl

-- The bytes of the chunks.
abbrev pub all_bytes : List (List ℕ) → List ℕ
all_bytes [] = []
all_bytes (c ∷ cs) = c ++ all_bytes cs

module _ (send : ℕ → List ℕ → SendAnswer) (obliging : Obliging send) where
  write-step :
      (fuel k : ℕ) {b : Buffer}
      → IsValid b
      → sock_blocking_write send (suc fuel) k b
        ≡ write_step (sock_blocking_write send fuel (k + 1)) (send k (contents b)) b (contents b)
  unfolding sock_blocking_write
  write-step fuel k {b} v =
      ap
        (λ o. o >>= (λ x.
          let offered = window x.0 x.1 b.bytes in
          write_step (sock_blocking_write send fuel (k + 1)) (send k offered) b offered))
        (buffer_read_ptr_lem v)

  write-more :
      (fuel k m : ℕ) {b b' : Buffer} (r : ℕ × Buffer × List ℕ)
      → IsValid b
      → taken (send k (contents b)) ≡ some m
      → buffer_read_adv b (pos m) ≡ some b'
      → buffer_can_read b' ≡ true
      → sock_blocking_write send fuel (k + 1) b' ≡ some r
      → sock_blocking_write send (suc fuel) k b ≡ some (r.0, r.1, take m (contents b) ++ r.2)
  unfolding sock_blocking_write
  write-more fuel k m {b} {b'} r v e a c rest =
      write-step fuel k v
      ∙ write_step-more (sock_blocking_write send fuel (k + 1)) (send k (contents b)) m b
          (contents b) r e a c rest

  write-last :
      (fuel k m : ℕ) {b b' : Buffer}
      → IsValid b
      → taken (send k (contents b)) ≡ some m
      → buffer_read_adv b (pos m) ≡ some b'
      → buffer_can_read b' ≡ false
      → sock_blocking_write send (suc fuel) k b ≡ some (0, b', take m (contents b))
  unfolding sock_blocking_write
  write-last fuel k m {b} {b'} v e a c =
      write-step fuel k v
      ∙ write_step-last (sock_blocking_write send fuel (k + 1)) (send k (contents b)) m b
          (contents b) e a c

  -- A buffer that is not empty is emptied in as many calls as it has bytes, or fewer: the function returns
  -- 0, and what was sent is what the buffer held, in its order.
  pub sock_blocking_write-all :
      (fuel k : ℕ) {b : Buffer}
      → IsValid b
      → 0 < length (contents b)
      → length (contents b) ≤ fuel
      → (b' : Buffer) × (sock_blocking_write send fuel k b ≡ some (0, b', contents b))
        × IsValid b'
        × (contents b' ≡ [])
  sock_blocking_write-all zero k v z h = absurd (omega arith)
  sock_blocking_write-all (suc fuel) k {b} v z h =
      let (m, e, p, l) = obliging k (contents b) z in
      let (b', r, v', whole, size) = buffer_read_adv-takes m v l in
      elim (Bool-cases (buffer_can_read b')) [
        | inl more ↦
            let (b'', again, v'', empty) =
              sock_blocking_write-all fuel (k + 1) v' (buffer_can_read-true v' more)
                (omega arith) in
            (
              b'',
              write-more fuel k m (0, b'', contents b') v e r more again
                  ∙ ap (λ out. some (0, b'', out)) (sym whole),
              v'',
              empty,
            )
        | inr over ↦
            let empty = buffer_can_read-false v' over in
            let all : take m (contents b) ≡ contents b =
              sym (whole ∙ ap (λ out. take m (contents b) ++ out) empty ∙ append-nil _) in
            (b', write-last fuel k m v e r over ∙ ap (λ out. some (0, b', out)) all, v', empty)
      ]

  chunk-more :
      (fuel k m : ℕ) (bytes : List ℕ) (r : Option ℕ × ℕ × List ℕ)
      → taken (send k bytes) ≡ some m
      → ltb m (length bytes) ≡ true
      → send_chunk send fuel (k + 1) (drop m bytes) ≡ some r
      → send_chunk send (suc fuel) k bytes ≡ some (r.0, r.1, take m bytes ++ r.2)
  unfolding send_chunk
  chunk-more fuel k m bytes r e more rest =
      chunk_step-more (send_chunk send fuel (k + 1)) (send k bytes) k m bytes r e more rest

  chunk-last :
      (fuel k m : ℕ) (bytes : List ℕ)
      → taken (send k bytes) ≡ some m
      → ltb m (length bytes) ≡ false
      → send_chunk send (suc fuel) k bytes ≡ some (none, k + 1, take m bytes)
  unfolding send_chunk
  chunk-last fuel k m bytes e last =
      chunk_step-last (send_chunk send fuel (k + 1)) (send k bytes) k m bytes e last

  send_chunk-all :
      (fuel k : ℕ) (bytes : List ℕ)
      → 0 < length bytes
      → length bytes ≤ fuel
      → (k' : ℕ) × (send_chunk send fuel k bytes ≡ some (none, k', bytes))
  send_chunk-all zero k bytes z h = absurd (omega arith)
  send_chunk-all (suc fuel) k bytes z h =
      let (m, e, p, l) = obliging k bytes z in
      elim (Bool-cases (ltb m (length bytes))) [
        | inl more ↦
            let size = length-drop {A = ℕ} m bytes in
            let (k', rest) =
              send_chunk-all fuel (k + 1) (drop m bytes) (omega tests) (omega arith) in
            (
              k',
              chunk-more fuel k m bytes (none, k', drop m bytes) e more rest
                  ∙ ap (λ out. some (none, k', out)) (take-append-drop m bytes),
            )
        | inr last ↦ (
          k + 1,
          chunk-last fuel k m bytes e last
              ∙ ap (λ out. some (none, k + 1, out)) (take-all m bytes (ground arith)),
        )
      ]

  -- A copy of chunks that have 1 to 4096 bytes ends with 0, and what was sent is what was received, in its
  -- order.
  pub sock_blocking_copy-all :
      (k : ℕ) (chunks : List (List ℕ))
      → All (λ c. (0 < length c) × (length c ≤ 4096)) chunks
      → sock_blocking_copy send k chunks ≡ some (0, all_bytes chunks)
  unfolding sock_blocking_copy
  sock_blocking_copy-all k [] h = refl
  sock_blocking_copy-all k (c ∷ cs) (h, hs) =
      let (k', e) = send_chunk-all 4096 k c h.0 h.1 in rw (e, sock_blocking_copy-all k' cs hs) refl
