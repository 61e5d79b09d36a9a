-- ===== src/Buffer/Stores.antt =====
-- src/server/buffer.c: writing, against the queue of the bytes between the pointers.
use socks_v5_proxy.Prelude.{
  ltb, Bool-cases, length, overwrite, length-overwrite, window-overwrite, ℤ, pos, negsuc, ℕ, ◌+◌,
  ◌-◌, ◌≤◌, ◌<◌, ◌≡◌, refl, sym, ap, ◌∙◌, ◌⊎◌, inl, inr, Option, some, List, [], ◌∷◌, ◌++◌,
  append-nil, append_assoc, arith,
}
use socks_v5_proxy.Buffer.{
  Buffer, buffer_write_ptr, buffer_write_adv, buffer_write, buffer_writes, buffer_fill, IsValid,
  contents, room,
}

-- On a valid buffer with room for them, bytes stored from the write pointer on and then advanced over
-- are appended to the queue, with the pointers in order; the room shrinks by their number.
pub buffer_write_adv-fill :
    {b : Buffer} (xs : List ℕ)
    → IsValid b
    → length xs ≤ room b
    → (b' : Buffer) × (buffer_write_adv (buffer_fill b xs) (pos (length xs)) ≡ some b')
      × IsValid b'
      × (contents b' ≡ contents b ++ xs)
      × (room b' ≡ room b - length xs)
unfolding buffer_write_adv buffer_fill
buffer_write_adv-fill {b} xs v h = (
  record b { bytes = overwrite b.bytes b.write xs; write = b.write + length xs },
  ground arith,
  omega (arith, length-overwrite b.bytes b.write xs),
  window-overwrite b.read (b.write - b.read) b.bytes b.write (b.write + length xs - b.read) xs
      (omega arith) (omega arith) (omega arith),
  omega arith,
)

-- Writing a byte never fails on a valid buffer. With room left the byte is appended, and without
-- room the buffer is left as it was.
pub buffer_write-contents :
    {b : Buffer} (c : ℕ)
    → IsValid b
    → (b' : Buffer) × (buffer_write b c ≡ some b')
      × IsValid b'
      × (((0 < room b) × (contents b' ≡ contents b ++ c ∷ []) × (room b' ≡ room b - 1))
          ⊎ ((room b ≡ 0) × (b' ≡ b)))
unfolding buffer_write overwrite
buffer_write-contents {b} c v = elim (Bool-cases (ltb b.write b.limit)) [
  | inl e ↦
      let lt : b.write < b.limit = ground arith in
      let (b', w, v', q, r) = buffer_write_adv-fill (c ∷ []) v (omega arith) in
      (b', rw e (unfold buffer_fill in w), v', inl (omega arith, q, r))
  | inr e ↦ let full : b.limit ≤ b.write = ground arith in (b, rw e, v, inr (omega arith, refl))
]

-- The contract of the functions that serialise a reply: with room for all of its bytes they are
-- appended to the queue and their number is returned; without it the buffer is left as it was and
-- -1 is returned. In neither case does the buffer abort.
abbrev pub Marshalls : Buffer → List ℕ → Option (ℤ × Buffer) → Type 0
Marshalls b reply result =
    ((room b < length reply) × (result ≡ some (negsuc 0, b)))
    ⊎ ((length reply ≤ room b)
        × ((b' : Buffer) × (result ≡ some (pos (length reply), b'))
            × IsValid b'
            × (contents b' ≡ contents b ++ reply)
            × (room b' ≡ room b - length reply)))

pub room-cases : (n : ℕ) (b : Buffer) → (room b < n) ⊎ (n ≤ room b)
room-cases n b = ground arith

-- With room for all of them the bytes are appended in order.
pub buffer_writes-contents :
    (cs : List ℕ) (b : Buffer)
    → IsValid b
    → length cs ≤ room b
    → (b' : Buffer) × (buffer_writes b cs ≡ some b')
      × IsValid b'
      × (contents b' ≡ contents b ++ cs)
      × (room b' ≡ room b - length cs)
unfolding buffer_writes
buffer_writes-contents [] b v h = (b, refl, v, sym (append-nil (contents b)), omega arith)
buffer_writes-contents (c ∷ cs) b v h =
    let (b', w, v', cases) = buffer_write-contents c v in
    elim cases [
      | inr (z, _) ↦ absurd (omega arith)
      | inl (_, q', r') ↦
          let (b'', w', v'', q'', r'') = buffer_writes-contents cs b' v' (omega arith) in
          (
            b'',
            rw w w',
            v'',
            q'' ∙ ap (λ l. l ++ cs) q' ∙ append_assoc (contents b) (c ∷ []) cs,
            omega arith,
          )
    ]

-- The offset and the room that a valid buffer hands out.
pub buffer_write_ptr_lem : {b : Buffer} → IsValid b → buffer_write_ptr b ≡ some (b.write, room b)
unfolding buffer_write_ptr
buffer_write_ptr_lem v = ground arith
