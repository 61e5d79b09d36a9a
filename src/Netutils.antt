-- ===== src/Netutils.antt =====
-- src/server/netutils.c: the writes that go on until all is sent. `send` is a parameter: what its k-th
-- call answers for the bytes that are offered, with `errno`. The loops run on fuel, and `none` is no more
-- fuel or a failed assertion of the buffer.
pub mod Human
pub mod Progress
use socks_v5_proxy.Prelude.{
  ltb, ◌==◌, if◌then◌else◌, length, take, drop, window, ℤ, pos, negsuc, ◌>>=◌, ℕ, zero, suc, ◌+◌,
  Option, none, some, List, [], ◌∷◌, ◌++◌,
}
use socks_v5_proxy.Buffer.{Buffer, buffer_can_read, buffer_read_ptr, buffer_read_adv}

pub record SendAnswer : Type 0 where
  pub nwritten : ℤ
  pub errno : ℕ

-- The bytes taken, where `nwritten > 0`.
unfoldable pub taken : SendAnswer → Option ℕ
taken a = elim a.nwritten [ pos m ↦ if m == 0 then none else some m | negsuc m ↦ none ]

-- One pass of the loop, for the bytes that were offered and the answer to them; `again` is the passes that
-- follow, for a buffer.
unfoldable pub write_step :
    (Buffer → Option (ℕ × Buffer × List ℕ))
    → SendAnswer
    → Buffer
    → List ℕ
    → Option (ℕ × Buffer × List ℕ)
write_step again answer b offered = elim (taken answer) [
  | none ↦ some (answer.errno, b, [])
  | some m ↦ buffer_read_adv b (pos m) >>= (λ b'.
      let rest = again b' in
      if buffer_can_read b'
      then (rest >>= (λ r. some (r.0, r.1, take m offered ++ r.2)))
      else some (0, b', take m offered))
]

-- One pass of the inner loop of the copy, from the k-th call on.
unfoldable pub chunk_step :
    (List ℕ → Option (Option ℕ × ℕ × List ℕ))
    → SendAnswer
    → ℕ
    → List ℕ
    → Option (Option ℕ × ℕ × List ℕ)
chunk_step again answer k bytes = elim (taken answer) [
  | none ↦ some (some answer.errno, k + 1, [])
  | some m ↦
      let rest = again (drop m bytes) in
      if ltb m (length bytes)
      then (rest >>= (λ r. some (r.0, r.1, take m bytes ++ r.2)))
      else some (none, k + 1, take m bytes)
]

module _ (send : ℕ → List ℕ → SendAnswer) where
  -- The result, the buffer and the bytes that were sent, from the k-th call on.
  unfoldable pub sock_blocking_write : ℕ → ℕ → Buffer → Option (ℕ × Buffer × List ℕ)
  sock_blocking_write zero k b = none
  sock_blocking_write (suc fuel) k b = do
    (ptr, n) ← buffer_read_ptr b
    let offered = window ptr n b.bytes
    write_step (sock_blocking_write fuel (k + 1)) (send k offered) b offered

  -- `errno` if a call sent nothing, the number of the next call, and the bytes sent.
  unfoldable pub send_chunk : ℕ → ℕ → List ℕ → Option (Option ℕ × ℕ × List ℕ)
  send_chunk zero k bytes = none
  send_chunk (suc fuel) k bytes = chunk_step (send_chunk fuel (k + 1)) (send k bytes) k bytes

  -- The outer loop, over what the calls of `recv` give up to the one that gives nothing or fails. A chunk
  -- has at most 4096 bytes, as many as the calls that it can take.
  unfoldable pub sock_blocking_copy : ℕ → List (List ℕ) → Option (ℕ × List ℕ)
  sock_blocking_copy k [] = some (0, [])
  sock_blocking_copy k (chunk ∷ chunks) = do
    (failure, k', out) ← send_chunk 4096 k chunk
    let rest = sock_blocking_copy k' chunks
    elim failure [ some e ↦ some (e, out) | none ↦ rest >>= (λ r. some (r.0, out ++ r.1)) ]
