-- ===== src/Buffer.antt =====
-- src/server/buffer.c: the byte buffer with a read and a write pointer.
-- A pointer is its offset from `data`, so `read`, `write` and `limit` are numbers, and the storage
-- that `data` points to is the list `bytes`. A failed `assert` is `none`.
pub mod Queue
pub mod Stores
use socks_v5_proxy.Prelude.{
  ltb, leb, ◌==◌, if◌then◌else◌, length, get_or, set, overwrite, window, ℤ, pos, negsuc, ◌>>=◌, ℕ,
  ◌+◌, ◌-◌, ◌≤◌, Bool, Option, none, some, List, [], ◌∷◌,
}

pub record Buffer : Type 0 where
  pub bytes : List ℕ
  pub limit : ℕ
  pub read : ℕ
  pub write : ℕ

unfoldable pub buffer_reset : Buffer → Buffer
buffer_reset b = record b { read = 0; write = 0 }

-- The storage is `n` bytes that the caller owns, with any contents.
unfoldable pub buffer_init : ℕ → List ℕ → Buffer
buffer_init n storage = record { bytes = storage; limit = n; read = 0; write = 0 }

unfoldable pub buffer_can_write : Buffer → Bool
buffer_can_write b = ltb b.write b.limit

-- The offset to write at, and the count that `*nbyte` takes.
unfoldable pub buffer_write_ptr : Buffer → Option (ℕ × ℕ)
buffer_write_ptr b = if leb b.write b.limit then some (b.write, b.limit - b.write) else none

unfoldable pub buffer_can_read : Buffer → Bool
buffer_can_read b = ltb b.read b.write

unfoldable pub buffer_read_ptr : Buffer → Option (ℕ × ℕ)
buffer_read_ptr b = if leb b.read b.write then some (b.read, b.write - b.read) else none

unfoldable pub buffer_write_adv : Buffer → ℤ → Option Buffer
buffer_write_adv b (negsuc n) = some b
buffer_write_adv b (pos n) =
    if leb (b.write + n) b.limit then some (record b { write = b.write + n }) else none

unfoldable pub buffer_compact : Buffer → Buffer
buffer_compact b =
    if b.read == 0
    then b
    else if b.read == b.write
    then record b { read = 0; write = 0 }
    else record b {
      bytes = overwrite b.bytes 0 (window b.read (b.write - b.read) b.bytes);
      read = 0;
      write = b.write - b.read;
    }

unfoldable pub buffer_read_adv : Buffer → ℤ → Option Buffer
unfolding buffer_compact
buffer_read_adv b (negsuc n) = some b
buffer_read_adv b (pos n) =
    let b' : Buffer = record b { read = b.read + n } in
    if leb b'.read b'.write
    then some (if b'.read == b'.write then buffer_compact b' else b')
    else none

unfoldable pub buffer_read : Buffer → Option (ℕ × Buffer)
unfolding buffer_can_read buffer_read_adv
buffer_read b =
    if buffer_can_read b
    then elim (buffer_read_adv b (pos 1)) [
      | none ↦ none
      | some b' ↦ some (get_or b.bytes b.read 0, b')
    ]
    else some (0, b)

unfoldable pub buffer_write : Buffer → ℕ → Option Buffer
unfolding buffer_can_write buffer_write_adv
buffer_write b c =
    if buffer_can_write b
    then buffer_write_adv (record b { bytes = set b.bytes b.write c }) (pos 1)
    else some b

-- Several calls of `buffer_write` in a row.
unfoldable pub buffer_writes : Buffer → List ℕ → Option Buffer
buffer_writes b [] = some b
buffer_writes b (c ∷ cs) = buffer_write b c >>= λ b'. buffer_writes b' cs

-- What a caller does through the pointer of `buffer_write_ptr` before it advances: bytes stored
-- from the write pointer on, and nothing else changed.
unfoldable pub buffer_fill : Buffer → List ℕ → Buffer
buffer_fill b xs = record b { bytes = overwrite b.bytes b.write xs }

-- The order of the pointers, inside the storage.
pub record IsValid (b : Buffer) : Type 0 where
  pub ordered : b.read ≤ b.write
  pub bounded : b.write ≤ b.limit
  pub stored : b.limit ≤ length b.bytes

-- What is queued: the bytes between the two pointers, oldest first.
abbrev pub contents : Buffer → List ℕ
contents b = window b.read (b.write - b.read) b.bytes

-- The bytes that can be written before the next compaction.
abbrev pub room : Buffer → ℕ
room b = b.limit - b.write
