-- ===== src/Prelude/Machine.antt =====
-- The C types that the sources count with: the wrap of `uint8_t`, `uint16_t` and `uint32_t`, and
-- the signed results of system calls and of the functions that return -1.
use Prim.Native.Nat.{ℕ, ◌%◌}

abbrev pub u8 : ℕ → ℕ
u8 n = n % 256

abbrev pub u16 : ℕ → ℕ
u16 n = n % 65536

abbrev pub u32 : ℕ → ℕ
u32 n = n % 4294967296

-- `int` and `ssize_t`; `negsuc n` is -(n + 1).
pub data ℤ : Type 0 where
  pos : ℕ → ℤ
  negsuc : ℕ → ℤ
