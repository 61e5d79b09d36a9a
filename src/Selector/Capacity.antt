-- ===== src/Selector/Capacity.antt =====
-- src/server/selector.c: `next_capacity`.
use socks_v5_proxy.Prelude.{
  ltb, ◌==◌, if◌then◌else◌, ltb→lt, Bool-cases, ℕ, zero, suc, ◌<◌, ◌≡◌, refl, inl, inr, Bool, true,
  false, arith,
}
use socks_v5_proxy.Selector.{items_max_size, bit_count, next_capacity}

all_below : ℕ → (ℕ → Bool) → Bool
all_below zero test = true
all_below (suc n) test = let rest = all_below n test in if test n then rest else false

all_below-test : (n i : ℕ) (test : ℕ → Bool) → all_below n test ≡ true → i < n → test i ≡ true
unfolding all_below
all_below-test zero i test h l = absurd (omega arith)
all_below-test (suc n) i test h l = elim (Bool-cases (test n)) [
  | inr e ↦ cc (rw (e, all_below) at h)
  | inl e ↦ elim (Bool-cases (i == n)) [
    | inl same ↦ let q : i ≡ n = ground arith in rw q e
    | inr other ↦ all_below-test n i test (rw (e, all_below) at h) (ground arith)
  ]
]

checked : all_below 1024 (λ n. ltb n (next_capacity n)) ≡ true
unfolding all_below next_capacity bit_count
checked = refl

-- A table grown for a descriptor has room for it.
pub next_capacity-room : (n : ℕ) → n < items_max_size → n < next_capacity n
next_capacity-room n h =
    ltb→lt n (next_capacity n) (all_below-test 1024 n (λ k. ltb k (next_capacity k)) checked h)
