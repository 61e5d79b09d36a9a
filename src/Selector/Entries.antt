-- ===== src/Selector/Entries.antt =====
-- Lists of optional entries, as the table of src/server/selector.c.
use socks_v5_proxy.Prelude.{
  length, get_elem?, set, take, replicate, ℕ, zero, suc, ◌≤◌, ◌<◌, ◌≡◌, refl, ◌≢◌, ◌⊎◌, inl, inr,
  Option, none, some, List, [], ◌∷◌, ◌++◌, arith,
}

pub get_elem-set :
    {A : Type 0} (xs : List A) (i j : ℕ) (v : A)
    → ((i ≡ j) × (i < length xs) × (get_elem? (set xs i v) j ≡ some v))
      ⊎ (get_elem? (set xs i v) j ≡ get_elem? xs j) × ((i ≢ j) ⊎ (length xs ≤ i))
get_elem-set [] i j v = inr (refl, inr (omega arith))
get_elem-set (x ∷ xs) zero zero v = inl (refl, omega arith, refl)
get_elem-set (x ∷ xs) zero (suc j) v = inr (refl, inl (λ e. omega arith))
get_elem-set (x ∷ xs) (suc i) zero v = inr (refl, inl (λ e. omega arith))
get_elem-set (x ∷ xs) (suc i) (suc j) v = elim (get_elem-set xs i j v) [
  | inl (e, l, q) ↦ inl (omega arith, omega arith, q)
  | inr (q, inl n) ↦ inr (q, inl (λ e. n (omega arith)))
  | inr (q, inr l) ↦ inr (q, inr (omega arith))
]

-- The entries behind the old ones of a table that has grown are unused.
pub get_elem-append_unused :
    {A : Type 0} (xs : List (Option A)) (n i : ℕ) {a : A}
    → get_elem? (xs ++ replicate n none) i ≡ some (some a)
    → get_elem? xs i ≡ some (some a)
get_elem-append_unused [] zero i h = cc
get_elem-append_unused [] (suc n) zero h = cc
get_elem-append_unused [] (suc n) (suc i) h = get_elem-append_unused [] n i h
get_elem-append_unused (x ∷ xs) n zero h = h
get_elem-append_unused (x ∷ xs) n (suc i) h = get_elem-append_unused xs n i h

pub get_elem-inside :
    {A : Type 0} (xs : List A) (i : ℕ) {a : A} → get_elem? xs i ≡ some a → i < length xs
get_elem-inside [] i h = cc
get_elem-inside (x ∷ xs) zero h = omega arith
get_elem-inside (x ∷ xs) (suc i) h = let ih = get_elem-inside xs i h in omega arith

pub get_elem-set_here :
    {A : Type 0} (xs : List A) (i : ℕ) (v : A) → i < length xs → get_elem? (set xs i v) i ≡ some v
get_elem-set_here [] i v h = absurd (omega arith)
get_elem-set_here (x ∷ xs) zero v h = refl
get_elem-set_here (x ∷ xs) (suc i) v h = get_elem-set_here xs i v (omega arith)

pub get_elem-take :
    {A : Type 0} (n : ℕ) (xs : List A) (i : ℕ) → i < n → get_elem? (take n xs) i ≡ get_elem? xs i
get_elem-take zero xs i h = absurd (omega arith)
get_elem-take (suc n) [] i h = refl
get_elem-take (suc n) (x ∷ xs) zero h = refl
get_elem-take (suc n) (x ∷ xs) (suc i) h = get_elem-take n xs i (omega arith)

pub entry-cases :
    {A : Type 0} (xs : List (Option A)) (i : ℕ)
    → i < length xs
    → (get_elem? xs i ≡ some none) ⊎ ((a : A) × (get_elem? xs i ≡ some (some a)))
entry-cases [] i h = absurd (omega arith)
entry-cases (none ∷ xs) zero h = inl refl
entry-cases (some a ∷ xs) zero h = inr (a, refl)
entry-cases (x ∷ xs) (suc i) h = entry-cases xs i (omega arith)
