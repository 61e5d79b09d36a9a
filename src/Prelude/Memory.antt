-- ===== src/Prelude/Memory.antt =====
-- A C array as a list of bytes: a run of stores, and the window that a pair of pointers delimits.
use Prim.Native.Nat.{ℕ, zero, suc, ◌+◌, ◌-◌, ◌≤◌, ◌<◌}
use mathlib.Core.Path.{◌≡◌, refl, ap, ◌∙◌}
use mathlib.Core.List.{List, [], ◌∷◌, ◌++◌, append-nil, append_assoc}
use native.Mathlib.Omega.{arith}
use socks_v5_proxy.Prelude.Lists.{
  length, set, take, drop, replicate, length-set, length-take, length-drop, take-set_end,
}

-- Stores the bytes one after another from an offset on.
unfoldable pub overwrite : List ℕ → ℕ → List ℕ → List ℕ
overwrite mem off [] = mem
overwrite mem off (x ∷ xs) = overwrite (set mem off x) (suc off) xs

-- The `n` bytes from offset `k` on.
abbrev pub window : ℕ → ℕ → List ℕ → List ℕ
window k n mem = take n (drop k mem)

pub length-overwrite :
    (mem : List ℕ) (off : ℕ) (xs : List ℕ) → length (overwrite mem off xs) ≡ length mem
unfolding overwrite
length-overwrite mem off [] = refl
length-overwrite mem off (x ∷ xs) =
    length-overwrite (set mem off x) (suc off) xs ∙ length-set mem off x

pub length-window : (k n : ℕ) (mem : List ℕ) → k + n ≤ length mem → length (window k n mem) ≡ n
length-window k n mem h = omega (arith, length-take n (drop k mem), length-drop k mem)

-- A store just past a window extends it by that byte.
pub window-set :
    (k n : ℕ) (mem : List ℕ) (x i : ℕ)
    → i ≡ k + n
    → i < length mem
    → window k (suc n) (set mem i x) ≡ window k n mem ++ x ∷ []
window-set k n [] x i e h = absurd (omega arith)
window-set zero n (y ∷ mem) x i e h =
    let e' : i ≡ n = omega arith in rw e' (take-set_end n (y ∷ mem) x (omega arith))
window-set (suc k) n (y ∷ mem) x zero e h = absurd (omega arith)
window-set (suc k) n (y ∷ mem) x (suc i) e h = window-set k n mem x i (omega arith) (omega arith)

-- A run of stores just past a window extends it by those bytes.
pub window-overwrite :
    (k n : ℕ) (mem : List ℕ) (i m : ℕ) (xs : List ℕ)
    → i ≡ k + n
    → m ≡ n + length xs
    → k + m ≤ length mem
    → window k m (overwrite mem i xs) ≡ window k n mem ++ xs
unfolding overwrite
window-overwrite k n mem i m [] e f h = let f' : m ≡ n = omega arith in rw (f', append-nil)
window-overwrite k n mem i m (x ∷ xs) e f h =
    window-overwrite k (suc n) (set mem i x) (suc i) m xs (omega arith) (omega arith)
      (omega (arith, length-set mem i x))
    ∙ ap (λ r. r ++ xs) (window-set k n mem x i e (omega arith))
    ∙ append_assoc (window k n mem) (x ∷ []) xs

pub overwrite-cons :
    (y : ℕ) (mem : List ℕ) (off : ℕ) (xs : List ℕ)
    → overwrite (y ∷ mem) (suc off) xs ≡ y ∷ overwrite mem off xs
unfolding overwrite
overwrite-cons y mem off [] = refl
overwrite-cons y mem off (x ∷ xs) = overwrite-cons y (set mem off x) (suc off) xs

-- Bytes stored at the front of a cleared array stand before the zeros that are left.
pub overwrite-replicate :
    (n : ℕ) (xs : List ℕ)
    → length xs ≤ n
    → overwrite (replicate n 0) 0 xs ≡ xs ++ replicate (n - length xs) 0
unfolding overwrite
overwrite-replicate n [] h = ap (λ k. replicate k 0) (omega arith)
overwrite-replicate zero (x ∷ xs) h = absurd (omega arith)
overwrite-replicate (suc n) (x ∷ xs) h =
    overwrite-cons x (replicate n 0) 0 xs
    ∙ ap (λ r. x ∷ r) (overwrite-replicate n xs (omega arith))
    ∙ ap (λ k. x ∷ (xs ++ replicate k 0)) (omega arith)

-- A run of stores at the front.
pub overwrite-front :
    (mem ys : List ℕ) → length ys ≤ length mem → overwrite mem 0 ys ≡ ys ++ drop (length ys) mem
unfolding overwrite
overwrite-front mem [] h = refl
overwrite-front [] (y ∷ ys) h = absurd (omega arith)
overwrite-front (m ∷ mem) (y ∷ ys) h =
    overwrite-cons y mem 0 ys ∙ ap (λ r. y ∷ r) (overwrite-front mem ys (omega arith))

-- Stores behind the bytes of a prefix.
pub overwrite-past :
    (xs ys zs : List ℕ) (k n : ℕ)
    → n ≡ length xs + k
    → overwrite (xs ++ ys) n zs ≡ xs ++ overwrite ys k zs
overwrite-past [] ys zs k n e = ap (λ i. overwrite ys i zs) (omega arith)
overwrite-past (x ∷ xs) ys zs k zero e = absurd (omega arith)
overwrite-past (x ∷ xs) ys zs k (suc n) e =
    overwrite-cons x (xs ++ ys) n zs ∙ ap (λ r. x ∷ r) (overwrite-past xs ys zs k n (omega arith))

pub set-past :
    (xs ys : List ℕ) (k n v : ℕ) → n ≡ length xs + k → set (xs ++ ys) n v ≡ xs ++ set ys k v
set-past [] ys k n v e = ap (λ i. set ys i v) (omega arith)
set-past (x ∷ xs) ys k zero v e = absurd (omega arith)
set-past (x ∷ xs) ys k (suc n) v e = ap (λ r. x ∷ r) (set-past xs ys k n v (omega arith))

-- A run of stores cut in two.
pub overwrite-split :
    (mem xs ys : List ℕ) (k n : ℕ)
    → n ≡ k + length xs
    → overwrite (overwrite mem k xs) n ys ≡ overwrite mem k (xs ++ ys)
unfolding overwrite
overwrite-split mem [] ys k n e = ap (λ i. overwrite mem i ys) (omega arith)
overwrite-split mem (x ∷ xs) ys k n e = overwrite-split (set mem k x) xs ys (suc k) n (omega arith)

-- Stores within a prefix.
pub set-within : (xs ys : List ℕ) (k v : ℕ) → k < length xs → set (xs ++ ys) k v ≡ set xs k v ++ ys
set-within [] ys k v h = absurd (omega arith)
set-within (x ∷ xs) ys zero v h = refl
set-within (x ∷ xs) ys (suc k) v h = ap (λ r. x ∷ r) (set-within xs ys k v (omega arith))

pub overwrite-within :
    (xs ys zs : List ℕ) (k : ℕ)
    → k + length zs ≤ length xs
    → overwrite (xs ++ ys) k zs ≡ overwrite xs k zs ++ ys
unfolding overwrite
overwrite-within xs ys [] k h = refl
overwrite-within xs ys (z ∷ zs) k h =
    ap (λ m. overwrite m (suc k) zs) (set-within xs ys k z (omega arith))
    ∙ overwrite-within (set xs k z) ys zs (suc k) (omega (arith, length-set xs k z))

pub set-replicate : (n k v : ℕ) → set (replicate n v) k v ≡ replicate n v
set-replicate zero k v = refl
set-replicate (suc n) zero v = refl
set-replicate (suc n) (suc k) v = ap (λ r. v ∷ r) (set-replicate n k v)

pub replicate-append : (m n k v : ℕ) → k ≡ m + n → replicate k v ≡ replicate m v ++ replicate n v
replicate-append zero n k v e = ap (λ i. replicate i v) (omega arith)
replicate-append (suc m) n zero v e = absurd (omega arith)
replicate-append (suc m) n (suc k) v e = ap (λ r. v ∷ r) (replicate-append m n k v (omega arith))
