-- ===== src/Prelude/CString.antt =====
-- Predicates on every element of a list, and zero-terminated strings.
use Prim.Native.Nat.{ℕ, zero, suc, ◌-◌, ◌≤◌, ◌<◌}
use mathlib.Core.Path.{◌≡◌, refl, ap, ◌∙◌}
use mathlib.Core.Logic.{◌≢◌}
use mathlib.Core.Bool.{Bool, true, false, ◌&&◌}
use mathlib.Core.List.{List, [], ◌∷◌, ◌++◌, append-nil, append_assoc}
use native.Mathlib.Omega.{arith}
use socks_v5_proxy.Prelude.Tests.{◌==◌, if◌then◌else◌}
use socks_v5_proxy.Prelude.Memory.{overwrite, overwrite-front}
use socks_v5_proxy.Prelude.Lists.{
  length, take, drop, replicate, length-append, length-take, length-replicate,
}

-- Every element satisfies the predicate.
abbrev pub All {ℓ κ} : {A : Type ℓ} → (A → Type κ) → List A → Type κ
All P [] = Unit
All P (x ∷ xs) = P x × All P xs

pub All-append {ℓ κ} :
    {A : Type ℓ} (P : A → Type κ) (xs ys : List A) → All P xs → All P ys → All P (xs ++ ys)
All-append P [] ys h k = k
All-append P (x ∷ xs) ys h k = (h.0, All-append P xs ys h.1 k)

abbrev pub IsByte : ℕ → Type 0
IsByte c = c < 256

-- The string that starts a memory: its bytes up to the first 0, or all of them.
unfoldable pub c_string : List ℕ → List ℕ
c_string [] = []
c_string (x ∷ xs) = if x == 0 then [] else x ∷ c_string xs

abbrev pub NonZero : List ℕ → Type 0
NonZero = All (λ c. c ≢ 0)

pub c_string-append : (xs tail : List ℕ) → NonZero xs → c_string (xs ++ 0 ∷ tail) ≡ xs
unfolding c_string
c_string-append [] tail h = refl
c_string-append (x ∷ xs) tail h = ground (arith, c_string-append xs tail h.1)

-- A string with no terminator runs on into what stands behind it.
pub c_string-run_on : (xs ys : List ℕ) → NonZero xs → c_string (xs ++ ys) ≡ xs ++ c_string ys
unfolding c_string
c_string-run_on [] ys h = refl
c_string-run_on (x ∷ xs) ys h = ground (arith, c_string-run_on xs ys h.1)

-- `strncpy(dst, s, n)` over an array of n bytes, for the string whose bytes are `s`.
unfoldable pub strncpy : ℕ → List ℕ → List ℕ
strncpy n s = take n s ++ replicate (n - length s) 0

pub length-strncpy : (n : ℕ) (s : List ℕ) → length (strncpy n s) ≡ n
unfolding strncpy
length-strncpy n s = omega (
  arith,
  length-append {0} (take n s) (replicate (n - length s) 0),
  length-take {0} n s,
  length-replicate {A = ℕ} (n - length s) 0,
)

pub take-all : (n : ℕ) (s : List ℕ) → length s ≤ n → take n s ≡ s
take-all zero [] h = refl
take-all zero (x ∷ s) h = absurd (omega arith)
take-all (suc n) [] h = refl
take-all (suc n) (x ∷ s) h = ap (λ r. x ∷ r) (take-all n s (omega arith))

-- A string that leaves room for its terminator is read back, whatever stands behind the array.
pub c_string-strncpy :
    (n : ℕ) (s tail : List ℕ) → NonZero s → length s < n → c_string (strncpy n s ++ tail) ≡ s
unfolding strncpy
c_string-strncpy n s tail h l =
    let k : n - length s ≡ suc (n - length s - 1) = omega arith in
    ap (λ m. c_string ((take n s ++ replicate m 0) ++ tail)) k
    ∙ ap (λ t. c_string ((t ++ replicate (suc (n - length s - 1)) 0) ++ tail))
        (take-all n s (omega arith))
    ∙ ap c_string (append_assoc s (replicate (suc (n - length s - 1)) 0) tail)
    ∙ c_string-append s (replicate (n - length s - 1) 0 ++ tail) h

-- A string that fills the array leaves no terminator.
pub strncpy-full : (n : ℕ) (s : List ℕ) → length s ≡ n → strncpy n s ≡ s
unfolding strncpy
strncpy-full n s e =
    let z : n - length s ≡ 0 = omega arith in
    ap (λ m. take n s ++ replicate m 0) z ∙ append-nil (take n s) ∙ take-all n s (omega arith)

-- `strcmp(a, b) == 0`, on the bytes of two strings.
unfoldable pub bytes_eq : List ℕ → List ℕ → Bool
bytes_eq [] [] = true
bytes_eq [] (y ∷ ys) = false
bytes_eq (x ∷ xs) [] = false
bytes_eq (x ∷ xs) (y ∷ ys) = x == y && bytes_eq xs ys

pub bytes_eq_sound : (xs ys : List ℕ) → bytes_eq xs ys ≡ true → xs ≡ ys
unfolding bytes_eq
bytes_eq_sound [] [] h = refl
bytes_eq_sound [] (y ∷ ys) h = cc
bytes_eq_sound (x ∷ xs) [] h = cc
bytes_eq_sound (x ∷ xs) (y ∷ ys) h = ground (arith, bytes_eq_sound xs ys)

pub bytes_eq_refl : (xs : List ℕ) → bytes_eq xs xs ≡ true
unfolding bytes_eq
bytes_eq_refl [] = refl
bytes_eq_refl (x ∷ xs) = ground (arith, bytes_eq_refl xs)

-- A string with its terminator, stored at the front of a memory.
pub c_string-front :
    (mem xs : List ℕ)
    → NonZero xs
    → length xs < length mem
    → c_string (overwrite mem 0 (xs ++ 0 ∷ [])) ≡ xs
c_string-front mem xs nz l =
    ap c_string (
      overwrite-front mem (xs ++ 0 ∷ []) (omega (arith, length-append {0} xs (0 ∷ [])))
      ∙ append_assoc xs (0 ∷ []) (drop (length (xs ++ 0 ∷ [])) mem))
    ∙ c_string-append xs _ nz
