-- ===== src/Prelude/Pair.antt =====
-- The union of the administration protocol when it holds two strings: 256 bytes for each.
use Prim.Native.Nat.{ℕ, zero, suc, ◌+◌, ◌-◌, ◌≤◌, ◌<◌}
use mathlib.Core.Path.{◌≡◌, refl, sym, ap, ◌∙◌}
use mathlib.Core.List.{List, [], ◌∷◌, ◌++◌, append-nil, append_assoc}
use native.Mathlib.Omega.{arith}
use socks_v5_proxy.Prelude.Lists.{
  length, get_or, set, drop, replicate, length-append, length-replicate, drop-length-append,
}
use socks_v5_proxy.Prelude.Memory.{
  overwrite, overwrite-replicate, overwrite-past, set-past, overwrite-within, set-replicate,
  replicate-append,
}
use socks_v5_proxy.Prelude.CString.{c_string, NonZero, c_string-append}

-- A string with the zeros behind it.
abbrev pub padded : List ℕ → List ℕ
padded s = s ++ replicate (256 - length s) 0

unfoldable pub two_strings : List ℕ → List ℕ → List ℕ
two_strings a b = padded a ++ padded b

pub length-padded : (s : List ℕ) → length s ≤ 256 → length (padded s) ≡ 256
length-padded s h = omega (
  arith,
  length-append s (replicate (256 - length s) 0),
  length-replicate {A = ℕ} (256 - length s) 0,
)

c_string-padded : (s tail : List ℕ) → NonZero s → length s < 256 → c_string (padded s ++ tail) ≡ s
c_string-padded s tail nz h =
    let k : 256 - length s ≡ suc (255 - length s) = omega arith in
    ap (λ n. c_string ((s ++ replicate n 0) ++ tail)) k
    ∙ ap c_string (append_assoc s (replicate (suc (255 - length s)) 0) tail)
    ∙ c_string-append s (replicate (255 - length s) 0 ++ tail) nz

-- Each is read back.
pub c_string-two_strings :
    (a b : List ℕ)
    → NonZero a
    → NonZero b
    → length a < 256
    → length b < 256
    → (c_string (two_strings a b) ≡ a) × (c_string (drop 256 (two_strings a b)) ≡ b)
unfolding two_strings
c_string-two_strings a b na nb la lb =
    let whole : drop 256 (padded a ++ padded b) ≡ padded b =
      ap (λ n. drop n (padded a ++ padded b)) (sym (length-padded a (omega arith)))
      ∙ drop-length-append (padded a) (padded b) in
    (
      c_string-padded a (padded b) na la,
      ap c_string whole ∙ ap c_string (sym (append-nil (padded b))) ∙ c_string-padded b [] nb lb,
    )

-- A zero stored among the zeros.
pub set-padded : (s : List ℕ) (k : ℕ) → length s ≤ k → set (padded s) k 0 ≡ padded s
set-padded s k h =
    set-past s (replicate (256 - length s) 0) (k - length s) k 0 (omega arith)
    ∙ ap (λ r. s ++ r) (set-replicate (256 - length s) (k - length s) 0)

-- The first string, and the second behind it.
pub overwrite-first :
    (a : List ℕ) → length a ≤ 256 → overwrite (replicate 512 0) 0 a ≡ padded a ++ replicate 256 0
overwrite-first a h =
    ap (λ m. overwrite m 0 a) (replicate-append 256 256 512 0 refl)
    ∙ overwrite-within (replicate 256 0) (replicate 256 0) a 0
        (omega (arith, length-replicate {A = ℕ} 256 0))
    ∙ ap (λ m. m ++ replicate 256 0) (overwrite-replicate 256 a h)

pub overwrite-second :
    (a b : List ℕ)
    → length a ≤ 256
    → length b ≤ 256
    → overwrite (padded a ++ replicate 256 0) 256 b ≡ two_strings a b
unfolding two_strings
overwrite-second a b h l =
    overwrite-past (padded a) (replicate 256 0) b 0 256 (omega (arith, length-padded a h))
    ∙ ap (λ m. padded a ++ m) (overwrite-replicate 256 b l)

-- With a terminator the memory is the same.
pub padded-terminated : (a : List ℕ) → length a < 256 → padded (a ++ 0 ∷ []) ≡ padded a
padded-terminated a h =
    let n : 256 - length (a ++ 0 ∷ []) ≡ 255 - length a = omega (arith, length-append a (0 ∷ [])) in
    let k : suc (255 - length a) ≡ 256 - length a = omega arith in
    ap (λ i. (a ++ 0 ∷ []) ++ replicate i 0) n
    ∙ append_assoc a (0 ∷ []) (replicate (255 - length a) 0)
    ∙ ap (λ i. a ++ replicate i 0) k

-- A zero behind the second string changes nothing.
pub set-two_strings :
    (a b : List ℕ) (k : ℕ)
    → length a ≤ 256
    → length b ≤ k
    → set (two_strings a b) (256 + k) 0 ≡ two_strings a b
unfolding two_strings
set-two_strings a b k h l =
    set-past (padded a) (padded b) k (256 + k) 0 (omega (arith, length-padded a h))
    ∙ ap (λ m. padded a ++ m) (set-padded b k l)

get_or-past :
    (xs ys : List ℕ) (k n d : ℕ) → n ≡ length xs + k → get_or (xs ++ ys) n d ≡ get_or ys k d
get_or-past [] ys k n d e = ap (λ i. get_or ys i d) (omega arith)
get_or-past (x ∷ xs) ys k zero d e = absurd (omega arith)
get_or-past (x ∷ xs) ys k (suc n) d e = get_or-past xs ys k n d (omega arith)

get_or-replicate : (n k : ℕ) (ys : List ℕ) → k < n → get_or (replicate n 0 ++ ys) k 0 ≡ 0
get_or-replicate zero k ys h = absurd (omega arith)
get_or-replicate (suc n) zero ys h = refl
get_or-replicate (suc n) (suc k) ys h = get_or-replicate n k ys (omega arith)

-- The byte between the two.
pub get_or-two_strings : (a b : List ℕ) → length a ≤ 255 → get_or (two_strings a b) 255 0 ≡ 0
unfolding two_strings
get_or-two_strings a b h =
    ap (λ m. get_or m 255 0) (append_assoc a (replicate (256 - length a) 0) (padded b))
    ∙ get_or-past a (replicate (256 - length a) 0 ++ padded b) (255 - length a) 255 0 (omega arith)
    ∙ get_or-replicate (256 - length a) (255 - length a) (padded b) (omega arith)
