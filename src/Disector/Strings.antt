-- ===== src/Disector/Strings.antt =====
-- Zero-terminated strings in the memory of src/server/disector.c.

use socks_v5_proxy.Prelude.{
  length, set, drop, length-append, length-drop, overwrite, length-overwrite, overwrite-cons,
  overwrite-front, c_string, NonZero, c_string-append, c_string-front, ℕ, zero, suc, ◌+◌, ◌-◌, ◌≤◌,
  ◌<◌, ◌≡◌, refl, ap, ◌∙◌, List, [], ◌∷◌, ◌++◌, append_assoc, arith,
}

set-set : (mem : List ℕ) (k c d : ℕ) → set (set mem k c) k d ≡ set mem k d
set-set [] k c d = refl
set-set (y ∷ mem) zero c d = refl
set-set (y ∷ mem) (suc k) c d = ap (λ r. y ∷ r) (set-set mem k c d)

-- Storing 0 over the last byte of a run of stores.
pub set-overwrite_last :
    (mem : List ℕ) (k : ℕ) (xs : List ℕ) (c i : ℕ)
    → i ≡ k + length xs
    → set (overwrite mem k (xs ++ c ∷ [])) i 0 ≡ overwrite mem k (xs ++ 0 ∷ [])
unfolding overwrite
set-overwrite_last mem k [] c i e = let e' : i ≡ k = omega arith in rw e' (set-set mem k c 0)
set-overwrite_last mem k (x ∷ xs) c i e =
    set-overwrite_last (set mem k x) (suc k) xs c i (omega arith)

-- A run of stores behind a prefix leaves the prefix.
pub overwrite-behind :
    (xs tail : List ℕ) (off k : ℕ) (ys : List ℕ)
    → off ≡ length xs + k
    → overwrite (xs ++ tail) off ys ≡ xs ++ overwrite tail k ys
overwrite-behind [] tail off k ys e = let e' : off ≡ k = omega arith in rw e'
overwrite-behind (x ∷ xs) tail zero k ys e = absurd (omega arith)
overwrite-behind (x ∷ xs) tail (suc off) k ys e =
    overwrite-cons x (xs ++ tail) off ys
    ∙ ap (λ r. x ∷ r) (overwrite-behind xs tail off k ys (omega arith))

-- What stands from the offset of a run of stores on.
pub drop-overwrite :
    (off : ℕ) (mem ys : List ℕ)
    → off ≤ length mem
    → drop off (overwrite mem off ys) ≡ overwrite (drop off mem) 0 ys
drop-overwrite zero mem ys h = refl
drop-overwrite (suc off) [] ys h = absurd (omega arith)
drop-overwrite (suc off) (m ∷ mem) ys h =
    ap (drop (suc off)) (overwrite-cons m mem off ys) ∙ drop-overwrite off mem ys (omega arith)

-- Two strings stored one after the other, the second from 255 on: each is read back.
pub c_string-pair :
    (mem u w : List ℕ)
    → length mem ≡ 513
    → NonZero u
    → NonZero w
    → length u < 255
    → length w < 255
    → let m = overwrite (overwrite mem 0 (u ++ 0 ∷ [])) 255 (w ++ 0 ∷ []) in
      (c_string m ≡ u) × (c_string (drop 255 m) ≡ w)
c_string-pair mem u w size nu nw lu lw =
    let n : length (u ++ 0 ∷ []) ≡ suc (length u) = omega (arith, length-append {0} u (0 ∷ [])) in
    let m1 = overwrite mem 0 (u ++ 0 ∷ []) in
    let tail = drop (length (u ++ 0 ∷ [])) mem in
    let k : ℕ = 255 - length (u ++ 0 ∷ []) in
    (
      ap (λ m. c_string (overwrite m 255 (w ++ 0 ∷ [])))
            (overwrite-front mem (u ++ 0 ∷ []) (omega arith))
          ∙ ap c_string (
              overwrite-behind (u ++ 0 ∷ []) tail 255 k (w ++ 0 ∷ []) (omega arith)
              ∙ append_assoc u (0 ∷ []) (overwrite tail k (w ++ 0 ∷ [])))
          ∙ c_string-append u _ nu,
      ap c_string (
            drop-overwrite 255 m1 (w ++ 0 ∷ [])
              (omega (arith, length-overwrite mem 0 (u ++ 0 ∷ []))))
          ∙ c_string-front (drop 255 m1) w nw
              (omega (arith, length-drop 255 m1, length-overwrite mem 0 (u ++ 0 ∷ []))),
    )
