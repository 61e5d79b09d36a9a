-- ===== src/CommandLine/Ports.antt =====
-- src/client/clientargs.c, src/server/args.c: the ports that `port` accepts.
use socks_v5_proxy.Prelude.{
  ltb, ltb→lt, Bool-cases, length, All, pos, ℕ, suc, ◌+◌, ◌-◌, ◌*◌, ◌^◌, ◌≤◌, ◌<◌, min, ◌≡◌, refl,
  ap, ◌∙◌, ◌⊎◌, inl, inr, true, false, none, some, List, [], ◌∷◌, arith,
}
use native.Mathlib.Omega.{pow_step}
use socks_v5_proxy.CommandLine.{
  is_digit, skip_spaces, strtol_sign, strtol_digits, long_max, clamped, strtol_body, strtol,
  port_of, port,
}

abbrev pub IsDigit : ℕ → Type 0
IsDigit c = is_digit c ≡ true

-- The number that a string of decimal digits denotes, by the place of each digit.
unfoldable pub denoted : List ℕ → ℕ
denoted [] = 0
denoted (d ∷ ds) = (d - b'0') * 10 ^ length ds + denoted ds

distributed : (v d p n : ℕ) → (v * 10 + d) * p + n ≡ v * (10 * p) + (d * p + n)
distributed v d p n = grind arith

places : (v d k n : ℕ) → (v * 10 + d) * 10 ^ k + n ≡ v * 10 ^ suc k + (d * 10 ^ k + n)
places v d k n = rw (pow_step 10 k) (distributed v d (10 ^ k) n)

strtol_digits-denoted :
    (v : ℕ) (ds : List ℕ)
    → All IsDigit ds
    → strtol_digits v ds ≡ (v * 10 ^ length ds + denoted ds, [])
unfolding strtol_digits denoted
strtol_digits-denoted v [] h = ap (λ n. (n, [])) (omega arith)
strtol_digits-denoted v (d ∷ ds) h = rw (let e : is_digit d ≡ true = h.0 in e) (
    strtol_digits-denoted (v * 10 + (d - b'0')) ds h.1
    ∙ ap (λ n. (n, [])) (places v (d - b'0') (length ds) (denoted ds)))

skip_spaces-digit : (d : ℕ) (ds : List ℕ) → IsDigit d → skip_spaces (d ∷ ds) ≡ d ∷ ds
unfolding skip_spaces
skip_spaces-digit d ds h = ground arith

strtol_sign-digit : (d : ℕ) (ds : List ℕ) → IsDigit d → strtol_sign (d ∷ ds) ≡ (false, d ∷ ds)
unfolding strtol_sign
strtol_sign-digit d ds h = ground arith

strtol-denoted :
    (d : ℕ) (ds : List ℕ)
    → All IsDigit (d ∷ ds)
    → strtol (d ∷ ds) ≡ some (pos (min (denoted (d ∷ ds)) long_max), [])
unfolding strtol strtol_body
strtol-denoted d ds h =
    let digit : is_digit d ≡ true = h.0 in
    ap (λ t. strtol_body (strtol_sign t)) (skip_spaces-digit d ds h.0)
    ∙ ap strtol_body (strtol_sign-digit d ds h.0)
    ∙ rw digit (
        ap (λ r. some (clamped false r.0, r.1))
          (strtol_digits-denoted 0 (d ∷ ds) h ∙ ap (λ n. (n, [])) (omega arith)))

-- A word of decimal digits, at least one, is a port exactly if the number that it denotes is at most
-- 65535, and then the port is that number. The empty word is no port.
pub port-denoted :
    (ds : List ℕ)
    → All IsDigit ds
    → ((0 < length ds) × (denoted ds ≤ 65535) × (port ds ≡ some (denoted ds)))
      ⊎ (((length ds ≡ 0) ⊎ (65535 < denoted ds)) × (port ds ≡ none))
unfolding port strtol strtol_body strtol_sign skip_spaces
port-denoted [] h = inr (inl refl, refl)
port-denoted (d ∷ ds) h =
    let e : port (d ∷ ds) ≡ port_of (pos (min (denoted (d ∷ ds)) long_max), []) =
      rw (strtol-denoted d ds h) refl in
    elim (Bool-cases (ltb 65535 (denoted (d ∷ ds)))) [
      | inl over ↦ inr (inr (ltb→lt 65535 _ over), e ∙ ground arith)
      | inr under ↦ inl (omega arith, ground arith, e ∙ ground arith)
    ]
