-- ===== src/Consume/Invariant.antt =====
-- An invariant of a parser's step holds at the end of every parse.
use socks_v5_proxy.Prelude.{Bool-cases, All, IsByte, ℕ, inl, inr, Bool, ◌||◌, List, [], ◌∷◌}
use socks_v5_proxy.Consume.{parse}

module _ {P S : Type 0} (feed : P → ℕ → P) (state : P → S) (is_done is_error : S → Bool) where
  pub parse-Invariant :
      (I : P → Type 0)
      → ((p : P) (c : ℕ) → IsByte c → I p → I (feed p c))
      → (p : P) (e : Bool) (cs : List ℕ) → All IsByte cs
      → I p
      → I (parse feed state is_done is_error p e cs).0
  unfolding parse
  parse-Invariant I keep p e [] a h = h
  parse-Invariant I keep p e (c ∷ cs) a h = elim (Bool-cases (is_done (state (feed p c)))) [
    | inl d ↦ rw d (keep p c a.0 h)
    | inr d ↦ rw d (
        parse-Invariant I keep (feed p c) (e || is_error (state (feed p c))) cs a.1
          (keep p c a.0 h))
  ]
