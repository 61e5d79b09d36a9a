-- ===== src/CommandLine.antt =====
-- src/client/clientargs.c, src/server/args.c: what both programs make of a word of their command line.
-- `getopt` is outside the model: its results are given as a list, with the words that it leaves. A
-- string is the list of its bytes without the terminator; `none` is a call of `exit`.
pub mod Ports
use socks_v5_proxy.Prelude.{
  ltb, leb, ◌==◌, if◌then◌else◌, ℤ, pos, negsuc, ◌>>=◌, ℕ, zero, suc, ◌+◌, ◌-◌, ◌*◌, min, Bool,
  true, false, ◌&&◌, ◌||◌, Option, none, some, List, [], ◌∷◌,
}

-- What one call of `getopt` returns, with `optarg`.
pub record Opt : Type 0 where
  pub letter : ℕ
  pub optarg : List ℕ

-- The results up to the -1, and what `argv` holds from `optind` on when the loop ends.
pub record CommandLine : Type 0 where
  pub options : List Opt
  pub operands : List (List ℕ)

-- `strchr(s, c)`, as an index.
unfoldable pub strchr : List ℕ → ℕ → Option ℕ
strchr [] c = none
strchr (x ∷ xs) c = if x == c then some 0 else strchr xs c >>= (λ i. some (suc i))

abbrev pub is_digit : ℕ → Bool
is_digit c = leb b'0' c && leb c b'9'

-- `isspace` in the C locale.
abbrev pub is_space : ℕ → Bool
is_space c = (c == 32) || (leb 9 c && leb c 13)

unfoldable pub skip_spaces : List ℕ → List ℕ
skip_spaces [] = []
skip_spaces (c ∷ cs) = if is_space c then skip_spaces cs else c ∷ cs

-- The sign and what follows it.
unfoldable pub strtol_sign : List ℕ → Bool × List ℕ
strtol_sign [] = (false, [])
strtol_sign (c ∷ cs) =
    if c == b'-' then (true, cs) else if c == b'+' then (false, cs) else (false, c ∷ cs)

-- The value of the digits, from the one that has been read, and what follows them.
unfoldable pub strtol_digits : ℕ → List ℕ → ℕ × List ℕ
strtol_digits v [] = (v, [])
strtol_digits v (c ∷ cs) =
    if is_digit c then strtol_digits (v * 10 + (c - b'0')) cs else (v, c ∷ cs)

abbrev pub long_max : ℕ
long_max = 9223372036854775807

-- A value that a `long` of 64 bits cannot hold is the nearest that it can.
abbrev pub clamped : Bool → ℕ → ℤ
clamped false v = pos (min v long_max)
clamped true zero = pos 0
clamped true (suc v) = negsuc (min v long_max)

-- The digits behind a sign. Without any, `end` is the start of the string: `none`.
unfoldable pub strtol_body : Bool × List ℕ → Option (ℤ × List ℕ)
strtol_body (negative, []) = none
strtol_body (negative, c ∷ cs) =
    if is_digit c
    then (let (v, end) = strtol_digits 0 (c ∷ cs) in some (clamped negative v, end))
    else none

-- `strtol(s, &end, 10)`: the value and the string at `end`.
unfoldable pub strtol : List ℕ → Option (ℤ × List ℕ)
strtol s = strtol_body (strtol_sign (skip_spaces s))

-- The tests on the result. `errno` matters only for values that are out of range for a port as well.
abbrev pub port_of : ℤ × List ℕ → Option ℕ
port_of (pos v, []) = if ltb 65535 v then none else some v
port_of (negsuc v, []) = none
port_of (v, c ∷ cs) = none

unfoldable pub port : List ℕ → Option ℕ
port s = do r ← strtol s; port_of r
