-- ===== src/Netutils/Human/Text.antt =====
-- src/server/netutils.c: what the text of an address says.
use socks_v5_proxy.CommandLine.{port}
use socks_v5_proxy.Request.{Family, af_inet, af_inet6}
use socks_v5_proxy.Session.{Address}
use socks_v5_proxy.Prelude.{
  ltb, ltb→lt, lt→ltb, Bool-cases, length, set, drop, length-append, length-set, overwrite,
  length-overwrite, overwrite-front, overwrite-past, set-past, All, All-append, c_string, NonZero,
  c_string-append, take-all, ℕ, zero, suc, ◌+◌, ◌-◌, ◌*◌, ◌/◌, ◌%◌, ◌^◌, ◌≤◌, ◌<◌, ◌≡◌, refl, sym,
  ap, subst, ◌∙◌, ◌≢◌, ◌⊎◌, inl, inr, Option, some, List, [], ◌∷◌, ◌++◌, append_assoc, arith,
}
use socks_v5_proxy.CommandLine.Ports.{IsDigit, denoted}
use socks_v5_proxy.Netutils.Human.{
  port_number, decimal, int_digits, last_cleared, with_tab, with_port, with_host, sockaddr_text,
  sockaddr_to_human,
}
use native.Mathlib.Omega.{pow_step}

-- The array starts with the string.
pub record Holds (buff xs : List ℕ) : Type 0 where
  pub tail : List ℕ
  pub split : buff ≡ xs ++ 0 ∷ tail

pub Holds-c_string : {buff xs : List ℕ} → Holds buff xs → NonZero xs → c_string buff ≡ xs
Holds-c_string {buff} {xs} h nz = rw (h.split) (c_string-append xs h.tail nz)

Holds-overwrite :
    (buff ys : List ℕ) → length ys < length buff → Holds (overwrite buff 0 (ys ++ 0 ∷ [])) ys
Holds-overwrite buff ys l = record {
  tail = drop (length (ys ++ 0 ∷ [])) buff;
  split =
      overwrite-front buff (ys ++ 0 ∷ []) (omega (arith, length-append {0} ys (0 ∷ [])))
      ∙ append_assoc ys (0 ∷ []) (drop (length (ys ++ 0 ∷ [])) buff);
}

-- Bytes stored from the terminator on, with one of their own, go on with the string.
Holds-extended :
    {buff xs : List ℕ} (ys : List ℕ)
    → Holds buff xs
    → length xs + length ys < length buff
    → Holds (overwrite buff (length xs) (ys ++ 0 ∷ [])) (xs ++ ys)
Holds-extended {buff} {xs} ys h l =
    let rest = 0 ∷ h.tail in
    let room : length ys < length rest =
      omega (arith, ap length h.split, length-append {0} xs rest) in
    let stored = Holds-overwrite rest ys room in
    record {
      tail = stored.tail;
      split =
          ap (λ b. overwrite b (length xs) (ys ++ 0 ∷ [])) h.split
          ∙ overwrite-past xs rest (ys ++ 0 ∷ []) 0 (length xs) (omega arith)
          ∙ ap (λ t. xs ++ t) stored.split
          ∙ sym (append_assoc xs ys (0 ∷ stored.tail));
    }

set-terminator : (tail : List ℕ) (k : ℕ) → (rest : List ℕ) × (set (0 ∷ tail) k 0 ≡ 0 ∷ rest)
set-terminator tail zero = (tail, refl)
set-terminator tail (suc k) = (set tail k 0, refl)

Holds-last_cleared : {buff xs : List ℕ} → Holds buff xs → Holds (last_cleared buff) xs
Holds-last_cleared {buff} {xs} h =
    let last = length buff - 1 in
    let behind : length xs ≤ last =
      omega (arith, ap length h.split, length-append {0} xs (0 ∷ h.tail)) in
    let (rest, q) = set-terminator h.tail (last - length xs) in
    record {
      tail = rest;
      split =
          ap (λ b. set b last 0) h.split
          ∙ set-past xs (0 ∷ h.tail) (last - length xs) last 0 (omega arith)
          ∙ ap (λ t. xs ++ t) q;
    }

-- The digits of a number of at most so many digits denote it.
denoted-append : (ds : List ℕ) (d : ℕ) → denoted (ds ++ d ∷ []) ≡ denoted ds * 10 + (d - b'0')
unfolding denoted
denoted-append [] d = omega arith
denoted-append (e ∷ ds) d =
    rw (denoted-append ds d, length-append {0} ds (d ∷ []))
      (let e1 : 10 ^ (length ds + 1) ≡ 10 * 10 ^ length ds =
          rw (let s : length ds + 1 ≡ suc (length ds) = omega arith in s)
            (pow_step 10 (length ds)) in
        rw e1 (grind arith))

pub denoted-decimal : (k n : ℕ) → n < 10 ^ k → denoted (decimal k n) ≡ n
unfolding decimal denoted
denoted-decimal zero n h = omega arith
denoted-decimal (suc k) n h = elim (Bool-cases (ltb n 10)) [
  | inl small ↦ rw small (let s = ltb→lt n 10 small in omega arith)
  | inr large ↦
      let bound : n < 10 * 10 ^ k = rw (← pow_step 10 k) h in
      rw large (
        rw
          (
            denoted-append (decimal k (n / 10)) (b'0' + n % 10),
            denoted-decimal k (n / 10) (omega arith),
          )
          (omega arith))
]

pub decimal-IsDigit : (k n : ℕ) → All IsDigit (decimal k n)
unfolding decimal
decimal-IsDigit zero n = tt
decimal-IsDigit (suc k) n = elim (Bool-cases (ltb n 10)) [
  | inl small ↦ rw small (let s = ltb→lt n 10 small in (ground arith, tt))
  | inr large ↦ rw large (
      All-append IsDigit (decimal k (n / 10)) ((b'0' + n % 10) ∷ []) (decimal-IsDigit k (n / 10))
        (ground arith, tt))
]

pub digits-NonZero : (ds : List ℕ) → All IsDigit ds → NonZero ds
digits-NonZero [] h = tt
digits-NonZero (d ∷ ds) h = (ground (arith, h.0), digits-NonZero ds h.1)

last_cleared-length : (buff : List ℕ) → length (last_cleared buff) ≡ length buff
last_cleared-length buff = length-set buff (length buff - 1) 0

-- A family that is handled.
abbrev pub IsHandled : Family → Type 0
IsHandled f = (f ≡ af_inet) ⊎ (f ≡ af_inet6)

with_tab-Holds :
    {buff text : List ℕ}
    → Holds buff text
    → NonZero text
    → length text + 1 < length buff
    → (b : List ℕ) × (with_tab buff ≡ some b) × Holds b (text ++ 9 ∷ []) × (length b ≡ length buff)
unfolding with_tab
with_tab-Holds {buff} {text} h nz l =
    let string = Holds-c_string h nz in
    (
      overwrite buff (length text) (9 ∷ 0 ∷ []),
      rw (string, lt→ltb (length text + 1) (length buff) l) refl,
      Holds-extended (9 ∷ []) h l,
      length-overwrite buff (length text) (9 ∷ 0 ∷ []),
    )

with_port-Holds :
    {buff text : List ℕ} (port : ℕ)
    → Holds buff text
    → NonZero text
    → length text + length (decimal int_digits port) < length buff
    → Holds (with_port port buff) (text ++ decimal int_digits port)
unfolding with_port
with_port-Holds {buff} {text} port h nz l =
    let digits = decimal int_digits port in
    let string = Holds-c_string h nz in
    let whole = take-all (length buff - length text - 1) digits (omega arith) in
    rw (string, whole) (Holds-extended digits h l)

sockaddr_text-Holds :
    (inet_ntop : Family → List ℕ → ℕ → Option (List ℕ)) (buff text : List ℕ) (addr : Address)
    → inet_ntop addr.domain addr.host (length buff) ≡ some text
    → NonZero text
    → length text + 1 + length (decimal int_digits (port_number addr.port)) < length buff
    → (b : List ℕ) × (sockaddr_text inet_ntop buff addr ≡ some b)
      × Holds b (text ++ 9 ∷ decimal int_digits (port_number addr.port))
unfolding sockaddr_text with_host
sockaddr_text-Holds inet_ntop buff text addr named nz l =
    let port = port_number addr.port in
    let digits = decimal int_digits port in
    let host = overwrite buff 0 (text ++ 0 ∷ []) in
    let size = length-overwrite buff 0 (text ++ 0 ∷ []) in
    let front = Holds-overwrite buff text (omega arith) in
    let (b, tabbed, held, same) = with_tab-Holds front nz (omega arith) in
    let tab_NonZero = All-append (λ c. c ≢ 0) text (9 ∷ []) nz ((λ e. omega arith), tt) in
    let size_tab = length-append {0} text (9 ∷ []) in
    let ported =
      with_port-Holds port (Holds-last_cleared held) tab_NonZero
        (omega (arith, last_cleared-length b)) in
    let joined = append_assoc text (9 ∷ []) digits in
    (
      last_cleared (with_port port (last_cleared b)),
      rw (named, tabbed) refl,
      subst (λ t. Holds (last_cleared (with_port port (last_cleared b))) t) joined
          (Holds-last_cleared ported),
    )

-- The text of an IPv4 or IPv6 address, where `inet_ntop` gives a string and the array has room for it, a tab,
-- the digits of the port and a terminator: just these, one behind another.
pub sockaddr_to_human-Holds :
    (inet_ntop : Family → List ℕ → ℕ → Option (List ℕ)) (buff text : List ℕ) (addr : Address)
    → IsHandled addr.domain
    → inet_ntop addr.domain addr.host (length buff) ≡ some text
    → NonZero text
    → length text + 1 + length (decimal int_digits (port_number addr.port)) < length buff
    → (b : List ℕ) × (sockaddr_to_human inet_ntop buff (some addr) ≡ some b)
      × Holds b (text ++ 9 ∷ decimal int_digits (port_number addr.port))
unfolding sockaddr_to_human
sockaddr_to_human-Holds inet_ntop buff text addr family named nz l =
    let (b, run, held) = sockaddr_text-Holds inet_ntop buff text addr named nz l in
    (
      b,
      elim family [
        | inl v4 ↦ rw (sockaddr_to_human, v4) run
        | inr v6 ↦ rw (sockaddr_to_human, v6) run
      ],
      held,
    )

-- A port has at most five digits.
length-decimal : (k n m : ℕ) → length (decimal k (n / 10)) ≤ m → length (decimal (suc k) n) ≤ suc m
unfolding decimal
length-decimal k n m h = elim (Bool-cases (ltb n 10)) [
  | inl small ↦ rw small (omega arith)
  | inr large ↦
      rw large (omega (arith, length-append {0} (decimal k (n / 10)) ((b'0' + n % 10) ∷ [])))
]

length-digit : (k n : ℕ) → n < 10 → length (decimal (suc k) n) ≤ 1
unfolding decimal
length-digit k n h = rw (lt→ltb n 10 h) (omega arith)

pub length-port : (n : ℕ) → n < 65536 → length (decimal int_digits n) ≤ 5
length-port n h = length-decimal 9 n 4 (
    length-decimal 8 (n / 10) 3 (
      length-decimal 7 (n / 10 / 10) 2 (
        length-decimal 6 (n / 10 / 10 / 10) 1
          (length-digit 5 (n / 10 / 10 / 10 / 10) (omega arith)))))
