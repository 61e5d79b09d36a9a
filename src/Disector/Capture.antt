-- ===== src/Disector/Capture.antt =====
-- src/server/disector.c: what the sniffer keeps of a login.

use socks_v5_proxy.Disector.Strings.{set-overwrite_last, c_string-pair}
use socks_v5_proxy.Prelude.{
  length, set, drop, length-append, overwrite, All, All-append, c_string, NonZero, ℕ, suc, ◌+◌, ◌<◌,
  ◌≡◌, refl, ap, ◌∙◌, ◌≢◌, false, some, List, [], ◌∷◌, ◌++◌, arith,
}
use socks_v5_proxy.Disector.{
  codes, DisectorState, disector_user, disector_user_copy, disector_password,
  disector_password_copy, disector_response, DisectorParser, disector_parser_feed, disector_loop,
  disector_consume,
}

abbrev pub sniffing : List ℕ → DisectorState → ℕ → DisectorParser
sniffing mem st i = record { disector = mem; state = st; i = i; user_carry = false }

-- No line feed.
abbrev pub OneLine : List ℕ → Type 0
OneLine = All (λ c. c ≢ b'\n')

-- The bytes of a user name are stored one by one.
user_copy-loop :
    (mem : List ℕ) (k j : ℕ) (xs rest : List ℕ)
    → OneLine xs
    → j ≡ k + length xs
    → j < 256
    → disector_loop (sniffing mem disector_user_copy k) disector_user_copy (xs ++ rest)
      ≡ disector_loop (sniffing (overwrite mem k xs) disector_user_copy j) disector_user_copy rest
unfolding disector_loop disector_parser_feed overwrite
user_copy-loop mem k j [] rest h e l = let e' : j ≡ k = omega arith in rw e'
user_copy-loop mem k j (x ∷ xs) rest h e l =
    let step : disector_parser_feed (sniffing mem disector_user_copy k) x
        ≡ some (sniffing (set mem k x) disector_user_copy (suc k)) =
      ground arith in
    rw (step, disector_loop) (user_copy-loop (set mem k x) (suc k) j xs rest h.1 (omega arith) l)

feed-password_copy :
    (mem : List ℕ) (k c : ℕ)
    → c ≢ b'\n'
    → suc k < 256
    → disector_parser_feed (sniffing mem disector_password_copy k) c
      ≡ some (sniffing (set mem (255 + k) c) disector_password_copy (suc k))
unfolding disector_parser_feed
feed-password_copy mem k c h l = ground arith

feed-user_end :
    (mem : List ℕ) (k : ℕ)
    → disector_parser_feed (sniffing mem disector_user_copy (suc k)) b'\n'
      ≡ some (sniffing (set mem k 0) disector_password 0)
unfolding disector_parser_feed
feed-user_end mem k = ground arith

-- The bytes of a password are stored one by one.
password_copy-loop :
    (mem : List ℕ) (k j o : ℕ) (xs rest : List ℕ)
    → OneLine xs
    → j ≡ k + length xs
    → j < 256
    → o ≡ 255 + k
    → disector_loop (sniffing mem disector_password_copy k) disector_password_copy (xs ++ rest)
      ≡ disector_loop
          (sniffing (overwrite mem o xs) disector_password_copy j)
          disector_password_copy
          rest
unfolding disector_loop overwrite
password_copy-loop mem k j o [] rest h e l f = let e' : j ≡ k = omega arith in rw e'
password_copy-loop mem k j o (x ∷ xs) rest h e l f =
    rw (feed-password_copy mem k x h.0 (omega arith), disector_loop, ← f)
      (password_copy-loop (set mem o x) (suc k) j (suc o) xs rest h.1 (omega arith) l (omega arith))

-- A whole user line: the argument is kept with a 0 in place of its last byte.
user_line-loop :
    (mem : List ℕ) (st : DisectorState) (xs : List ℕ) (c : ℕ) (rest : List ℕ)
    → OneLine xs
    → c ≢ b'\n'
    → length xs < 255
    → disector_loop
        (sniffing mem disector_user 0)
        st
        (codes "USER" ++ (xs ++ c ∷ []) ++ b'\n' ∷ rest)
      ≡ disector_loop
          (sniffing (overwrite mem 0 (xs ++ 0 ∷ [])) disector_password 0)
          disector_password
          rest
unfolding disector_loop disector_parser_feed
user_line-loop mem st xs c rest h n l =
    user_copy-loop mem 0 (suc (length xs)) (xs ++ c ∷ []) (b'\n' ∷ rest)
      (All-append (λ b. b ≢ b'\n') xs (c ∷ []) h (n, tt))
      (omega (arith, length-append {0} xs (c ∷ []))) (omega arith)
    ∙ rw (feed-user_end (overwrite mem 0 (xs ++ c ∷ [])) (length xs), disector_loop)
        (ap (λ m. disector_loop (sniffing m disector_password 0) disector_password rest)
          (set-overwrite_last mem 0 xs c (length xs) (omega arith)))

-- A whole password line.
pass_line-loop :
    (mem : List ℕ) (st : DisectorState) (xs : List ℕ) (c : ℕ) (rest : List ℕ)
    → OneLine xs
    → c ≢ b'\n'
    → length xs < 255
    → disector_loop
        (sniffing mem disector_password 0)
        st
        (codes "PASS" ++ (xs ++ c ∷ []) ++ b'\n' ∷ rest)
      ≡ disector_loop
          (sniffing (overwrite mem 255 (xs ++ 0 ∷ [])) disector_response 0)
          disector_response
          rest
unfolding disector_loop disector_parser_feed
pass_line-loop mem st xs c rest h n l =
    password_copy-loop mem 0 (suc (length xs)) 255 (xs ++ c ∷ []) (b'\n' ∷ rest)
      (All-append (λ b. b ≢ b'\n') xs (c ∷ []) h (n, tt))
      (omega (arith, length-append {0} xs (c ∷ []))) (omega arith) refl
    ∙ ap (λ m. disector_loop (sniffing m disector_response 0) disector_response rest)
        (set-overwrite_last mem 255 xs c (254 + suc (length xs)) (omega arith))

-- The two lines of a login, `USER <name>` and `PASS <word>`, each with its carriage return.
abbrev pub login : List ℕ → List ℕ → List ℕ
login name word =
    codes "USER"
    ++ (b' ' ∷ name ++ b'\r' ∷ [])
    ++ b'\n' ∷ (codes "PASS" ++ (b' ' ∷ word ++ b'\r' ∷ []) ++ b'\n' ∷ [])

-- What a text of a login may hold: no byte 0 and no line feed.
abbrev pub IsText : List ℕ → Type 0
IsText xs = NonZero xs × OneLine xs

-- A login that reaches the sniffer where it looks for one takes it to the state that waits for the
-- server's answer. The strings that it keeps are the name and the password with the space that
-- separates them from the keyword in front: the sniffer matches "USER" and "PASS", not "USER " and
-- "PASS " as its table says.
pub disector_consume-login :
    (mem name word : List ℕ)
    → length mem ≡ 513
    → IsText name
    → IsText word
    → length name < 254
    → length word < 254
    → (p : DisectorParser) × (disector_consume (sniffing mem disector_user 0) (login name word)
        ≡ some (disector_response, p))
      × (p.state ≡ disector_response)
      × (p.i ≡ 0)
      × (c_string p.disector ≡ b' ' ∷ name)
      × (c_string (drop 255 p.disector) ≡ b' ' ∷ word)
unfolding disector_consume
disector_consume-login mem name word size tn tw ln lw =
    let u : List ℕ = b' ' ∷ name in
    let w : List ℕ = b' ' ∷ word in
    let m1 : List ℕ = overwrite mem 0 (u ++ 0 ∷ []) in
    let m2 : List ℕ = overwrite m1 255 (w ++ 0 ∷ []) in
    let (first, second) =
      c_string-pair mem u w size (ground arith, tn.0) (ground arith, tw.0) (omega arith)
        (omega arith) in
    let run : disector_loop (sniffing mem disector_user 0) disector_user (login name word)
        ≡ some (disector_response, sniffing m2 disector_response 0) =
      user_line-loop mem disector_user u b'\r' _ (ground arith, tn.1) (ground arith) (omega arith)
      ∙ pass_line-loop m1 disector_password w b'\r' [] (ground arith, tw.1) (ground arith)
          (omega arith) in
    (sniffing m2 disector_response 0, run, refl, refl, first, second)
