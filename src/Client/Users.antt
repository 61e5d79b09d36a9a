-- ===== src/Client/Users.antt =====
-- src/client/clientargs.c: the options that add a user or an administrator, as they are sent.
use socks_v5_proxy.Client.{ClientRequestArgs, htons}
use socks_v5_proxy.Client.Wire.{header, config_payload, payload}
use socks_v5_proxy.Client.Sending.{Sends, sends, changing, string_check-fits, user_args-short}
use socks_v5_proxy.Prelude.{
  ◌==◌, length, get_or, set, drop, replicate, length-append, take-length-append, drop-length-append,
  overwrite, set-past, set-within, All, c_string, NonZero, c_string-run_on, padded, two_strings,
  length-padded, c_string-two_strings, set-padded, overwrite-first, overwrite-second,
  get_or-two_strings, u8, ℕ, ◌+◌, ◌≤◌, ◌<◌, ◌≡◌, refl, sym, ap, ap₂, ◌∙◌, ◌≢◌, ◌⊎◌, inl, inr, false,
  some, List, [], ◌∷◌, ◌++◌, append-nil, append_assoc, arith,
}
use socks_v5_proxy.CommandLine.{strchr}
use socks_v5_proxy.Client.Options.{
  token_check, colons, strtok_rest, strtok, username_with_password, username_with_token,
  parse_option, cleared_args,
}

abbrev NoColon : List ℕ → Type 0
NoColon = All (λ c. c ≢ b':')

strchr-first :
    (name rest : List ℕ) → NoColon name → strchr (name ++ b':' ∷ rest) b':' ≡ some (length name)
unfolding strchr
strchr-first [] rest h = refl
strchr-first (x ∷ xs) rest h = ground (arith, strchr-first xs rest h.1)

set-separator : (name rest : List ℕ) → set (name ++ b':' ∷ rest) (length name) 0 ≡ name ++ 0 ∷ rest
set-separator name rest = set-past name (b':' ∷ rest) 0 (length name) 0 (omega arith)

strtok-first :
    (name rest : List ℕ)
    → NoColon name
    → 0 < length name
    → strtok (name ++ b':' ∷ rest) ≡ some (name, name ++ 0 ∷ rest)
unfolding strtok strtok_rest
strtok-first [] rest h l = absurd (omega arith)
strtok-first (c ∷ cs) rest h l =
    let src : List ℕ = (c ∷ cs) ++ b':' ∷ rest in
    let none_in_front : colons src ≡ 0 = let ne = h.0 in ground arith in
    let at_end : length (c ∷ cs) + 0 ≡ length (c ∷ cs) = omega arith in
    ap (λ k. strtok_rest k src (drop k src)) none_in_front
    ∙ rw (strtok_rest, strchr-first (c ∷ cs) rest h)
        (ap some (
          ap₂ (λ x y. (x, y)) (take-length-append (c ∷ cs) (b':' ∷ rest))
            (ap (λ i. set src i 0) at_end ∙ set-separator (c ∷ cs) rest)))

-- The string behind the separator.
second-string :
    (name second : List ℕ)
    → NonZero second
    → c_string (drop (length name + 1) (name ++ 0 ∷ second)) ≡ second
unfolding c_string
second-string name second nz =
    ap (λ n. c_string (drop n (name ++ 0 ∷ second)))
      (let n : length name + 1 ≡ length (name ++ 0 ∷ []) =
          omega (arith, length-append name (0 ∷ [])) in
        n)
    ∙ ap (λ m. c_string (drop (length (name ++ 0 ∷ [])) m))
        (sym (append_assoc name (0 ∷ []) second))
    ∙ ap c_string (drop-length-append (name ++ 0 ∷ []) second ∙ sym (append-nil second))
    ∙ c_string-run_on second [] nz
    ∙ append-nil second

-- The union behind the two strings.
user_strings :
    (name second : List ℕ)
    → length name ≤ 255
    → length second ≤ 255
    → overwrite (set (overwrite (replicate 512 0) 0 name) 255 0) 256 second
      ≡ two_strings name second
user_strings name second h l =
    ap (λ m. overwrite (set m 255 0) 256 second) (overwrite-first name (omega arith))
    ∙ ap (λ m. overwrite m 256 second)
        (set-within (padded name) (replicate 256 0) 255 0
            (omega (arith, length-padded name (omega arith)))
          ∙ ap (λ m. m ++ replicate 256 0) (set-padded name 255 h))
    ∙ overwrite-second name second (omega arith) (omega arith)

-- What is sent of them.
strings-payload :
    (t n : ℕ) (name second : List ℕ)
    → (t ≡ 1) ⊎ (t ≡ 3)
    → NonZero name
    → NonZero second
    → length name ≤ 255
    → length second ≤ 255
    → payload (changing t n (two_strings name second)) ≡ name ++ 0 ∷ second
unfolding payload config_payload
strings-payload t n name second d nn ns h l =
    let (a, b) = c_string-two_strings name second nn ns (omega arith) (omega arith) in
    let strings : c_string (two_strings name second)
          ++ get_or (two_strings name second) 255 0 ∷ c_string (drop 256 (two_strings name second))
        ≡ name ++ 0 ∷ second =
      rw (a, b, get_or-two_strings name second h) refl in
    elim d [ inl e ↦ rw e strings | inr e ↦ rw e strings ]

with_password :
    (name second mem : List ℕ)
    → NoColon name
    → NonZero second
    → 0 < length name
    → length name ≤ 255
    → length second ≤ 255
    → username_with_password (name ++ b':' ∷ second) mem
      ≡ some
          (overwrite (set (overwrite mem 0 name) 255 0) 256 second, length name + 1 + length second)
unfolding username_with_password
with_password name second mem nc ns z h l =
    let not_in_front : (length name == 0) ≡ false = ground arith in
    rw
      (
        strchr-first name second nc,
        not_in_front,
        strtok-first name second nc z,
        string_check-fits name mem 0 h,
        second-string name second ns,
        string_check-fits second (set (overwrite mem 0 name) 255 0) 256 l,
      )
      refl

token_check-fits :
    (src mem : List ℕ) (off : ℕ)
    → length src ≡ 16
    → token_check src mem off ≡ some (overwrite mem off src, length src)
unfolding token_check
token_check-fits src mem off h = ground arith

with_token :
    (name second mem : List ℕ)
    → NoColon name
    → NonZero second
    → 0 < length name
    → length name ≤ 255
    → length second ≡ 16
    → username_with_token (name ++ b':' ∷ second) mem
      ≡ some
          (overwrite (set (overwrite mem 0 name) 255 0) 256 second, length name + 1 + length second)
unfolding username_with_token
with_token name second mem nc ns z h l =
    rw
      (
        strchr-first name second nc,
        strtok-first name second nc z,
        string_check-fits name mem 0 h,
        second-string name second ns,
        token_check-fits second (set (overwrite mem 0 name) 255 0) 256 l,
      )
      refl

-- The options that add, with their targets and what they want of the second string.
pub data Adds : ℕ → ℕ → List ℕ → Type 0 where
  adds_user : {second : List ℕ} → length second ≤ 255 → Adds b'u' 1 second
  adds_admin : {second : List ℕ} → length second ≡ 16 → Adds b'U' 3 second

pub length-Adds : (c t : ℕ) (second : List ℕ) → Adds c t second → length second ≤ 255
length-Adds c t second (adds_user l) = l
length-Adds c t second (adds_admin l) = omega arith

pub target-Adds : (c t : ℕ) (second : List ℕ) → Adds c t second → (t ≡ 1) ⊎ (t ≡ 3)
target-Adds c t second (adds_user l) = inl refl
target-Adds c t second (adds_admin l) = inr refl

abbrev pair_args : ℕ → List ℕ → List ℕ → ClientRequestArgs
pair_args t name second = changing t (length name + 1 + length second) (two_strings name second)

parse_option-Adds :
    (c t : ℕ) (name second : List ℕ)
    → Adds c t second
    → NoColon name
    → NonZero second
    → 0 < length name
    → length name ≤ 255
    → parse_option cleared_args (record { letter = c; optarg = name ++ b':' ∷ second })
      ≡ some (pair_args t name second)
unfolding parse_option
parse_option-Adds c t name second (adds_user l) nc ns z h =
    user_args-short 1 _ (two_strings name second) _
      (with_password name second (replicate 512 0) nc ns z h l
        ∙ ap (λ m. some (m, length name + 1 + length second)) (user_strings name second h l))
      (omega arith)
parse_option-Adds c t name second (adds_admin l) nc ns z h =
    user_args-short 3 _ (two_strings name second) _
      (with_token name second (replicate 512 0) nc ns z h l
        ∙ ap (λ m. some (m, length name + 1 + length second))
            (user_strings name second h (omega arith)))
      (omega arith)

-- An option that adds `name:second`, with a token of 16 bytes.
pub option_adds-Sends :
    (c t : ℕ) (name second token buffer : List ℕ)
    → Adds c t second
    → All (λ x. x ≢ b':') name
    → NonZero name
    → NonZero second
    → 0 < length name
    → length name ≤ 255
    → length token ≡ 16
    → length buffer ≡ 65556
    → Sends
        (record { letter = c; optarg = name ++ b':' ∷ second })
        token
        buffer
        (1 ∷ (token ++ 1 ∷ t ∷ (htons (length name + 1 + length second) ++ name ++ 0 ∷ second)))
option_adds-Sends c t name second token buffer d nc nn ns z h l k =
    let n : ℕ = length name + 1 + length second in
    let b : length second ≤ 255 = length-Adds c t second d in
    let q : payload (pair_args t name second) ≡ name ++ 0 ∷ second =
      strings-payload t n name second (target-Adds c t second d) nn ns h b in
    let size : length (name ++ 0 ∷ second) ≡ n = omega (arith, length-append name (0 ∷ second)) in
    let kept : u8 t ≡ t = elim (target-Adds c t second d) [
      | inl e ↦ omega arith
      | inr e ↦ omega arith
    ] in
    sends c (name ++ b':' ∷ second) (pair_args t name second) token buffer _
      (parse_option-Adds c t name second d nc ns z h) l k (ap length q ∙ size) (omega arith)
      (ap (header (pair_args t name second) token) q
        ∙ ap (λ k. 1 ∷ (token ++ 1 ∷ k ∷ (htons n ++ name ++ 0 ∷ second))) kept)
