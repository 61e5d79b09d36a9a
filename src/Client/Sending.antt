-- ===== src/Client/Sending.antt =====
-- src/client/clientargs.c, src/client/clientrequest.c: the request that each option makes, as it is sent.
use socks_v5_proxy.Prelude.{
  length, take, drop, replicate, take-length-append, overwrite, overwrite-front, u16, ℕ, ◌≤◌, ◌≡◌,
  refl, ap, ◌∙◌, Option, some, List, [], ◌∷◌, ◌++◌, arith,
}
use socks_v5_proxy.CommandLine.{Opt}
use socks_v5_proxy.Client.{config, ClientRequestArgs, htons, request_sent}
use socks_v5_proxy.Client.Options.{string_check, user_args, parse_option, cleared_args}
use socks_v5_proxy.Client.Wire.{header, config_payload, payload, request_sent-payload}

-- The options that ask, with their targets.
pub data Asks : ℕ → ℕ → Type 0 where
  asks_concurrent : Asks b'c' 1
  asks_historic : Asks b'C' 0
  asks_bytes : Asks b'b' 2
  asks_users : Asks b'a' 3
  asks_admins : Asks b'A' 4

-- The request of an option, and that its bytes, stored over what the buffer held, are the given ones.
abbrev pub Sends : Opt → List ℕ → List ℕ → List ℕ → Type 0
Sends o token buffer bytes =
    (args : ClientRequestArgs) × (parse_option cleared_args o ≡ some args)
    × (request_sent args token buffer ≡ bytes)

pub sends :
    (c : ℕ) (word : List ℕ) (args : ClientRequestArgs) (token buffer bytes : List ℕ)
    → parse_option cleared_args (record { letter = c; optarg = word }) ≡ some args
    → length token ≡ 16
    → length buffer ≡ 65556
    → length (payload args) ≡ args.dlen
    → args.dlen ≤ 65535
    → header args token (payload args) ≡ bytes
    → Sends (record { letter = c; optarg = word }) token buffer bytes
sends c word args token buffer bytes e l k d b q =
    (args, e, request_sent-payload args token buffer l k d b ∙ q)

abbrev asking : ℕ → ClientRequestArgs
asking t = record cleared_args { target = t; dlen = 1 }

-- An option that asks, with a token of 16 bytes.
pub option_asks-Sends :
    (c t : ℕ) (word token buffer : List ℕ)
    → Asks c t
    → length token ≡ 16
    → length buffer ≡ 65556
    → Sends
        (record { letter = c; optarg = word })
        token
        buffer
        (1 ∷ (token ++ 0 ∷ t ∷ 0 ∷ 1 ∷ 0 ∷ []))
unfolding parse_option payload
option_asks-Sends c t word token buffer asks_concurrent l k =
    sends b'c' word (asking 1) token buffer _ refl l k refl (omega arith) refl
option_asks-Sends c t word token buffer asks_historic l k =
    sends b'C' word (asking 0) token buffer _ refl l k refl (omega arith) refl
option_asks-Sends c t word token buffer asks_bytes l k =
    sends b'b' word (asking 2) token buffer _ refl l k refl (omega arith) refl
option_asks-Sends c t word token buffer asks_users l k =
    sends b'a' word (asking 3) token buffer _ refl l k refl (omega arith) refl
option_asks-Sends c t word token buffer asks_admins l k =
    sends b'A' word (asking 4) token buffer _ refl l k refl (omega arith) refl

-- The options that switch the sniffer, with the value that they send.
pub data Toggles : ℕ → ℕ → Type 0 where
  toggles_on : Toggles b'n' 1
  toggles_off : Toggles b'N' 0

abbrev toggling : ℕ → ClientRequestArgs
toggling v = record { method = config; target = 0; dlen = 1; data_bytes = v ∷ replicate 511 0 }

pub option_toggles-Sends :
    (c v : ℕ) (word token buffer : List ℕ)
    → Toggles c v
    → length token ≡ 16
    → length buffer ≡ 65556
    → Sends
        (record { letter = c; optarg = word })
        token
        buffer
        (1 ∷ (token ++ 1 ∷ 0 ∷ 0 ∷ 1 ∷ v ∷ []))
unfolding parse_option payload config_payload overwrite
option_toggles-Sends c v word token buffer toggles_on l k =
    sends b'n' word (toggling 1) token buffer _ refl l k refl (omega arith) refl
option_toggles-Sends c v word token buffer toggles_off l k =
    sends b'N' word (toggling 0) token buffer _ refl l k refl (omega arith) refl

-- A request to change the accounts, with its data in the union.
abbrev pub changing : ℕ → ℕ → List ℕ → ClientRequestArgs
changing t n mem = record { method = config; target = t; dlen = n; data_bytes = mem }

pub string_check-fits :
    (src mem : List ℕ) (off : ℕ)
    → length src ≤ 255
    → string_check src mem off ≡ some (overwrite mem off src, length src)
unfolding string_check
string_check-fits src mem off h = ground arith

-- A length of at most 511 is kept by `uint16_t`.
pub user_args-short :
    (t n : ℕ) (mem : List ℕ) (filled : Option (List ℕ × ℕ))
    → filled ≡ some (mem, n)
    → n ≤ 511
    → user_args cleared_args t filled ≡ some (changing t n mem)
user_args-short t n mem filled e h =
    ap (user_args cleared_args t) e
    ∙ ap (λ k. some (changing t k mem)) (let z : u16 n ≡ n = omega arith in z)

-- The options that delete, with their targets.
pub data Deletes : ℕ → ℕ → Type 0 where
  deletes_user : Deletes b'd' 2
  deletes_admin : Deletes b'D' 4

abbrev alone : List ℕ → List ℕ
alone name = overwrite (replicate 512 0) 0 name

take-alone : (name : List ℕ) → length name ≤ 255 → take (length name) (alone name) ≡ name
take-alone name h =
    ap (take (length name)) (overwrite-front (replicate 512 0) name (omega arith))
    ∙ take-length-append name (drop (length name) (replicate 512 0))

-- An option that deletes a name of at most 255 bytes, with a token of 16 bytes.
pub option_deletes-Sends :
    (c t : ℕ) (name token buffer : List ℕ)
    → Deletes c t
    → length token ≡ 16
    → length buffer ≡ 65556
    → length name ≤ 255
    → Sends
        (record { letter = c; optarg = name })
        token
        buffer
        (1 ∷ (token ++ 1 ∷ t ∷ (htons (length name) ++ name)))
unfolding parse_option payload config_payload
option_deletes-Sends c t name token buffer deletes_user l k h =
    sends b'd' name (changing 2 (length name) (alone name)) token buffer _
      (user_args-short 2 (length name) (alone name) _ (string_check-fits name (replicate 512 0) 0 h)
        (omega arith))
      l k (ap length (take-alone name h)) (omega arith)
      (ap (header (changing 2 (length name) (alone name)) token) (take-alone name h))
option_deletes-Sends c t name token buffer deletes_admin l k h =
    sends b'D' name (changing 4 (length name) (alone name)) token buffer _
      (user_args-short 4 (length name) (alone name) _ (string_check-fits name (replicate 512 0) 0 h)
        (omega arith))
      l k (ap length (take-alone name h)) (omega arith)
      (ap (header (changing 4 (length name) (alone name)) token) (take-alone name h))
