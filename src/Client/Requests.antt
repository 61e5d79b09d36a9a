-- ===== src/Client/Requests.antt =====
-- src/client/client.c, src/server/monitor.c: what the server's parser makes of the bytes that the client
-- sends for an option.

use socks_v5_proxy.Prelude.{
  length, drop, All, c_string, u16, ℕ, ◌+◌, ◌/◌, ◌%◌, ◌≤◌, ◌<◌, ◌≡◌, refl, ap, ◌∙◌, ◌≢◌, ◌⊎◌, inl,
  inr, true, false, none, some, List, [], ◌∷◌, ◌++◌, arith,
}
use socks_v5_proxy.Client.{ClientRequestArgs, request_sent}
use socks_v5_proxy.Client.Options.{parse_option, cleared_args}
use socks_v5_proxy.Client.Sending.{
  Asks, asks_concurrent, asks_historic, asks_bytes, asks_users, asks_admins, option_asks-Sends,
  Deletes, deletes_user, deletes_admin, option_deletes-Sends,
}
use socks_v5_proxy.Client.Users.{Adds, length-Adds, target-Adds, option_adds-Sends}
use socks_v5_proxy.Monitor.Types.{
  monitor_done, Statics, MonitorParser, monitor_parser_init, is_alnum,
}
use socks_v5_proxy.Monitor.Commands.{monitor_parse, at, tokened, monitor_parse-get}
use socks_v5_proxy.Monitor.Deletion.{IsDeletion, AllAlnum, NonZero-of_alnum, monitor_parse-deletion}
use socks_v5_proxy.Monitor.Addition.{monitor_parse-addition}

target-Asks : (c t : ℕ) → Asks c t → t ≤ 4
target-Asks c t asks_concurrent = omega arith
target-Asks c t asks_historic = omega arith
target-Asks c t asks_bytes = omega arith
target-Asks c t asks_users = omega arith
target-Asks c t asks_admins = omega arith

-- An option that asks makes a request which, sent with a token of 16 bytes, the server parses to the end:
-- the token and the target are those of the client. The three bytes of DLEN and DATA that the client adds
-- are left unread.
pub request_sent-Asks :
    (c t : ℕ) (word token buffer : List ℕ) (s : Statics) (p : MonitorParser)
    → Asks c t
    → length token ≡ 16
    → length buffer ≡ 65556
    → (args : ClientRequestArgs) × (parse_option cleared_args (record { letter = c; optarg = word })
        ≡ some args)
      × (monitor_parse (some (s, monitor_parser_init p)) (request_sent args token buffer) ≡ (
        at s (record (tokened token) { target = t }) monitor_done 16 16 p.separated,
        false,
        0 ∷ 1 ∷ 0 ∷ [],
      ))
request_sent-Asks c t word token buffer s p d l k =
    let (args, e, sent) = option_asks-Sends c t word token buffer d l k in
    let known : t ≤ 4 = target-Asks c t d in
    (
      args,
      e,
      ap (monitor_parse (some (s, monitor_parser_init p))) sent
          ∙ elim (monitor_parse-get s p token (0 ∷ 1 ∷ 0 ∷ []) t l) [
            | inl done ↦ done.1
            | inr other ↦ let over = other.0 in absurd (omega arith)
          ],
    )

target-Deletes : (c t : ℕ) → Deletes c t → IsDeletion t
target-Deletes c t deletes_user = inl refl
target-Deletes c t deletes_admin = inr refl

-- An option that deletes a name of 1 to 255 letters and digits makes a request which, sent with a token of
-- 16 bytes, the server parses to the end: the token, the target and the name are those of the client.
pub request_sent-Deletes :
    (c t : ℕ) (name token buffer : List ℕ) (s : Statics) (p : MonitorParser)
    → Deletes c t
    → length token ≡ 16
    → length buffer ≡ 65556
    → length s.combinedlen ≡ 2
    → All (λ x. is_alnum x ≡ true) name
    → 0 < length name
    → length name ≤ 255
    → (args : ClientRequestArgs) × (s' : Statics) × (q : MonitorParser) × (parse_option cleared_args
          (record { letter = c; optarg = name })
        ≡ some args)
      × (monitor_parse (some (s, monitor_parser_init p)) (request_sent args token buffer)
          ≡ (some (s', q), false, []))
      × (q.state ≡ monitor_done)
      × (q.monitor.token ≡ token)
      × (q.monitor.method ≡ 1)
      × (q.monitor.target ≡ t)
      × (c_string q.monitor.union_data ≡ name)
request_sent-Deletes c t name token buffer s p d l k two a z h =
    let (args, e, sent) = option_deletes-Sends c t name token buffer d l k h in
    let (s', q, parsed, done, tok, method, target, found) =
      monitor_parse-deletion s p token name t (u16 (length name) / 256) (u16 (length name) % 256) l
        two (target-Deletes c t d) a z (omega arith) (omega arith) in
    (
      args,
      s',
      q,
      e,
      ap (monitor_parse (some (s, monitor_parser_init p))) sent ∙ parsed,
      done,
      tok,
      method,
      target,
      found,
    )

alnum-NoColon : (xs : List ℕ) → AllAlnum xs → All (λ x. x ≢ b':') xs
alnum-NoColon [] a = tt
alnum-NoColon (x ∷ xs) a = let h = a.0 in (λ e. ground arith, alnum-NoColon xs a.1)

-- An option that adds `name:second`, of letters and digits: a name of 1 to 255, and a password of at most
-- 255 or a token of 16. The request is sent with a token of 16 bytes to a connection whose parser is not
-- behind a separator. Where the two have less than 255 bytes together the server parses it to the end, and
-- the token, the target, the name and the second string are those of the client; where they have 255 or
-- more its parser stores the terminator of the second string outside the union.
pub request_sent-Adds :
    (c t : ℕ) (name second token buffer : List ℕ) (s : Statics) (p : MonitorParser)
    → Adds c t second
    → length token ≡ 16
    → length buffer ≡ 65556
    → length s.combinedlen ≡ 2
    → p.separated ≡ false
    → All (λ x. is_alnum x ≡ true) name
    → All (λ x. is_alnum x ≡ true) second
    → 0 < length name
    → length name ≤ 255
    → (args : ClientRequestArgs) × (parse_option cleared_args
          (record { letter = c; optarg = name ++ b':' ∷ second })
        ≡ some args)
      × (let result =
            monitor_parse (some (s, monitor_parser_init p)) (request_sent args token buffer) in
          ((length name + length second < 255)
            × ((s' : Statics) × (q : MonitorParser) × (result ≡ (some (s', q), false, []))
                × (q.state ≡ monitor_done)
                × (q.monitor.token ≡ token)
                × (q.monitor.method ≡ 1)
                × (q.monitor.target ≡ t)
                × (c_string q.monitor.union_data ≡ name)
                × (c_string (drop 256 q.monitor.union_data) ≡ second)
                × (q.separated ≡ false)))
          ⊎ ((255 ≤ length name + length second) × (result ≡ (none, false, []))))
request_sent-Adds c t name second token buffer s p d l k two sep a a' z h =
    let n : ℕ = length name + 1 + length second in
    let b : length second ≤ 255 = length-Adds c t second d in
    let (args, e, sent) =
      option_adds-Sends c t name second token buffer d (alnum-NoColon name a)
        (NonZero-of_alnum name a) (NonZero-of_alnum second a') z h l k in
    let received = ap (monitor_parse (some (s, monitor_parser_init p))) sent in
    (
      args,
      e,
      elim (monitor_parse-addition s p token name second t (u16 n / 256) (u16 n % 256) l two sep
          (target-Adds c t second d) a a' z h b (omega arith)) [
            | inl (short, (s', q, parsed, done, tok, method, target, first, snd, sep')) ↦ inl (
              omega arith,
              (s', q, received ∙ parsed, done, tok, method, target, first, snd, sep'),
            )
            | inr (over, parsed) ↦ inr (omega arith, received ∙ parsed)
          ],
    )
