-- ===== src/Monitor/Reply.antt =====
-- src/server/monitor.c: the replies.
use socks_v5_proxy.Prelude.{
  ltb, if◌then◌else◌, lt→ltb, length, take, u16, u32, ℤ, pos, negsuc, ◌>>=◌, ℕ, ◌+◌, ◌*◌, ◌/◌, ◌%◌,
  ◌<◌, ◌≡◌, inl, inr, false, Option, some, List, [], ◌∷◌, ◌++◌, arith,
}
use socks_v5_proxy.Buffer.{Buffer, buffer_write_ptr, buffer_writes, IsValid, room}
use socks_v5_proxy.Buffer.Stores.{
  Marshalls, room-cases, buffer_writes-contents, buffer_write_ptr_lem,
}
use socks_v5_proxy.Monitor.Types.{
  MonitorState, monitor_error_unsupported_version, monitor_error_invalid_token,
  monitor_error_unsupported_method, monitor_error_unsupported_target, monitor_error_invalid_data,
}

-- `enum monitor_response_status`
abbrev pub monitor_status_succeeded : ℕ
monitor_status_succeeded = 0x00

abbrev pub monitor_status_invalid_version : ℕ
monitor_status_invalid_version = 0x01

abbrev pub monitor_status_invalid_method : ℕ
monitor_status_invalid_method = 0x02

abbrev pub monitor_status_invalid_target : ℕ
monitor_status_invalid_target = 0x03

abbrev pub monitor_status_invalid_data : ℕ
monitor_status_invalid_data = 0x04

abbrev pub monitor_status_error_auth : ℕ
monitor_status_error_auth = 0x05

abbrev pub monitor_status_server_error : ℕ
monitor_status_server_error = 0x06

-- The `switch` of `monitor_error_marshall`; the last clause is `default`.
abbrev pub error_status : MonitorState → ℕ
error_status monitor_error_unsupported_version = monitor_status_invalid_version
error_status monitor_error_invalid_token = monitor_status_error_auth
error_status monitor_error_unsupported_method = monitor_status_invalid_method
error_status monitor_error_unsupported_target = monitor_status_invalid_target
error_status monitor_error_invalid_data = monitor_status_invalid_data
error_status _ = monitor_status_server_error

-- The two bytes of `htons(n)`.
abbrev pub network_short : ℕ → List ℕ
network_short n = u16 n / 256 ∷ u16 n % 256 ∷ []

-- The four bytes of `htonl(n)`.
abbrev pub network_long : ℕ → List ℕ
network_long n = u32 n / 16777216 ∷ (u32 n / 65536) % 256 ∷ (u32 n / 256) % 256 ∷ u32 n % 256 ∷ []

unfoldable pub monitor_error_marshall : Buffer → MonitorState → Option (ℤ × Buffer)
monitor_error_marshall b st = do
  (ptr, n) ← buffer_write_ptr b
  if ltb n 4 then some (negsuc 0, b) else (do
    b' ← buffer_writes b (error_status st ∷ (network_short 1 ++ 0 ∷ []))
    some (pos 4, b'))

-- The `data` argument of `monitor_marshall`: a number where `numeric_data` is set, else NULL or bytes.
pub data Payload : Type 0 where
  number : ℕ → Payload
  null : Payload
  bytes_of : List ℕ → Payload

-- What is written of it: all of a number, one 0 for NULL, and `dlen` of the bytes.
abbrev pub payload_bytes : Payload → ℕ → List ℕ
payload_bytes (number n) dlen = network_long n
payload_bytes null dlen = 0 ∷ []
payload_bytes (bytes_of bs) dlen = take dlen bs

unfoldable pub monitor_marshall : Buffer → ℕ → ℕ → Payload → Option (ℤ × Buffer)
monitor_marshall b status dlen payload = do
  (ptr, n) ← buffer_write_ptr b
  if ltb n (dlen + 3) then some (negsuc 0, b) else (do
    b' ← buffer_writes b (status ∷ (network_short dlen ++ payload_bytes payload dlen))
    some (pos (dlen + 3), b'))

-- The reply to a request that could not be parsed: a status for each error, a length of 1, a 0. With
-- room for less than four bytes nothing is written and -1 is returned.
monitor_error_marshall-Marshalls :
    {b : Buffer} (st : MonitorState)
    → IsValid b
    → Marshalls b (error_status st ∷ 0 ∷ 1 ∷ 0 ∷ []) (monitor_error_marshall b st)
unfolding monitor_error_marshall
monitor_error_marshall-Marshalls {b} st v = elim (room-cases 4 b) [
  | inl small ↦ inl (small, rw (buffer_write_ptr_lem v, lt→ltb _ _ small))
  | inr enough ↦
      let (b', w, v', q, r) =
        buffer_writes-contents (error_status st ∷ 0 ∷ 1 ∷ 0 ∷ []) b v enough in
      let test : ltb (room b) 4 ≡ false = ground arith in
      inr (enough, (b', rw (buffer_write_ptr_lem v, test, w), v', q, r))
]

-- Where `dlen` is the length of what is written of the data, `monitor_marshall` appends the status,
-- the length in network order and the data, and returns their number; with less room nothing is
-- written and -1 is returned. The length that is sent reads back as `dlen`.
pub monitor_marshall-Marshalls :
    {b : Buffer} (status dlen : ℕ) (payload : Payload)
    → IsValid b
    → dlen < 65536
    → length (payload_bytes payload dlen) ≡ dlen
    → Marshalls b
        (status ∷ (network_short dlen ++ payload_bytes payload dlen))
        (monitor_marshall b status dlen payload)
      × ((dlen / 256) * 256 + dlen % 256 ≡ dlen)
unfolding monitor_marshall
monitor_marshall-Marshalls {b} status dlen payload v l e =
    let reply : List ℕ = status ∷ (network_short dlen ++ payload_bytes payload dlen) in
    let n : dlen + 3 ≡ length reply = omega arith in
    (
      elim (room-cases (length reply) b) [
        | inl small ↦ inl (small, rw (buffer_write_ptr_lem v, n, lt→ltb _ _ small))
        | inr enough ↦
            let (b', w, v', q, r) = buffer_writes-contents reply b v enough in
            let test : ltb (room b) (length reply) ≡ false = ground arith in
            inr (enough, (b', rw (buffer_write_ptr_lem v, n, test, w), v', q, r))
      ],
      omega arith,
    )
