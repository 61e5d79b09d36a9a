-- ===== src/Request/Reply.antt =====
-- src/server/request.c: the reply, and its status for an `errno`.
use socks_v5_proxy.Prelude.{
  ltb, ◌==◌, if◌then◌else◌, lt→ltb, ℤ, pos, negsuc, ◌>>=◌, ℕ, ◌≡◌, ◌↔◌, inl, inr, false, Option,
  some, List, [], ◌∷◌, arith,
}
use socks_v5_proxy.Buffer.{Buffer, buffer_write_ptr, buffer_write_adv, buffer_fill, IsValid, room}
use socks_v5_proxy.Buffer.Stores.{
  buffer_write_adv-fill, Marshalls, room-cases, buffer_write_ptr_lem,
}
use socks_v5_proxy.Request.{socks_req_addrtype_ipv4}

abbrev pub status_succeeded : ℕ
status_succeeded = 0x00

abbrev pub status_general_socks_server_failure : ℕ
status_general_socks_server_failure = 0x01

abbrev pub status_network_unreachable : ℕ
status_network_unreachable = 0x03

abbrev pub status_host_unreachable : ℕ
status_host_unreachable = 0x04

abbrev pub status_connection_refused : ℕ
status_connection_refused = 0x05

abbrev pub status_ttl_expired : ℕ
status_ttl_expired = 0x06

abbrev pub status_command_not_supported : ℕ
status_command_not_supported = 0x07

abbrev pub status_address_type_not_supported : ℕ
status_address_type_not_supported = 0x08

-- The ten bytes of a reply.
abbrev pub request_reply : ℕ → List ℕ
request_reply status =
    0x05 ∷ status ∷ 0x00 ∷ socks_req_addrtype_ipv4 ∷ 0x00 ∷ 0x00 ∷ 0x00 ∷ 0x00 ∷ 0x00 ∷ 0x00 ∷ []

unfoldable pub request_marshall : Buffer → ℕ → Option (ℤ × Buffer)
request_marshall b status = do
  (ptr, n) ← buffer_write_ptr b
  if ltb n 10 then some (negsuc 0, b) else (do
    b' ← buffer_write_adv (buffer_fill b (request_reply status)) (pos 10)
    some (pos 10, b'))

-- The values of the platform's `errno.h` that the `switch` names.
pub record Errno : Type 0 where
  pub econnrefused : ℕ
  pub ehostunreach : ℕ
  pub enetunreach : ℕ
  pub etimedout : ℕ

unfoldable pub errno_to_socks : Errno → ℕ → ℕ
errno_to_socks os e =
    if e == 0
    then status_succeeded
    else if e == os.econnrefused
    then status_connection_refused
    else if e == os.ehostunreach
    then status_host_unreachable
    else if e == os.enetunreach
    then status_network_unreachable
    else if e == os.etimedout
    then status_ttl_expired
    else status_general_socks_server_failure

-- On a valid buffer `request_marshall` appends the ten bytes of the reply and returns 10, or, with
-- less room, changes nothing and returns -1.
pub request_marshall-Marshalls :
    {b : Buffer} (status : ℕ)
    → IsValid b
    → Marshalls b (request_reply status) (request_marshall b status)
unfolding request_marshall
request_marshall-Marshalls {b} status v = elim (room-cases 10 b) [
  | inl small ↦ inl (small, rw (buffer_write_ptr_lem v, lt→ltb _ _ small))
  | inr enough ↦
      let (b', w, v', q, r) = buffer_write_adv-fill (request_reply status) v enough in
      let test : ltb (room b) 10 ≡ false = ground arith in
      inr (enough, (b', rw (buffer_write_ptr_lem v, test, w), v', q, r))
]

-- Whatever values the platform gives the four errors, the status is a success exactly for `errno` 0.
pub errno_to_socks-success :
    (os : Errno) (e : ℕ) → (errno_to_socks os e ≡ status_succeeded) ↔ (e ≡ 0)
unfolding errno_to_socks
errno_to_socks-success os e = ground arith
