-- ===== src/Auth/Reply.antt =====
-- src/server/auth.c: `auth_marshall`.
use socks_v5_proxy.Prelude.{ltb, lt→ltb, ℕ, ◌≡◌, inl, inr, false, [], ◌∷◌, arith}
use socks_v5_proxy.Buffer.{Buffer, IsValid, room}
use socks_v5_proxy.Buffer.Stores.{
  Marshalls, room-cases, buffer_writes-contents, buffer_write_ptr_lem,
}
use socks_v5_proxy.Auth.{auth_marshall}

-- On a valid buffer `auth_marshall` appends the version and the status and returns 2, or, with room
-- for less than two bytes, changes nothing and returns -1.
pub auth_marshall-Marshalls :
    {b : Buffer} (status : ℕ) → IsValid b → Marshalls b (1 ∷ status ∷ []) (auth_marshall b status)
unfolding auth_marshall
auth_marshall-Marshalls {b} status v = elim (room-cases 2 b) [
  | inl small ↦ inl (small, rw (buffer_write_ptr_lem v, lt→ltb _ _ small))
  | inr enough ↦
      let (b', w, v', q, r) = buffer_writes-contents (1 ∷ status ∷ []) b v enough in
      let test : ltb (room b) 2 ≡ false = ground arith in
      inr (enough, (b', rw (buffer_write_ptr_lem v, test, w), v', q, r))
]
