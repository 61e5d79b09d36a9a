-- ===== src/Hello/Reply.antt =====
-- src/server/hello.c: `hello_marshall`.
use socks_v5_proxy.Prelude.{ltb, lt→ltb, ℕ, ◌≡◌, inl, inr, false, [], ◌∷◌, arith}
use socks_v5_proxy.Buffer.{Buffer, IsValid, room}
use socks_v5_proxy.Buffer.Stores.{
  buffer_write_adv-fill, Marshalls, room-cases, buffer_write_ptr_lem,
}
use socks_v5_proxy.Hello.{hello_marshall}

-- On a valid buffer `hello_marshall` appends the version and the method and returns 2, or, with room
-- for less than two bytes, changes nothing and returns -1.
pub hello_marshall-Marshalls :
    {b : Buffer} (method : ℕ) → IsValid b → Marshalls b (5 ∷ method ∷ []) (hello_marshall b method)
unfolding hello_marshall
hello_marshall-Marshalls {b} method v = elim (room-cases 2 b) [
  | inl small ↦ inl (small, rw (buffer_write_ptr_lem v, lt→ltb _ _ small))
  | inr enough ↦
      let (b', w, v', q, r) = buffer_write_adv-fill (5 ∷ method ∷ []) v enough in
      let test : ltb (room b) 2 ≡ false = ground arith in
      inr (enough, (b', rw (buffer_write_ptr_lem v, test, w), v', q, r))
]
