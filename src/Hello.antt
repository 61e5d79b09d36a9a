-- ===== src/Hello.antt =====
-- src/server/hello.c and src/include/hello.h: the parser of the client's greeting and the reply.
-- The callback and the `data` pointer of `struct hello_parser` are kept together: the callback takes
-- the byte that `data` points to and a method, and gives the byte's new value.
pub mod Methods
pub mod Reply
use socks_v5_proxy.Prelude.{
  ltb, ◌==◌, if◌then◌else◌, u8, ℤ, pos, negsuc, ◌>>=◌, ℕ, ◌+◌, Bool, true, false, not, ◌&&◌, ◌||◌,
  Option, none, some, [], ◌∷◌,
}
use socks_v5_proxy.Buffer.{Buffer, buffer_write_ptr, buffer_write_adv, buffer_fill}
use socks_v5_proxy.Consume.{Consumed, consume}

pub data HelloState : Type 0 where
  hello_version hello_nmethods hello_methods hello_done hello_error_unsupported_version : HelloState

pub record HelloParser : Type 0 where
  pub on_authentication_method : Option (ℕ → ℕ → ℕ)
  pub selected : ℕ
  pub state : HelloState
  pub remaining : ℕ

abbrev pub no_authentication_required : ℕ
no_authentication_required = 0x00

abbrev pub username_password : ℕ
username_password = 0x02

abbrev pub no_acceptable_methods : ℕ
no_acceptable_methods = 0xFF

unfoldable pub hello_parser_init : HelloParser → HelloParser
hello_parser_init p = record p { state = hello_version; remaining = 0 }

-- `p->on_authentication_method(p, b)` where the pointer is not NULL.
call_method : Option (ℕ → ℕ → ℕ) → ℕ → ℕ → ℕ
call_method none sel b = sel
call_method (some f) sel b = f sel b

-- The `switch` on `p->state`. `remaining` is positive in `hello_methods`, but the wrap is written out.
hello_feed_in : HelloState → HelloParser → ℕ → HelloParser
unfolding call_method
hello_feed_in hello_version p b = record p {
  state = if b == 0x05 then hello_nmethods else hello_error_unsupported_version;
}
hello_feed_in hello_nmethods p b = record p {
  remaining = b;
  state = if b == 0 then hello_done else hello_methods;
}
hello_feed_in hello_methods p b =
    let left : ℕ = u8 (p.remaining + 255) in
    record p {
      selected = call_method p.on_authentication_method p.selected b;
      remaining = left;
      state = if left == 0 then hello_done else p.state;
    }
hello_feed_in hello_done p b = p
hello_feed_in hello_error_unsupported_version p b = p

unfoldable pub hello_parser_feed : HelloParser → ℕ → HelloParser
unfolding hello_feed_in
hello_parser_feed p b = hello_feed_in p.state p b

-- What `hello_is_done` returns, and the condition under which it sets `*errored`.
unfoldable pub hello_is_done : HelloState → Bool
hello_is_done hello_error_unsupported_version = true
hello_is_done hello_done = true
hello_is_done _ = false

unfoldable pub hello_is_error : HelloState → Bool
hello_is_error hello_error_unsupported_version = true
hello_is_error _ = false

-- The result is the parser's state; `none` is an abort.
unfoldable pub hello_consume : Buffer → HelloParser → Bool → Option (Consumed HelloParser)
hello_consume = consume hello_parser_feed (λ p. p.state) hello_is_done hello_is_error

unfoldable pub hello_marshall : Buffer → ℕ → Option (ℤ × Buffer)
hello_marshall b method = do
  (ptr, n) ← buffer_write_ptr b
  if ltb n 2
      then some (negsuc 0, b)
      else (do b' ← buffer_write_adv (buffer_fill b (0x05 ∷ method ∷ [])) (pos 2); some (pos 2, b'))

-- `on_hello_method` of src/server/socks5nio.c, with the global `is_auth_on` as its first argument.
unfoldable pub on_hello_method : Bool → ℕ → ℕ → ℕ
on_hello_method is_auth_on selected method =
    if (not is_auth_on && method == no_authentication_required)
      || (is_auth_on && method == username_password)
    then method
    else selected
