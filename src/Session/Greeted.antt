-- ===== src/Session/Greeted.antt =====
-- src/server/socks5nio.c: the greeting of a client, from its bytes to the answer.

use socks_v5_proxy.Selector.{FdSelector}
use socks_v5_proxy.Prelude.{
  length, ℕ, ◌-◌, ◌≤◌, ◌<◌, ◌≡◌, refl, ap, ◌∙◌, inl, inr, Bool, true, false, Option, some, List, [],
  ◌∷◌, ◌++◌, arith,
}
use socks_v5_proxy.Buffer.{Buffer, IsValid, contents, room}
use socks_v5_proxy.Consume.{parse}
use socks_v5_proxy.Consume.Stream.{Agrees, parse-resumed, consume-Agrees_of_parse}
use socks_v5_proxy.Hello.{
  hello_done, HelloParser, no_acceptable_methods, hello_parser_init, hello_parser_feed,
  hello_is_done, hello_is_error, hello_consume, on_hello_method,
}
use socks_v5_proxy.Hello.Methods.{greeting, hello_parse, selection, choosing, hello_parse-greeting}
use socks_v5_proxy.Hello.Reply.{hello_marshall-Marshalls}
use socks_v5_proxy.Selector.Consistency.{IsConsistent}
use socks_v5_proxy.Selector.Interests.{IsUsed, selector_set_interest-IsUsed}
use socks_v5_proxy.Session.{hello_write_state, World, op_write_only, set_interest, receive}
use socks_v5_proxy.Session.Greeting.{hello_process, with_callback, hello_read}
use socks_v5_proxy.Session.Streams.{arriving, receive-cases}

-- With room for the answer `hello_process` appends it.
hello_process-answered :
    (w : World)
    → IsValid w.conn.write_buffer
    → 2 ≤ room w.conn.write_buffer
    → (b : Buffer) × (hello_process w
        ≡ some (hello_write_state, record w { conn = record (w.conn) { write_buffer = b } }))
      × IsValid b
      × (contents b ≡ contents w.conn.write_buffer ++ 5 ∷ w.conn.hello.selected ∷ [])
      × (room b ≡ room w.conn.write_buffer - 2)
unfolding hello_process
hello_process-answered w v r = elim (hello_marshall-Marshalls w.conn.hello.selected v) [
  | inl (small, _) ↦ absurd (omega arith)
  | inr (_, (b, run, v', q, left)) ↦ (b, rw (hello_process, run) refl, v', q, left)
]

-- The method that the server answers to a list of methods.
abbrev pub answered : Bool → List ℕ → ℕ
answered is_auth_on methods = selection is_auth_on no_acceptable_methods methods

abbrev pub parsed : Bool → List ℕ → HelloParser
parsed is_auth_on methods = choosing is_auth_on (answered is_auth_on methods) hello_done 0

-- A greeting that is answered, with what is left of it.
abbrev pub Greets : World → List ℕ → List ℕ → Option (ℕ × World) → Type 0
Greets w methods rest result =
    (sel : FdSelector ℕ ℕ) × (rb : Buffer) × (wb : Buffer) × (result
      ≡ some (
        hello_write_state,
        record w {
          conn = record (w.conn) {
            read_buffer = rb;
            hello = parsed w.is_auth_on methods;
            write_buffer = wb;
          };
          selector = sel;
        },
      ))
    × IsConsistent sel
    × ((k : ℕ) → IsUsed w.selector k → IsUsed sel k)
    × IsValid rb
    × (contents rb ≡ rest)
    × IsValid wb
    × (contents wb ≡ contents w.conn.write_buffer ++ 5 ∷ answered w.is_auth_on methods ∷ [])
    × (room wb ≡ room w.conn.write_buffer - 2)

hello_read-parsed :
    (w : World) (methods rest : List ℕ) (b : Buffer)
    → receive w.os w.conn.read_buffer ≡ some (some b)
    → Agrees (parsed w.is_auth_on methods, false, rest) (hello_consume b (with_callback w) false)
    → IsConsistent w.selector
    → IsUsed w.selector w.fd
    → IsValid w.conn.write_buffer
    → 2 ≤ room w.conn.write_buffer
    → Greets w methods rest (hello_read w)
unfolding hello_read hello_is_done set_interest
hello_read-parsed w methods rest b got (rb, consumed, rv, left) c u v r =
    let (sel, set_, agreed, kept) =
      selector_set_interest-IsUsed w.selector w.fd op_write_only c u in
    let w1 : World = record w {
      conn = record (w.conn) { read_buffer = rb; hello = parsed w.is_auth_on methods };
      selector = sel;
    } in
    let (wb, run, wv, q, size) = hello_process-answered w1 v r in
    (
      sel,
      rb,
      wb,
      rw (hello_read, got, consumed, hello_is_done, set_interest, set_) (rw run refl),
      agreed,
      kept,
      rv,
      left,
      wv,
      q,
      size,
    )

-- The parser as `hello_read_init` sets it up, with the callback for the setting.
abbrev pub greeted : Bool → HelloParser → HelloParser
greeted is_auth_on p = hello_parser_init (record p {
  on_authentication_method = some (on_hello_method is_auth_on);
  selected = no_acceptable_methods;
})

-- A parser that is not done yet needs more bytes to be.
unfinished :
    (p q : HelloParser) (rest : List ℕ)
    → hello_parse p [] ≡ (q, false, rest)
    → hello_is_done p.state ≡ false
    → hello_is_done q.state ≡ true
    → ⊥
unfolding parse
unfinished p q rest e n d =
    let same : p ≡ q = ap (λ t. t.0) e in let clash = rw (same, d) at n in cc

-- The event that receives the last byte of a client's greeting, wherever the events before have cut it, answers it.
pub hello_read-Greets :
    (w : World) (p : HelloParser) (methods before rest : List ℕ)
    → length methods < 256
    → IsConsistent w.selector
    → IsUsed w.selector w.fd
    → IsValid w.conn.write_buffer
    → 2 ≤ room w.conn.write_buffer
    → IsValid w.conn.read_buffer
    → contents w.conn.read_buffer ≡ []
    → hello_parse (greeted w.is_auth_on p) before ≡ (with_callback w, false, [])
    → hello_is_done w.conn.hello.state ≡ false
    → before ++ arriving w.os w.conn.read_buffer ≡ greeting methods ++ rest
    → Greets w methods rest (hello_read w)
unfolding hello_consume hello_is_done
hello_read-Greets w p methods before rest h c u wv r rv empty cut open_ whole =
    let arrived = arriving w.os w.conn.read_buffer in
    let last : hello_parse (with_callback w) arrived ≡ (parsed w.is_auth_on methods, false, rest) =
      parse-resumed hello_parser_feed (λ q. q.state) hello_is_done hello_is_error
        (greeted w.is_auth_on p) (with_callback w) false before arrived cut open_
      ∙ ap (hello_parse (greeted w.is_auth_on p)) whole
      ∙ hello_parse-greeting w.is_auth_on methods rest p h in
    elim (receive-cases w.os w.conn.read_buffer rv) [
      | inl (e, _) ↦ absurd (
          unfinished (with_callback w) (parsed w.is_auth_on methods) rest (rw e at last) open_ refl)
      | inr (b, got, bv, q) ↦
          let consumed =
            consume-Agrees_of_parse hello_parser_feed (λ q. q.state) hello_is_done hello_is_error b
              (with_callback w) false arrived (parsed w.is_auth_on methods, false, rest) bv
              (rw empty at q) last in
          hello_read-parsed w methods rest b got consumed c u wv r
    ]
