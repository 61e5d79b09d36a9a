-- ===== src/Hello/Methods.antt =====
-- src/server/hello.c: what the parser makes of a whole greeting, with the callback of
-- src/server/socks5nio.c.
use socks_v5_proxy.Buffer.{Buffer, IsValid, contents}
use socks_v5_proxy.Consume.Stream.{Agrees, parse-more, parse-stop, consume-Agrees_of_parse}
use socks_v5_proxy.Prelude.{
  ◌==◌, if◌then◌else◌, length, ℕ, suc, ◌<◌, ◌≡◌, refl, ap, ◌∙◌, Bool, true, false, ◌||◌, some, List,
  [], ◌∷◌, ◌++◌, arith,
}
use socks_v5_proxy.Consume.{parse}
use socks_v5_proxy.Hello.{
  HelloState, hello_nmethods, hello_methods, hello_done, HelloParser, no_authentication_required,
  username_password, no_acceptable_methods, hello_parser_init, hello_parser_feed, hello_is_done,
  hello_is_error, hello_consume, on_hello_method,
}

-- RFC 1928: version, number of methods, methods.
abbrev pub greeting : List ℕ → List ℕ
greeting methods = 0x05 ∷ length methods ∷ methods

abbrev pub hello_parse : HelloParser → List ℕ → HelloParser × Bool × List ℕ
hello_parse p = parse hello_parser_feed (λ q. q.state) hello_is_done hello_is_error p false

abbrev pub contains : List ℕ → ℕ → Bool
contains [] m = false
contains (x ∷ xs) m = x == m || contains xs m

-- The one method that the proxy accepts.
abbrev pub required_method : Bool → ℕ
required_method is_auth_on = if is_auth_on then username_password else no_authentication_required

-- The method that the greeting should select, over a default.
abbrev pub selection : Bool → ℕ → List ℕ → ℕ
selection is_auth_on default methods =
    if contains methods (required_method is_auth_on) then required_method is_auth_on else default

abbrev hello_more :
    (p p' : HelloParser) (c : ℕ) (cs : List ℕ)
    → hello_parser_feed p c ≡ p'
    → hello_is_done p'.state ≡ false
    → hello_is_error p'.state ≡ false
    → hello_parse p (c ∷ cs) ≡ hello_parse p' cs
hello_more = parse-more hello_parser_feed (λ q. q.state) hello_is_done hello_is_error

abbrev hello_stop :
    (p p' : HelloParser) (c : ℕ) (cs : List ℕ)
    → hello_parser_feed p c ≡ p'
    → hello_is_done p'.state ≡ true
    → hello_parse p (c ∷ cs) ≡ (p', hello_is_error p'.state, cs)
hello_stop = parse-stop hello_parser_feed (λ q. q.state) hello_is_done hello_is_error

-- A parser with the proxy's callback, in a given state.
abbrev pub choosing : Bool → ℕ → HelloState → ℕ → HelloParser
choosing is_auth_on sel st left = record {
  on_authentication_method = some (on_hello_method is_auth_on);
  selected = sel;
  state = st;
  remaining = left;
}

selection-cons :
    (is_auth_on : Bool) (sel m : ℕ) (ms : List ℕ)
    → selection is_auth_on (on_hello_method is_auth_on sel m) ms ≡ selection is_auth_on sel (m ∷ ms)
unfolding on_hello_method
selection-cons true sel m ms = ground arith
selection-cons false sel m ms = ground arith

-- The methods one by one, the counter going down to `hello_done`.
hello_methods-parse :
    (a : Bool) (m : ℕ) (ms rest : List ℕ) (sel : ℕ)
    → length ms < 255
    → hello_parse (choosing a sel hello_methods (suc (length ms))) (m ∷ (ms ++ rest))
      ≡ (choosing a (selection a sel (m ∷ ms)) hello_done 0, false, rest)
unfolding hello_parser_feed hello_is_done hello_is_error
hello_methods-parse a m [] rest sel h =
    hello_stop _ (choosing a (on_hello_method a sel m) hello_done 0) m rest refl refl
    ∙ ap (λ k. (choosing a k hello_done 0, false, rest)) (selection-cons a sel m [])
hello_methods-parse a m (x ∷ xs) rest sel h =
    hello_more _ (choosing a (on_hello_method a sel m) hello_methods (suc (length xs))) m
      (x ∷ (xs ++ rest)) (ground arith) refl refl
    ∙ hello_methods-parse a x xs rest (on_hello_method a sel m) (omega arith)
    ∙ ap (λ k. (choosing a k hello_done 0, false, rest)) (selection-cons a sel m (x ∷ xs))

-- A whole greeting, followed by any bytes, leaves the parser done and without error, exactly the
-- greeting is taken, and the method selected is the required one if the client offered it and 0xFF
-- if not.
pub hello_parse-greeting :
    (a : Bool) (methods rest : List ℕ) (p : HelloParser)
    → length methods < 256
    → hello_parse
        (hello_parser_init (record p {
          on_authentication_method = some (on_hello_method a);
          selected = no_acceptable_methods;
        }))
        (greeting methods ++ rest)
      ≡ (choosing a (selection a no_acceptable_methods methods) hello_done 0, false, rest)
unfolding hello_parser_init hello_parser_feed hello_is_done hello_is_error
hello_parse-greeting a [] rest p h =
    hello_more _ (choosing a no_acceptable_methods hello_nmethods 0) 5 (0 ∷ rest) refl refl refl
    ∙ hello_stop _ (choosing a no_acceptable_methods hello_done 0) 0 rest refl refl
hello_parse-greeting a (m ∷ ms) rest p h =
    hello_more _ (choosing a no_acceptable_methods hello_nmethods 0) 5 _ refl refl refl
    ∙ hello_more _ (choosing a no_acceptable_methods hello_methods (suc (length ms)))
        (suc (length ms)) _ (ground arith) refl refl
    ∙ hello_methods-parse a m ms rest no_acceptable_methods (omega arith)

-- `hello_consume` on a valid buffer that holds a whole greeting and any bytes behind it ends
-- without an abort: the parser is done with no error, the required method is selected exactly if the
-- client offered it and 0xFF otherwise, and the bytes behind the greeting stay queued.
hello_consume-greeting :
    (a : Bool) (methods rest : List ℕ) (p : HelloParser) (b : Buffer)
    → IsValid b
    → length methods < 256
    → contents b ≡ greeting methods ++ rest
    → Agrees
        (choosing a (selection a no_acceptable_methods methods) hello_done 0, false, rest)
        (hello_consume b
          (hello_parser_init (record p {
            on_authentication_method = some (on_hello_method a);
            selected = no_acceptable_methods;
          }))
          false)
unfolding hello_consume
hello_consume-greeting a methods rest p b v h q =
    consume-Agrees_of_parse hello_parser_feed (λ q. q.state) hello_is_done hello_is_error b _ false
      _ _ v q (hello_parse-greeting a methods rest p h)
