-- ===== src/Auth/Credentials.antt =====
-- src/server/auth.c: what the parser makes of a whole request, and that it stays inside its arrays.
use socks_v5_proxy.Buffer.{Buffer, IsValid, contents}
use socks_v5_proxy.Prelude.{
  length, set, replicate, overwrite, overwrite-replicate, ℕ, suc, ◌+◌, ◌-◌, ◌<◌, ◌≡◌, refl, ap, ap₂,
  ◌∙◌, Bool, true, false, List, [], ◌∷◌, ◌++◌, append_assoc, arith,
}
use socks_v5_proxy.Consume.{parse}
use socks_v5_proxy.Consume.Stream.{Agrees, parse-more, parse-stop, consume-Agrees_of_parse}
use socks_v5_proxy.Auth.{
  AuthState, auth_ulen, auth_uname, auth_plen, auth_passwd, auth_done, AuthParser, auth_parser_init,
  auth_parser_feed, auth_is_done, auth_is_error, auth_consume,
}

-- RFC 1929: version, length of the name, name, length of the password, password.
abbrev pub credentials : List ℕ → List ℕ → List ℕ
credentials name pass = 0x01 ∷ length name ∷ (name ++ length pass ∷ pass)

abbrev pub auth_parse : AuthParser → List ℕ → AuthParser × Bool × List ℕ
auth_parse p = parse auth_parser_feed (λ q. q.state) auth_is_done auth_is_error p false

abbrev pub auth_more :
    (p p' : AuthParser) (c : ℕ) (cs : List ℕ)
    → auth_parser_feed p c ≡ p'
    → auth_is_done p'.state ≡ false
    → auth_is_error p'.state ≡ false
    → auth_parse p (c ∷ cs) ≡ auth_parse p' cs
auth_more = parse-more auth_parser_feed (λ q. q.state) auth_is_done auth_is_error

abbrev pub auth_stop :
    (p p' : AuthParser) (c : ℕ) (cs : List ℕ)
    → auth_parser_feed p c ≡ p'
    → auth_is_done p'.state ≡ true
    → auth_parse p (c ∷ cs) ≡ (p', auth_is_error p'.state, cs)
auth_stop = parse-stop auth_parser_feed (λ q. q.state) auth_is_done auth_is_error

abbrev pub at : List ℕ → List ℕ → AuthState → ℕ → ℕ → AuthParser
at name pass st n k = record { uname = name; passwd = pass; state = st; len = n; i = k }

-- The bytes of the name one by one, from index `k` on, to the last of them.
uname-parse :
    (name pass : List ℕ) (n k : ℕ) (c : ℕ) (cs rest : List ℕ)
    → n < 256
    → k + suc (length cs) ≡ n
    → auth_parse (at name pass auth_uname n k) (c ∷ (cs ++ rest))
      ≡ auth_parse (at (overwrite name k (c ∷ cs)) pass auth_plen n n) rest
unfolding auth_parser_feed auth_is_done auth_is_error overwrite
uname-parse name pass n k c [] rest h e =
    auth_more _ (at (set name k c) pass auth_plen n n) c rest (ground arith) refl refl
uname-parse name pass n k c (x ∷ xs) rest h e =
    auth_more _ (at (set name k c) pass auth_uname n (suc k)) c (x ∷ (xs ++ rest)) (ground arith)
      refl refl
    ∙ uname-parse (set name k c) pass n (suc k) x xs rest h (omega arith)

passwd-parse :
    (name pass : List ℕ) (n k : ℕ) (c : ℕ) (cs rest : List ℕ)
    → n < 256
    → k + suc (length cs) ≡ n
    → auth_parse (at name pass auth_passwd n k) (c ∷ (cs ++ rest))
      ≡ (at name (overwrite pass k (c ∷ cs)) auth_done n n, false, rest)
unfolding auth_parser_feed auth_is_done auth_is_error overwrite
passwd-parse name pass n k c [] rest h e =
    auth_stop _ (at name (set pass k c) auth_done n n) c rest (ground arith) refl
passwd-parse name pass n k c (x ∷ xs) rest h e =
    auth_more _ (at name (set pass k c) auth_passwd n (suc k)) c (x ∷ (xs ++ rest)) (ground arith)
      refl refl
    ∙ passwd-parse name (set pass k c) n (suc k) x xs rest h (omega arith)

-- An array of 255 bytes that holds the given ones, and zeros behind them.
abbrev pub padded : List ℕ → List ℕ
padded xs = xs ++ replicate (255 - length xs) 0

-- A whole request with a name and a password of 1 to 255 bytes, followed by any bytes, is parsed to
-- the end without error: the arrays hold the name and the password padded with zeros, and the bytes
-- behind the request are left.
pub auth_parse-credentials :
    (name pass rest : List ℕ) (p : AuthParser)
    → 0 < length name
    → length name < 256
    → 0 < length pass
    → length pass < 256
    → auth_parse (auth_parser_init p) (credentials name pass ++ rest)
      ≡ (at (padded name) (padded pass) auth_done (length pass) (length pass), false, rest)
unfolding auth_parser_init auth_parser_feed auth_is_done auth_is_error
auth_parse-credentials [] pass rest p a b c d = absurd (omega arith)
auth_parse-credentials (x ∷ xs) [] rest p a b c d = absurd (omega arith)
auth_parse-credentials (x ∷ xs) (y ∷ ys) rest p a b c d =
    let zeros : List ℕ = replicate 255 0 in
    let n : ℕ = suc (length xs) in
    let m : ℕ = suc (length ys) in
    auth_more _ (at zeros zeros auth_ulen p.len p.i) 1 _ refl refl refl
    ∙ auth_more _ (at zeros zeros auth_uname n 0) n _ (ground arith) refl refl
    ∙ ap (λ l. auth_parse (at zeros zeros auth_uname n 0) (x ∷ l))
        (append_assoc xs (m ∷ y ∷ ys) rest)
    ∙ uname-parse zeros zeros n 0 x xs (m ∷ y ∷ (ys ++ rest)) b (omega arith)
    ∙ auth_more _ (at (overwrite zeros 0 (x ∷ xs)) zeros auth_passwd m 0) m _ (ground arith) refl
        refl
    ∙ passwd-parse (overwrite zeros 0 (x ∷ xs)) zeros m 0 y ys rest d (omega arith)
    ∙ ap₂ (λ u v. (at u v auth_done m m, false, rest))
        (overwrite-replicate 255 (x ∷ xs) (omega arith))
        (overwrite-replicate 255 (y ∷ ys) (omega arith))

-- `auth_consume` on a valid buffer that holds a whole request, with a name and a password of 1 to 255
-- bytes, and any bytes behind it, ends without an abort or an error: the arrays hold the name and the
-- password padded with zeros, and the bytes behind the request stay queued.
auth_consume-credentials :
    (name pass rest : List ℕ) (p : AuthParser) (b : Buffer)
    → IsValid b
    → 0 < length name
    → length name < 256
    → 0 < length pass
    → length pass < 256
    → contents b ≡ credentials name pass ++ rest
    → Agrees
        (at (padded name) (padded pass) auth_done (length pass) (length pass), false, rest)
        (auth_consume b (auth_parser_init p) false)
unfolding auth_consume
auth_consume-credentials name pass rest p b v h1 h2 h3 h4 q =
    consume-Agrees_of_parse auth_parser_feed (λ q. q.state) auth_is_done auth_is_error b _ false _ _
      v q (auth_parse-credentials name pass rest p h1 h2 h3 h4)
