-- ===== src/Auth/Bounds.antt =====
-- src/server/auth.c: no byte that a client sends makes the parser store outside its arrays, and how
-- it answers what RFC 1929 does not allow.
use socks_v5_proxy.Prelude.{
  length, replicate, length-set, All, IsByte, ℕ, ◌<◌, ◌≡◌, refl, ◌∙◌, ◌≢◌, ◌⊎◌, true, false, List,
  [], ◌∷◌, arith,
}
use socks_v5_proxy.Consume.Invariant.{parse-Invariant}
use socks_v5_proxy.Auth.{
  AuthState, auth_version, auth_ulen, auth_uname, auth_plen, auth_passwd,
  auth_error_unsupported_version, AuthParser, auth_parser_init, auth_parser_feed, auth_is_done,
  auth_is_error,
}
use socks_v5_proxy.Auth.Credentials.{auth_parse, auth_more, auth_stop, at, padded}

-- In the two states that store a byte the index is inside the array.
pub record InBounds (p : AuthParser) : Type 0 where
  pub uname_size : length p.uname ≡ 255
  pub passwd_size : length p.passwd ≡ 255
  pub uname_index : p.state ≡ auth_uname → (p.i < 255) × (p.len < 256) × ((p.i < p.len) ⊎ (p.i ≡ 0))
  pub passwd_index :
      p.state ≡ auth_passwd → (p.i < 255) × (p.len < 256) × ((p.i < p.len) ⊎ (p.i ≡ 0))

pub auth_parser_init-InBounds : (p : AuthParser) → InBounds (auth_parser_init p)
unfolding auth_parser_init
auth_parser_init-InBounds p = ground arith

feed_in-InBounds :
    (st : AuthState) (p : AuthParser) (c : ℕ)
    → st ≡ p.state
    → IsByte c
    → InBounds p
    → InBounds (auth_parser_feed p c)
unfolding auth_parser_feed
feed_in-InBounds auth_version p c e a h =
    ground (arith, length-set p.uname p.i c, length-set p.passwd p.i c)
feed_in-InBounds _ p c e a h = ground (arith, length-set p.uname p.i c, length-set p.passwd p.i c)

-- Whatever bytes arrive, in whatever portions, every index that the parser stores at is inside the
-- array that it stores to.
auth_parse-InBounds :
    (p : AuthParser) (cs : List ℕ) → All IsByte cs → InBounds (auth_parse (auth_parser_init p) cs).0
auth_parse-InBounds p cs a =
    parse-Invariant auth_parser_feed (λ q. q.state) auth_is_done auth_is_error InBounds
      (λ q c b h. feed_in-InBounds q.state q c refl b h) (auth_parser_init p) false cs a
      (auth_parser_init-InBounds p)

-- A version other than 1 ends the parse with the error flag, at that byte.
pub auth_parse-bad_version :
    (p : AuthParser) (c : ℕ) (rest : List ℕ)
    → c ≢ 1
    → (q : AuthParser) × (auth_parse (auth_parser_init p) (c ∷ rest) ≡ (q, true, rest))
      × (q.state ≡ auth_error_unsupported_version)
unfolding auth_parser_init auth_parser_feed auth_is_done auth_is_error
auth_parse-bad_version p c rest h = (
  at (replicate 255 0) (replicate 255 0) auth_error_unsupported_version p.len p.i,
  auth_stop _ (at (replicate 255 0) (replicate 255 0) auth_error_unsupported_version p.len p.i) c
      rest (ground arith) refl,
  refl,
)

-- A name of length 0 is not read as empty: the byte behind the length is stored as the name, and the
-- byte behind that is taken for the length of the password.
auth_parse-empty_name :
    (p : AuthParser) (c : ℕ) (rest : List ℕ)
    → auth_parse (auth_parser_init p) (1 ∷ 0 ∷ c ∷ rest)
      ≡ auth_parse (at (padded (c ∷ [])) (replicate 255 0) auth_plen 0 1) rest
unfolding auth_parser_init auth_parser_feed auth_is_done auth_is_error
auth_parse-empty_name p c rest =
    auth_more _ (at (replicate 255 0) (replicate 255 0) auth_ulen p.len p.i) 1 _ refl refl refl
    ∙ auth_more _ (at (replicate 255 0) (replicate 255 0) auth_uname 0 0) 0 _ refl refl refl
    ∙ auth_more _ (at (padded (c ∷ [])) (replicate 255 0) auth_plen 0 1) c rest refl refl refl
