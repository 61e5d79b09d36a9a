-- ===== src/Disector/Bounds.antt =====
-- src/server/disector.c: where the sniffer stores outside the arrays that it means.

use socks_v5_proxy.Prelude.{ℕ, ◌<◌, ◌≡◌, ◌↔◌, none, some, arith}
use socks_v5_proxy.Disector.{
  disector_wait_pop, disector_user, disector_user_copy, disector_password, disector_response,
  DisectorParser, disector_parser_reset, disector_parser_init, disector_parser_feed,
}

-- In the states that match a keyword the index is inside it, and it is a byte in all.
pub record InKeyword (p : DisectorParser) : Type 0 where
  pub pop_index : p.state ≡ disector_wait_pop → p.i < 2
  pub user_index : p.state ≡ disector_user → p.i < 4
  pub password_index : p.state ≡ disector_password → p.i < 4
  pub response_index : p.state ≡ disector_response → p.i < 2
  pub byte_index : p.i < 256

pub disector_parser_init-InKeyword : InKeyword disector_parser_init
unfolding disector_parser_init
disector_parser_init-InKeyword = ground arith

pub disector_parser_reset-InKeyword : (p : DisectorParser) → InKeyword (disector_parser_reset p)
unfolding disector_parser_reset
disector_parser_reset-InKeyword p = ground arith

-- A step keeps the index inside the keyword that is matched.
disector_parser_feed-InKeyword :
    (p : DisectorParser) (c : ℕ) {q : DisectorParser}
    → InKeyword p
    → disector_parser_feed p c ≡ some q
    → InKeyword q
unfolding disector_parser_feed
disector_parser_feed-InKeyword p c h e = ground arith

-- A step stores in front of the struct exactly when an empty argument of USER ends: a line feed right
-- behind the keyword.
disector_parser_feed-fault :
    (p : DisectorParser) (c : ℕ)
    → (disector_parser_feed p c ≡ none) ↔ ((p.state ≡ disector_user_copy) × (p.i ≡ 0) × (c ≡ b'\n'))
unfolding disector_parser_feed
disector_parser_feed-fault p c = ground arith
