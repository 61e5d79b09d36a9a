-- ===== src/Session/Pool.antt =====
-- src/server/socks5nio.c, src/server/monitornio.c: the end of the pools. A block that is not in its pool, and
-- with that a second end of it, is `none`.
use socks_v5_proxy.Prelude.{
  length, All, ◌>>=◌, suc, ◌≡◌, refl, ap, Option, none, some, List, [], ◌∷◌,
}
use socks_v5_proxy.Session.{Life, pooled, freed, Socks5}

-- `socks5_destroy_`: the block is freed, with the chain of addresses that it holds.
socks5_free : Socks5 → Option Socks5
socks5_free s = elim (s.life) [
  | freed ↦ none
  | other ↦ some (record s { origin_resolution = []; life = freed })
]

socksv5_pool_destroy : List Socks5 → Option (List Socks5)
unfolding socks5_free
socksv5_pool_destroy [] = some []
socksv5_pool_destroy (s ∷ next) = do
  s' ← socks5_free s
  rest ← socksv5_pool_destroy next
  some (s' ∷ rest)

-- The blocks of the administration server hold nothing else.
connection_pool_destroy : List Life → Option (List Life)
connection_pool_destroy [] = some []
connection_pool_destroy (s ∷ next) = elim s [
  | freed ↦ none
  | other ↦ connection_pool_destroy next >>= (λ rest. some (freed ∷ rest))
]

-- Blocks that are in the pool are all freed, and so are the chains of addresses.
socksv5_pool_destroy-All :
    (pool : List Socks5)
    → All (λ s. s.life ≡ pooled) pool
    → (pool' : List Socks5) × (socksv5_pool_destroy pool ≡ some pool')
      × (length pool' ≡ length pool)
      × All (λ s. (s.life ≡ freed) × (s.origin_resolution ≡ [])) pool'
unfolding socksv5_pool_destroy socks5_free
socksv5_pool_destroy-All [] h = ([], refl, refl, tt)
socksv5_pool_destroy-All (s ∷ next) h =
    let (rest, run, size, all_freed) = socksv5_pool_destroy-All next h.1 in
    let in_pool : s.life ≡ pooled = h.0 in
    (
      record s { origin_resolution = []; life = freed } ∷ rest,
      rw (in_pool, run) refl,
      ap suc size,
      ((refl, refl), all_freed),
    )
