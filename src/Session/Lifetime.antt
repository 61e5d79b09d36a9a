-- ===== src/Session/Lifetime.antt =====
-- src/server/socks5nio.c: `socks5_destroy` with the pool, and the descriptors of a connection given
-- back to the selector.
use socks_v5_proxy.Prelude.{
  ltb, ◌==◌, if◌then◌else◌, u32, ℤ, pos, negsuc, ◌>>=◌, ℕ, ◌+◌, Option, none, some, ◌∷◌,
}
use socks_v5_proxy.Selector.{SelectorStatus, selector_unregister_fd}
use socks_v5_proxy.Session.{in_use, pooled, freed, World, is_success}

abbrev pub max_pool : ℕ
max_pool = 50

-- The last reference gives the block to the pool, or frees it. `none` is a second end of it.
unfoldable pub socks5_destroy : World → Option World
socks5_destroy w = elim (w.conn.life) [
  | in_use ↦
      if w.conn.references == 1
      then if ltb w.pool_size max_pool
        then some
            (record w { conn = record (w.conn) { life = pooled }; pool_size = w.pool_size + 1 })
        else some (record w { conn = record (w.conn) { life = freed } })
      else some (record w {
        conn = record (w.conn) { references = u32 (w.conn.references + 4294967295) };
      })
  | other ↦ none
]

-- `selector_unregister_fd`, whose `handle_close` is `socksv5_close` for a descriptor of this
-- connection; the handlers of other connections are not part of this world.
unfoldable pub unregister : World → ℤ → Option (SelectorStatus × World)
unfolding socks5_destroy
unregister w fd = do
  (st, s, item) ← selector_unregister_fd w.selector fd
  let w1 : World = record w { selector = s }
  w2 ← elim item [
    | none ↦ some w1
    | some it ↦ if it.attachment == w1.number then socks5_destroy w1 else some w1
  ]
  some (st, w2)

-- `close(fd)` where `fd` is not -1.
abbrev pub close_fd : World → ℤ → World
close_fd w (negsuc k) = w
close_fd w (pos fd) = record w { closed = fd ∷ w.closed }

-- One round of `socksv5_done`; the descriptors are read before the first.
unfoldable pub release_fd : World → ℤ → Option World
unfolding unregister
release_fd w (negsuc k) = some w
release_fd w (pos fd) = do
  (st, w1) ← unregister w (pos fd)
  if is_success st then some (close_fd w1 (pos fd)) else none

unfoldable pub socksv5_done : World → Option World
unfolding release_fd
socksv5_done w = do w1 ← release_fd w (pos w.conn.client_fd); release_fd w1 w.conn.origin_fd
