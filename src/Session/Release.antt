-- ===== src/Session/Release.antt =====
-- src/server/socks5nio.c: what the end of a connection gives back.

use socks_v5_proxy.Selector.Entries.{get_elem-set, get_elem-set_here}
use socks_v5_proxy.Prelude.{
  ltb, leb, ◌==◌, Bool-cases, length, get_elem?, set, length-set, All, pos, negsuc, ◌>>=◌, ℕ, ◌+◌,
  ◌<◌, ◌≡◌, refl, sym, ap, subst, ◌∙◌, ◌≢◌, ◌⊎◌, inl, inr, true, false, Option, none, some, List,
  [], ◌∷◌, ◌++◌, arith,
}
use socks_v5_proxy.Selector.{
  selector_success, Item, FdSelector, items_max_size, items_update_fdset_for_fd,
  selector_unregister_fd,
}
use socks_v5_proxy.Selector.Consistency.{IsConsistent, cleared, cleared-IsConsistent}
use socks_v5_proxy.Session.{in_use, pooled, freed, Socks5, World}
use socks_v5_proxy.Session.Lifetime.{
  max_pool, socks5_destroy, unregister, close_fd, release_fd, socksv5_done,
}

-- A descriptor that the selector has for this connection.
pub record Holds (w : World) (fd : ℕ) : Type 0 where
  pub small : fd < items_max_size
  pub inside : fd < length w.selector.fds
  pub entry :
      (item : Item ℕ ℕ) × (get_elem? w.selector.fds fd ≡ some (some item))
      × (item.attachment ≡ w.number)

pub unregister-entry :
    (w w1 : World) (item : Item ℕ ℕ)
    → leb items_max_size item.fd ≡ false
    → get_elem? w.selector.fds item.fd ≡ some (some item)
    → (item.attachment == w.number) ≡ true
    → socks5_destroy (record w { selector = cleared w.selector item.fd }) ≡ some w1
    → unregister w (pos item.fd) ≡ some (selector_success, w1)
unfolding unregister selector_unregister_fd
unregister-entry w w1 item low e mine d = rw (low, e, mine, d) refl

-- A round of `socksv5_done` at such a descriptor takes it out, drops a reference and closes it.
release_fd-Holds :
    (w w1 : World) (fd : ℕ)
    → IsConsistent w.selector
    → Holds w fd
    → socks5_destroy (record w { selector = cleared w.selector fd }) ≡ some w1
    → release_fd w (pos fd) ≡ some (close_fd w1 (pos fd))
unfolding release_fd
release_fd-Holds w w1 fd c h d =
    let (item, e, m) = h.entry in
    let (own, _, _, _) = c.entries fd e in
    let low = h.small in
    let small : leb items_max_size item.fd ≡ false = rw own (ground arith) in
    let here : get_elem? w.selector.fds item.fd ≡ some (some item) =
      subst (λ k. get_elem? w.selector.fds k ≡ some (some item)) (sym own) e in
    let last : socks5_destroy (record w { selector = cleared w.selector item.fd }) ≡ some w1 =
      subst (λ k. socks5_destroy (record w { selector = cleared w.selector k }) ≡ some w1) (sym own)
        d in
    let u = unregister-entry w w1 item small here (ground arith) last in
    rw (subst (λ k. unregister w (pos k) ≡ some (selector_success, w1)) own u) refl

-- The descriptors of a connection, the last one to be closed first.
abbrev pub held : Socks5 → List ℕ
held s = elim (s.origin_fd) [ negsuc k ↦ s.client_fd ∷ [] | pos fd ↦ fd ∷ s.client_fd ∷ [] ]

-- The references of a connection are the descriptors that the selector has for it.
abbrev pub IsCounted : World → Type 0
IsCounted w =
    (w.conn.life ≡ in_use)
    × Holds w w.conn.client_fd
    × (((w.conn.origin_fd ≡ negsuc 0) × (w.conn.references ≡ 1))
        ⊎ ((fd : ℕ) × (w.conn.origin_fd ≡ pos fd)
            × Holds w fd
            × (fd ≢ w.conn.client_fd)
            × (w.conn.references ≡ 2)))

last_reference :
    (w : World)
    → w.conn.life ≡ in_use
    → w.conn.references ≡ 1
    → (w1 : World) × (socks5_destroy w ≡ some w1)
      × (w1.conn.life ≢ in_use)
      × (w1.closed ≡ w.closed)
      × (w1.selector ≡ w.selector)
unfolding socks5_destroy
last_reference w l r = elim (Bool-cases (ltb w.pool_size max_pool)) [
  | inl e ↦ (
    record w { conn = record (w.conn) { life = pooled }; pool_size = w.pool_size + 1 },
    ground arith,
    ground arith,
    refl,
    refl,
  )
  | inr e ↦
      (record w { conn = record (w.conn) { life = freed } }, ground arith, ground arith, refl, refl)
]

pub one_reference_less :
    (w : World)
    → w.conn.life ≡ in_use
    → w.conn.references ≡ 2
    → socks5_destroy w ≡ some (record w { conn = record (w.conn) { references = 1 } })
unfolding socks5_destroy
one_reference_less w l r = rw (l, r) refl

pub get_elem-set_away :
    (fds : List (Option (Item ℕ ℕ))) (i j : ℕ)
    → i ≢ j
    → get_elem? (set fds i none) j ≡ get_elem? fds j
get_elem-set_away fds i j n = elim (get_elem-set fds i j none) [
  | inl (e, _, _) ↦ absurd (n e)
  | inr (q, _) ↦ q
]

-- The end of a connection whose references are counted gives all of it back: the block goes to the
-- pool or is freed, and each descriptor is closed once and has no entry in the selector any more.
pub socksv5_done-IsCounted :
    (w : World)
    → IsConsistent w.selector
    → IsCounted w
    → (w' : World) × (socksv5_done w ≡ some w')
      × (w'.conn.life ≢ in_use)
      × (w'.closed ≡ held w.conn ++ w.closed)
      × All (λ fd. get_elem? w'.selector.fds fd ≡ some none) (held w.conn)
unfolding socksv5_done items_update_fdset_for_fd
socksv5_done-IsCounted w c (l, h, inl (o, r)) =
    let fd = w.conn.client_fd in
    let v : World = record w { selector = cleared w.selector fd } in
    let (w1, d, gone, same, sel) = last_reference v l r in
    let only : held w.conn ≡ fd ∷ [] = rw o refl in
    let done : socksv5_done w ≡ some (close_fd w1 (pos fd)) =
      ap (λ t. t >>= λ k. release_fd k w.conn.origin_fd) (release_fd-Holds w w1 fd c h d)
      ∙ ap (release_fd _) o in
    (
      close_fd w1 (pos fd),
      done,
      gone,
      rw only (ap (λ t. fd ∷ t) same),
      rw only (
        ap (λ t. get_elem? (FdSelector.fds t) fd) sel
            ∙ get_elem-set_here w.selector.fds fd none h.inside,
        tt,
      ),
    )
socksv5_done-IsCounted w c (l, h, inr (fd, o, g, n, r)) =
    let client = w.conn.client_fd in
    let c1 = cleared-IsConsistent w.selector client c in
    let v : World = record w { selector = cleared w.selector client } in
    let v1 : World = record v { conn = record (v.conn) { references = 1 } } in
    let w1 : World = close_fd v1 (pos client) in
    let first = release_fd-Holds w v1 client c h (one_reference_less v l r) in
    let (item, e, m) = g.entry in
    let g1 : Holds w1 fd = record {
      small = g.small;
      inside = rw (length-set w.selector.fds client none) g.inside;
      entry = (item, get_elem-set_away w.selector.fds client fd (λ q. n (sym q)) ∙ e, m);
    } in
    let u : World = record w1 { selector = cleared w1.selector fd } in
    let (w2, d, gone, same, sel) = last_reference u l refl in
    let second = release_fd-Holds w1 w2 fd c1 g1 d in
    let both : held w.conn ≡ fd ∷ client ∷ [] = rw o refl in
    let done : socksv5_done w ≡ some (close_fd w2 (pos fd)) =
      ap (λ t. t >>= λ k. release_fd k w.conn.origin_fd) first ∙ ap (release_fd w1) o ∙ second in
    (
      close_fd w2 (pos fd),
      done,
      gone,
      rw both (ap (λ t. fd ∷ t) same),
      rw both (
        ap (λ t. get_elem? (FdSelector.fds t) fd) sel
            ∙ get_elem-set_here w1.selector.fds fd none g1.inside,
        (
          ap (λ t. get_elem? (FdSelector.fds t) client) sel
              ∙ get_elem-set_away w1.selector.fds fd client n
              ∙ get_elem-set_here w.selector.fds client none h.inside,
          tt,
        ),
      ),
    )
