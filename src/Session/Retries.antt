-- ===== src/Session/Retries.antt =====
-- src/server/socks5nio.c: the attempt at the next address of a chain.

use socks_v5_proxy.Prelude.{
  leb, get_elem?, pos, negsuc, ◌>>=◌, ℕ, suc, ◌≤◌, ◌≡◌, refl, sym, ap, subst, ◌∙◌, ◌≢◌, inl, inr,
  false, Option, none, some, List, ◌∷◌, ◌++◌, arith,
}
use socks_v5_proxy.Buffer.{IsValid, contents, room}
use socks_v5_proxy.Request.{socks_req_addrtype_domain}
use socks_v5_proxy.Request.Reply.{
  status_general_socks_server_failure, request_reply, request_marshall-Marshalls,
}
use socks_v5_proxy.Selector.{
  SelectorStatus, selector_success, items_max_size, items_update_fdset_for_fd,
}
use socks_v5_proxy.Selector.Entries.{get_elem-set_here}
use socks_v5_proxy.Selector.Consistency.{IsConsistent, cleared, cleared-IsConsistent}
use socks_v5_proxy.Selector.Interests.{IsUsed, selector_set_interest-away}
use socks_v5_proxy.Session.{
  request_connecting_state, request_write_state, Address, in_use, World, op_write_only,
  set_interest,
}
use socks_v5_proxy.Session.Connecting.{next_address, request_connecting}
use socks_v5_proxy.Session.Lifetime.{unregister, close_fd}
use socks_v5_proxy.Session.Release.{
  Holds, unregister-entry, held, one_reference_less, get_elem-set_away,
}
use socks_v5_proxy.Session.Requesting.{
  request_error_write, given_up, drop_attempt, open_origin, conclude, request_connect,
}

-- A connection that waits for an origin: the selector has both of its descriptors for it, each with a
-- reference, and there is room for a reply.
pub record IsWaiting (w : World) (fd : ℕ) : Type 0 where
  pub agreed : IsConsistent w.selector
  pub alive : w.conn.life ≡ in_use
  pub origin : w.conn.origin_fd ≡ pos fd
  pub held : Holds w fd
  pub client : IsUsed w.selector w.conn.client_fd
  pub apart : fd ≢ w.conn.client_fd
  pub counted : w.conn.references ≡ 2
  pub valid : IsValid w.conn.write_buffer
  pub roomy : 10 ≤ room w.conn.write_buffer

-- The attempt is given back: its descriptor has no entry any more and is closed once, and its reference is gone.
abbrev dropped : World → ℕ → World
dropped w fd = record w {
  selector = cleared w.selector fd;
  closed = fd ∷ w.closed;
  conn = record (w.conn) { references = 1 };
}

abbrev shut : SelectorStatus × World → Option World
shut r = some (close_fd r.1 r.1.conn.origin_fd)

drop_attempt-dropped :
    (w : World) (fd : ℕ)
    → IsConsistent w.selector
    → w.conn.life ≡ in_use
    → w.conn.origin_fd ≡ pos fd
    → Holds w fd
    → w.conn.references ≡ 2
    → drop_attempt w ≡ some (dropped w fd)
unfolding drop_attempt
drop_attempt-dropped w fd c alive o held counted =
    let (item, e, m) = held.entry in
    let (own, _, _, _) = c.entries fd e in
    let small = held.small in
    let low : leb items_max_size item.fd ≡ false = rw own (ground arith) in
    let here : get_elem? w.selector.fds item.fd ≡ some (some item) =
      subst (λ k. get_elem? w.selector.fds k ≡ some (some item)) (sym own) e in
    let v : World = record w { selector = cleared w.selector item.fd } in
    let entry =
      unregister-entry w (record v { conn = record (v.conn) { references = 1 } }) item low here
        (ground arith) (one_reference_less v alive counted) in
    let own_entry =
      subst
        (λ k.
          unregister w (pos k)
          ≡ some (
            selector_success,
            record w { selector = cleared w.selector k; conn = record (w.conn) { references = 1 } },
          ))
        own entry in
    let w1 : World = record w {
      selector = cleared w.selector fd;
      conn = record (w.conn) { references = 1 };
    } in
    ap (λ f. unregister w f >>= shut) o
    ∙ ap (λ r. r >>= shut) own_entry
    ∙ ap (λ f. some (close_fd w1 f)) o

-- What is left of the attempts for want of a descriptor: there is no connection to the origin, and the reply with
-- the failure is queued.
pub record Lost (w w' : World) (fd : ℕ) : Type 0 where
  pub no_origin : w'.conn.origin_fd ≡ negsuc 0
  pub status : w'.conn.response_status ≡ status_general_socks_server_failure
  pub queued :
      contents w'.conn.write_buffer
      ≡ contents w.conn.write_buffer ++ request_reply status_general_socks_server_failure
  pub closed : w'.closed ≡ fd ∷ w.closed
  pub unregistered : get_elem? w'.selector.fds fd ≡ some none
  pub references : w'.conn.references ≡ 1
  pub alive : w'.conn.life ≡ in_use

request_error_write-Lost :
    (w v : World) (fd : ℕ)
    → IsWaiting w fd
    → v.conn.client_fd ≡ w.conn.client_fd
    → v.conn.write_buffer ≡ w.conn.write_buffer
    → v.selector ≡ cleared w.selector fd
    → v.conn.origin_fd ≡ negsuc 0
    → v.closed ≡ fd ∷ w.closed
    → v.conn.references ≡ 1
    → v.conn.life ≡ in_use
    → (w' : World) × (request_error_write status_general_socks_server_failure v
        ≡ some (request_write_state, w'))
      × Lost w w' fd
unfolding request_error_write set_interest items_update_fdset_for_fd
request_error_write-Lost w v fd i client buffer selector o closed references alive =
    let st = status_general_socks_server_failure in
    let v_valid : IsValid v.conn.write_buffer = subst IsValid (sym buffer) i.valid in
    elim (request_marshall-Marshalls st v_valid) [
      | inl (small, _) ↦
          let enough : 10 ≤ room v.conn.write_buffer = rw buffer (i.roomy) in absurd (omega arith)
      | inr (_, (b, run, _, q, _)) ↦
          let agreed : IsConsistent v.selector =
            subst (λ s. IsConsistent s) (sym selector)
              (cleared-IsConsistent w.selector fd i.agreed) in
          let (item, there) = i.client.entry in
          let away = get_elem-set_away w.selector.fds fd w.conn.client_fd i.apart ∙ there in
          let used : IsUsed v.selector v.conn.client_fd = record {
            small = rw client (i.client.small);
            entry = (item, rw (selector, client) away);
          } in
          let (sel, set_, _, _, others) =
            selector_set_interest-away v.selector v.conn.client_fd op_write_only agreed used in
          let here = get_elem-set_here w.selector.fds fd none i.held.inside in
          (
            record v {
              conn = record (v.conn) { write_buffer = b; response_status = st };
              selector = sel;
            },
            rw (request_error_write, run, set_interest, set_) refl,
            record {
              no_origin = o;
              status = refl;
              queued = rw buffer at q;
              closed = closed;
              unregistered = others fd (rw client (i.apart)) ∙ rw selector here;
              references = references;
              alive = alive;
            },
          )
    ]

abbrev reopened : World → Option (ℕ × World)
reopened w = open_origin w >>= conclude

abbrev waited : ℕ × World → Option (ℕ × World)
waited r = some (request_connecting_state, r.1)

-- When a connection to an address of a chain has failed and there is no descriptor for the next one, the event
-- ends: the descriptor of the attempt has been unregistered and closed, once, its reference is gone, the reply
-- with the failure is queued, and nothing is left of the connection to the origin; but the state is still the one
-- that waits for that connection.
pub request_connecting-Lost :
    (w : World) (fd e : ℕ) (a b : Address) (rest : List Address)
    → IsWaiting w fd
    → w.os.socket_error ≡ some (suc e)
    → w.conn.request.request.dest_addr_type ≡ socks_req_addrtype_domain
    → w.conn.origin_resolution_current ≡ a ∷ b ∷ rest
    → w.os.new_fd ≡ none
    → (w' : World) × (request_connecting w ≡ some (request_connecting_state, w')) × Lost w w' fd
unfolding request_connecting next_address request_connect open_origin conclude
request_connecting-Lost w fd e a b rest i s d c n =
    let v : World = record w {
      conn = record (w.conn) { origin_resolution_current = b ∷ rest; origin_addr = some b };
    } in
    let v_held : Holds v fd = record {
      small = i.held.small;
      inside = i.held.inside;
      entry = i.held.entry;
    } in
    let dropping = drop_attempt-dropped v fd i.agreed i.alive i.origin v_held i.counted in
    let u : World = dropped v fd in
    let lost : World = record u { conn = record (u.conn) { origin_fd = negsuc 0 } } in
    let (w', run, left) =
      request_error_write-Lost w lost fd i refl refl refl refl refl refl i.alive in
    let next : request_connecting w ≡ next_address w b rest = ground arith in
    let opened : open_origin u ≡ some (given_up status_general_socks_server_failure lost) =
      ground arith in
    (
      w',
      next
          ∙ ap (λ x. (x >>= reopened) >>= waited) dropping
          ∙ ap (λ x. (x >>= conclude) >>= waited) opened
          ∙ ap (λ x. x >>= waited) run,
      left,
    )
