-- ===== src/Session/Asked.antt =====
-- src/server/socks5nio.c: the attempt to connect that a request asks for, and its refusal.
pub mod Whole
use socks_v5_proxy.Request.Address.{at}
use socks_v5_proxy.Request.{Request}
use socks_v5_proxy.Prelude.{
  ◌==◌, Bool-cases, Option-cases, get_elem?, u32, ℤ, pos, negsuc, ◌>>=◌, ℕ, ◌+◌, ◌≤◌, ◌<◌, ◌≡◌,
  refl, sym, ap, subst, ◌∙◌, ◌≢◌, ◌⊎◌, inl, inr, true, false, ◌&&◌, Option, none, some, ◌∷◌, ◌++◌,
  arith,
}
use socks_v5_proxy.Buffer.{IsValid, contents, room}
use socks_v5_proxy.Request.Reply.{
  status_succeeded, status_general_socks_server_failure, request_reply, errno_to_socks,
  request_marshall-Marshalls, errno_to_socks-success,
}
use socks_v5_proxy.Selector.{op_noop, Item, FdSelector, items_max_size}
use socks_v5_proxy.Selector.Consistency.{IsConsistent}
use socks_v5_proxy.Selector.Interests.{
  IsUsed, selector_set_interest-away, selector_set_interest-IsUsed,
}
use socks_v5_proxy.Selector.Registration.{registered, selector_register-IsConsistent}
use socks_v5_proxy.Session.{
  request_resolv_state, request_connecting_state, request_write_state, Address, Os, World,
  op_write_only, is_success, set_interest,
}
use socks_v5_proxy.Session.Lifetime.{close_fd}
use socks_v5_proxy.Session.Requesting.{
  request_error_write, under_way, given_up, start_connection, open_origin, conclude, process_domain,
}

-- A connection whose descriptor is in use, with room for a reply.
pub record CanReply (w : World) : Type 0 where
  pub agreed : IsConsistent w.selector
  pub client : IsUsed w.selector w.conn.client_fd
  pub valid : IsValid w.conn.write_buffer
  pub roomy : 10 ≤ room w.conn.write_buffer

-- A refusal: the reply with its status, no success, is queued, and there is no connection to the origin.
abbrev pub Refuses : World → Option (ℕ × World) → Type 0
Refuses w result =
    (w' : World) × (status : ℕ) × (result ≡ some (request_write_state, w'))
    × (status ≢ status_succeeded)
    × (contents w'.conn.write_buffer ≡ contents w.conn.write_buffer ++ request_reply status)
    × (w'.conn.origin_fd ≡ negsuc 0)

pub request_error_write-Refuses :
    (status : ℕ) (w : World)
    → CanReply w
    → w.conn.origin_fd ≡ negsuc 0
    → status ≢ status_succeeded
    → Refuses w (request_error_write status w)
unfolding request_error_write set_interest
request_error_write-Refuses status w c o n = elim (request_marshall-Marshalls status c.valid) [
  | inl (small, _) ↦ let enough = c.roomy in absurd (omega arith)
  | inr (_, (b, run, _, q, _)) ↦
      let (sel, set_, _, _) =
        selector_set_interest-IsUsed w.selector w.conn.client_fd op_write_only c.agreed c.client in
      (
        record w {
          conn = record (w.conn) { write_buffer = b; response_status = status };
          selector = sel;
        },
        status,
        rw (request_error_write, run, set_interest, set_) refl,
        n,
        q,
        o,
      )
]

-- What the system answers to the attempt: the new descriptor, where there is one, is one that the selector can
-- have, and `connect` does not succeed at once.
pub record IsLate (os : Os) : Type 0 where
  pub small : (fd : ℕ) → os.new_fd ≡ some fd → fd < items_max_size
  pub late : (e : ℕ) × (os.connect_errno ≡ some e) × (e ≢ 0)

-- Why an attempt is given up: there is no descriptor, `connect` fails, the descriptor is already in the table, or
-- there is no memory for the table.
abbrev pub Prevented : World → Type 0
Prevented w =
    (w.os.new_fd ≡ none)
    ⊎ (((e : ℕ) × (w.os.connect_errno ≡ some e) × ((e == w.einprogress) ≡ false))
        ⊎ (((fd : ℕ) × (old : Item ℕ ℕ) × (w.os.new_fd ≡ some fd)
              × (get_elem? w.selector.fds fd ≡ some (some old)))
            ⊎ (w.os.table_memory ≡ false)))

-- The new descriptor cannot be made not to block: it becomes the one of the origin, but it is neither connected
-- nor registered, and the state is the one that waits for it.
abbrev pub Stuck : World → Option (ℕ × World) → Type 0
Stuck w result =
    (w' : World) × (fd : ℕ) × (result ≡ some (request_connecting_state, w'))
    × (w.os.set_nio ≡ false)
    × (w.os.new_fd ≡ some fd)
    × (w'.conn.origin_fd ≡ pos fd)
    × (w'.selector ≡ w.selector)
    × (w'.conn.references ≡ w.conn.references)
    × (w'.conn.write_buffer ≡ w.conn.write_buffer)

-- The attempt is under way: the new descriptor is the one of the origin, it is registered for writing with
-- this connection, which is referred to once more, and nothing is queued.
abbrev pub Attempts : Option Address → World → Option (ℕ × World) → Type 0
Attempts target w result =
    (w' : World) × (fd : ℕ) × (result ≡ some (request_connecting_state, w'))
    × (w.os.set_nio ≡ true)
    × (w.os.new_fd ≡ some fd)
    × ((e : ℕ) × (w.os.connect_errno ≡ some e) × ((e == w.einprogress) ≡ true))
    × (w'.conn.origin_fd ≡ pos fd)
    × (get_elem? w'.selector.fds fd ≡ some (some (registered fd fd op_write_only w.number)))
    × (w'.conn.references ≡ u32 (w.conn.references + 1))
    × (w'.conn.write_buffer ≡ w.conn.write_buffer)
    × (w'.conn.origin_addr ≡ target)

-- An attempt that is given up is concluded by a refusal.
closed-Refuses :
    (status : ℕ) (w : World) (fd : ℤ)
    → CanReply w
    → status ≢ status_succeeded
    → let w1 = close_fd w fd in
      Refuses w (
        request_error_write status (record w1 { conn = record (w1.conn) { origin_fd = negsuc 0 } }))
closed-Refuses status w (pos n) c d =
    let w2 : World = record w {
      closed = n ∷ w.closed;
      conn = record (w.conn) { origin_fd = negsuc 0 };
    } in
    request_error_write-Refuses status w2
      (record { agreed = c.agreed; client = c.client; valid = c.valid; roomy = c.roomy }) refl d
closed-Refuses status w (negsuc k) c d =
    let w2 : World = record w { conn = record (w.conn) { origin_fd = negsuc 0 } } in
    request_error_write-Refuses status w2
      (record { agreed = c.agreed; client = c.client; valid = c.valid; roomy = c.roomy }) refl d

given_up-Refuses :
    (status : ℕ) (w : World)
    → CanReply w
    → status ≢ status_succeeded
    → Refuses w (conclude (given_up status w))
unfolding conclude
given_up-Refuses status w c n = closed-Refuses status w w.conn.origin_fd c n

abbrev pub Tried : World → Option (ℕ × World) → Type 0
Tried w result =
    Attempts w.conn.origin_addr w result ⊎ (Stuck w result ⊎ (Prevented w × Refuses w result))

-- A descriptor that is in the table behind the change of interest was there before.
in_use_before :
    (w : World) (fd : ℕ) (sel : FdSelector ℕ ℕ) {old : Item ℕ ℕ}
    → IsUsed w.selector w.conn.client_fd
    → ((k : ℕ) → k ≢ w.conn.client_fd → get_elem? sel.fds k ≡ get_elem? w.selector.fds k)
    → get_elem? sel.fds fd ≡ some (some old)
    → (item : Item ℕ ℕ) × (get_elem? w.selector.fds fd ≡ some (some item))
in_use_before w fd sel {old} client others there = elim (Bool-cases (fd == w.conn.client_fd)) [
  | inl same ↦
      let e : fd ≡ w.conn.client_fd = ground arith in
      let (item, used) = client.entry in
      (item, subst (λ k. get_elem? w.selector.fds k ≡ some (some item)) (sym e) used)
  | inr different ↦ (old, sym (others fd (λ e. ground arith)) ∙ there)
]

start_connection-Tried :
    (fd : ℕ) (w : World)
    → CanReply w
    → w.conn.response_status ≢ status_succeeded
    → IsLate w.os
    → w.os.new_fd ≡ some fd
    → w.os.set_nio ≡ true
    → w.conn.origin_fd ≡ pos fd
    → Tried w (start_connection fd w >>= conclude)
unfolding start_connection set_interest conclude
start_connection-Tried fd w c n l e nio o =
    let (err, connected, bad) = l.late in
    elim (Bool-cases (err == w.einprogress)) [
      | inr other_error ↦
          let status = errno_to_socks w.errno err in
          let refused =
            given_up-Refuses status w c (λ q. bad ((errno_to_socks-success w.errno err).0 q)) in
          inr (
            inr (
              inr (inl (err, connected, other_error)),
              rw (start_connection, connected, other_error) refused,
            ))
      | inl waits ↦
          let (sel, set_, agreed, kept, others) =
            selector_set_interest-away w.selector w.conn.client_fd op_noop c.agreed c.client in
          let (st, sel', reg, agreed', cases) =
            selector_register-IsConsistent w.os.table_memory sel fd fd op_write_only w.number agreed
              (l.small fd e) in
          let stuck = λ (why : Prevented w) (failed : is_success st ≡ false) (same : sel' ≡ sel).
            let client : IsUsed sel' w.conn.client_fd = rw same (kept w.conn.client_fd c.client) in
            let w2 : World = record w { selector = sel' } in
            let refused =
              given_up-Refuses w.conn.response_status w2
                (record { agreed = agreed'; client = client; valid = c.valid; roomy = c.roomy })
                n in
            let result : Tried w (start_connection fd w >>= conclude) = inr (
              inr (
                why,
                rw (start_connection, connected, waits, set_interest, set_, reg, failed) refused,
              )) in
            result in
          elim cases [
            | inl (good, there) ↦
                let w3 : World = record w {
                  selector = sel';
                  conn = record (w.conn) { references = u32 (w.conn.references + 1) };
                } in
                let run : start_connection fd w ≡ some (under_way w3) = ground arith in
                inl (
                  w3,
                  fd,
                  ap (λ a. a >>= conclude) run,
                  nio,
                  e,
                  (err, connected, waits),
                  o,
                  there,
                  refl,
                  refl,
                  refl,
                )
            | inr (inl (used, (old, there), same)) ↦
                let before = in_use_before w fd sel c.client others (rw same at there) in
                stuck (inr (inr (inl (fd, before.0, e, before.1)))) (rw used refl) same
            | inr (inr (full, no_memory, same)) ↦
                stuck (inr (inr (inr no_memory))) (rw full refl) same
          ]
    ]

pub open_origin-Tried :
    (w : World)
    → CanReply w
    → w.conn.response_status ≢ status_succeeded
    → IsLate w.os
    → Tried w (open_origin w >>= conclude)
unfolding open_origin conclude
open_origin-Tried w c n l = elim (Option-cases (w.os.new_fd)) [
  | inl e ↦
      let w1 : World = record w { conn = record (w.conn) { origin_fd = negsuc 0 } } in
      let refused =
        given_up-Refuses status_general_socks_server_failure w1
          (record { agreed = c.agreed; client = c.client; valid = c.valid; roomy = c.roomy })
          (λ q. omega arith) in
      inr (inr (inl e, rw (open_origin, e) refused))
  | inr (fd, e) ↦
      let w1 : World = record w { conn = record (w.conn) { origin_fd = pos fd } } in
      elim (Bool-cases (w.os.set_nio)) [
        | inl ready ↦
            let tried =
              start_connection-Tried fd w1
                (record { agreed = c.agreed; client = c.client; valid = c.valid; roomy = c.roomy })
                n l e ready refl in
            let run : open_origin w ≡ start_connection fd w1 = ground arith in
            subst (λ a. Tried w (a >>= conclude)) (sym run) tried
        | inr blocks ↦
            let run : open_origin w ≡ some (under_way w1) = ground arith in
            inr (inl (w1, fd, ap (λ a. a >>= conclude) run, blocks, e, refl, refl, refl, refl))
      ]
]

-- The name is left to a thread that resolves it, and nothing is queued.
abbrev pub Resolves : Request → World → Option (ℕ × World) → Type 0
Resolves r w result =
    (w' : World) × (result ≡ some (request_resolv_state, w'))
    × (w'.conn.request.request ≡ r)
    × (w'.conn.write_buffer ≡ w.conn.write_buffer)

pub process_domain-cases :
    (w : World)
    → CanReply w
    → w.fd ≡ w.conn.client_fd
    → w.conn.origin_fd ≡ negsuc 0
    → ((w.os.key_memory && w.os.thread ≡ true)
        × Resolves w.conn.request.request w (process_domain w))
      ⊎ ((w.os.key_memory && w.os.thread ≡ false) × Refuses w (process_domain w))
unfolding process_domain set_interest
process_domain-cases w c f o = elim (Bool-cases (w.os.key_memory && w.os.thread)) [
  | inr fails ↦
      let refused =
        request_error_write-Refuses status_general_socks_server_failure w c o (λ q. omega arith) in
      inr (fails, rw (process_domain, fails) refused)
  | inl works ↦
      let (sel, set_, _, _) =
        selector_set_interest-IsUsed w.selector w.conn.client_fd op_noop c.agreed c.client in
      let run : process_domain w ≡ some (request_resolv_state, record w { selector = sel }) =
        ground arith in
      inl (works, (record w { selector = sel }, run, refl, refl))
]
