-- ===== src/Tests/Copies.antt =====
-- The copy between two descriptors, and its end, at concrete inputs.

use socks_v5_proxy.Prelude.{
  ◌==◌, get_elem?, overwrite, All, pos, ℕ, zero, suc, ◌≡◌, refl, subst, ◌≢◌, ◌⊎◌, inl, inr, false,
  ◌||◌, Option, none, some, [], ◌∷◌, ◌++◌, arith,
}
use socks_v5_proxy.Buffer.{
  buffer_can_write, buffer_write_ptr, buffer_can_read, buffer_read_ptr, buffer_write_adv,
  buffer_compact, buffer_read_adv, buffer_fill, IsValid, contents,
}
use socks_v5_proxy.Selector.{Item, FdSelector, items_update_fdset_for_fd, selector_set_interest}
use socks_v5_proxy.Selector.Consistency.{Agreed}
use socks_v5_proxy.Selector.Registration.{registered}
use socks_v5_proxy.Session.{in_use, World, op_read_only, set_interest, receive, transmit}
use socks_v5_proxy.Session.Lifetime.{socksv5_done}
use socks_v5_proxy.Session.Copying.{
  End, client_end, origin_end, rb, copy_compute_interests, copy_end, copy_from, copy_r, copy_to,
  copy_w,
}
use socks_v5_proxy.Session.Relayed.{Relay, Relay-contents}
use socks_v5_proxy.Session.Progress.{IsCopying, Faults, IsAt, Continues, copying-Ends}
use socks_v5_proxy.Session.Release.{held, IsCounted, socksv5_done-IsCounted}
use socks_v5_proxy.Tests.Sessions.{empty_buffer, accepted, greeted_world, at}

-- A copy between two descriptors.
abbrev pub both_ends : FdSelector ℕ ℕ
both_ends = record {
  fds =
      none
      ∷ none
      ∷ none
      ∷ none
      ∷ some (registered 4 7 op_read_only 9)
      ∷ some (registered 5 7 op_read_only 9)
      ∷ none
      ∷ [];
  max_fd = 5;
  master_r = λ i. i == 4 || i == 5;
  master_w = λ i. false;
}

pub both_ends-Agreed :
    (i : ℕ) (item : Item ℕ ℕ)
    → get_elem? both_ends.fds i ≡ some (some item)
    → Agreed both_ends i item
both_ends-Agreed zero item h = cc
both_ends-Agreed (suc zero) item h = cc
both_ends-Agreed (suc (suc zero)) item h = cc
both_ends-Agreed (suc (suc (suc zero))) item h = cc
both_ends-Agreed (suc (suc (suc (suc zero)))) item h =
    let same : registered 4 7 op_read_only 9 ≡ item = cc in
    subst (λ o. Agreed both_ends 4 o) same (refl, omega arith, refl, refl)
both_ends-Agreed (suc (suc (suc (suc (suc zero))))) item h =
    let same : registered 5 7 op_read_only 9 ≡ item = cc in
    subst (λ o. Agreed both_ends 5 o) same (refl, omega arith, refl, refl)
both_ends-Agreed (suc (suc (suc (suc (suc (suc zero)))))) item h = cc
both_ends-Agreed (suc (suc (suc (suc (suc (suc (suc i))))))) item h = cc

abbrev relaying : World
relaying = record (at 4 (1 ∷ 2 ∷ 3 ∷ []) greeted_world) {
  selector = both_ends;
  conn = record accepted {
    origin_fd = pos 5;
    references = 2;
    read_buffer = record empty_buffer { write = 1 };
  };
}

abbrev after : Option (ℕ × World) → World → World
after o w = elim o [ none ↦ w | some (ret, w') ↦ w' ]

abbrev received_world : World
received_world = after (copy_r relaying) relaying

abbrev sending : World
sending = at 5 [] received_world

copied :
    Relay client_end (0 ∷ 1 ∷ 2 ∷ 3 ∷ []) (0 ∷ 1 ∷ 2 ∷ 3 ∷ []) (after (copy_w sending) sending).conn
unfolding copy_r copy_w copy_to copy_from copy_end copy_compute_interests transmit buffer_read_ptr
    buffer_read_adv buffer_compact buffer_can_read buffer_can_write buffer_write_adv buffer_fill
    overwrite receive buffer_write_ptr set_interest selector_set_interest items_update_fdset_for_fd
copied =
    Relay.write sending (after (copy_w sending) sending) origin_end
      (Relay.read relaying received_world client_end
        (Relay.start relaying.conn
          (record { ordered = omega arith; bounded = omega arith; stored = omega arith }))
        refl refl)
      refl refl

Relay-contents_example :
    IsValid (rb (after (copy_w sending) sending).conn client_end)
    × (0 ∷ 1 ∷ 2 ∷ 3 ∷ []
        ≡ (0 ∷ 1 ∷ 2 ∷ 3 ∷ []) ++ contents (rb (after (copy_w sending) sending).conn client_end))
Relay-contents_example =
    Relay-contents client_end (0 ∷ 1 ∷ 2 ∷ 3 ∷ []) (0 ∷ 1 ∷ 2 ∷ 3 ∷ [])
      (after (copy_w sending) sending).conn copied

-- The client ends its stream while a byte of it waits.
abbrev ending : World
ending = at 4 [] relaying

relaying-IsCopying : IsCopying ending.conn ending.selector
relaying-IsCopying = record {
  agreed = record { entries = λ i h. both_ends-Agreed i _ h };
  client = record { small = omega arith; entry = (registered 4 7 op_read_only 9, refl) };
  origin = (5, refl, record { small = omega arith; entry = (registered 5 7 op_read_only 9, refl) });
  paired = record { onward = refl; back = refl; connected = refl };
  read_valid = record { ordered = omega arith; bounded = omega arith; stored = omega arith };
  write_valid = record { ordered = omega arith; bounded = omega arith; stored = omega arith };
}

copying-Ends_example :
    Continues ending (copy_r ending)
    × (Continues ending (copy_w ending)
        ⊎ ((e : End) × IsAt ending e × Faults ending e × (copy_w ending ≡ none)))
copying-Ends_example = copying-Ends ending relaying-IsCopying (inl refl)

relaying-IsCounted : IsCounted relaying
relaying-IsCounted = (
  refl,
  record {
    small = omega arith;
    inside = omega arith;
    entry = (registered 4 7 op_read_only 9, refl, refl);
  },
  inr (
    5,
    refl,
    record {
      small = omega arith;
      inside = omega arith;
      entry = (registered 5 7 op_read_only 9, refl, refl);
    },
    (λ q. omega arith),
    refl,
  ),
)

socksv5_done-IsCounted_example :
    (w' : World) × (socksv5_done relaying ≡ some w')
    × (w'.conn.life ≢ in_use)
    × (w'.closed ≡ held relaying.conn ++ relaying.closed)
    × All (λ fd. get_elem? w'.selector.fds fd ≡ some none) (held relaying.conn)
socksv5_done-IsCounted_example =
    socksv5_done-IsCounted relaying (record { entries = λ i h. both_ends-Agreed i _ h })
      relaying-IsCounted
