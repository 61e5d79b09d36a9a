-- ===== src/Selector/Loop/Dispatch.antt =====
-- src/server/selector.c: what a round of the event loop keeps, whatever `pselect` reports.

use socks_v5_proxy.Prelude.{
  length, All, ℕ, ◌≤◌, ◌<◌, ◌≡◌, ◌⊎◌, true, Option, none, some, List, [], ◌∷◌, ◌++◌,
}
use socks_v5_proxy.Selector.{Item}
use socks_v5_proxy.Selector.Loop.{
  Loop, Polled, ready, interrupted, bad_descriptor, select_failed, entry, Handlers,
  handle_iteration,
}

-- What handlers owe to a property of the server: it bounds the descriptors of the table and of the jobs; a
-- descriptor with an interest has the handler for it; each call that the loop makes ends, and keeps the
-- property; behind a call for reading the entry is unused, or it is for the same descriptor and attachment;
-- a call for a job leaves the list of jobs alone.
pub record Respects {H D W : Type 0} (h : Handlers H D W) (size : ℕ) (I : Loop H D W → Type 0)
    : Type 0 where
  pub roomy : {l : Loop H D W} → I l → (size ≤ length l.selector.fds) × (l.selector.max_fd < size)
  pub reads :
      {l : Loop H D W} (i : ℕ) {item : Item H D}
      → I l
      → entry l i ≡ some (some item)
      → item.interest.op_read ≡ true
      → (h.has_read item.handler ≡ true)
        × ((l' : Loop H D W) × (h.handle_read item.handler item.fd item.attachment l ≡ some l')
            × I l'
            × ((entry l' i ≡ some none)
                ⊎ ((item' : Item H D) × (entry l' i ≡ some (some item'))
                    × (item'.fd ≡ item.fd)
                    × (item'.attachment ≡ item.attachment))))
  pub writes :
      {l : Loop H D W} (i : ℕ) {item : Item H D}
      → I l
      → entry l i ≡ some (some item)
      → item.interest.op_write ≡ true
      → (h.has_write item.handler ≡ true)
        × ((l' : Loop H D W) × (h.handle_write item.handler item.fd item.attachment l ≡ some l')
            × I l')
  pub jobs_inside : {l : Loop H D W} → I l → All (λ fd. fd < size) l.jobs
  pub blocks :
      {l : Loop H D W} (before after : List ℕ) (fd : ℕ) {item : Item H D}
      → I l
      → l.jobs ≡ before ++ fd ∷ after
      → entry l fd ≡ some (some item)
      → (l' : Loop H D W) × (h.handle_block item.handler item.fd item.attachment l ≡ some l')
        × I l'
        × (l'.jobs ≡ l.jobs)
  pub cleared : {l : Loop H D W} → I l → I (record l { jobs = [] })

-- The jobs of a list, in their order, each by one call of the handler that its descriptor has then; a
-- descriptor that is not in use any more is passed over.
pub data Handled {H D W : Type 0} (h : Handlers H D W)
    : List ℕ → Loop H D W → Loop H D W → Type 0 where
  all_handled : {l : Loop H D W} → Handled h [] l l
  called :
      {fd : ℕ} {fds : List ℕ} {l l1 l' : Loop H D W} {item : Item H D}
      → entry l fd ≡ some (some item)
      → h.handle_block item.handler item.fd item.attachment l ≡ some l1
      → Handled h fds l1 l'
      → Handled h (fd ∷ fds) l l'
  passed :
      {fd : ℕ} {fds : List ℕ} {l l' : Loop H D W}
      → entry l fd ≡ some none
      → Handled h fds l l'
      → Handled h (fd ∷ fds) l l'

module _ {H D W : Type 0} (h : Handlers H D W) (size : ℕ) (I : Loop H D W → Type 0)
    (respects : Respects h size I) where
  abbrev Kept : Option (Loop H D W) → Type 0
  Kept o = (l' : Loop H D W) × (o ≡ some l') × I l'

  emptied : Loop H D W → Option (Loop H D W)
  emptied x = some (record x { jobs = [] })

  -- Every job is handled, and none is left.
  abbrev pub Emptied : Loop H D W → Loop H D W → Type 0
  Emptied l l' = (m : Loop H D W) × Handled h l.jobs l m × (l' ≡ record m { jobs = [] })

  -- What a round does first: the calls for the descriptors that are ready, or nothing after a signal.
  abbrev pub Served : Polled → Loop H D W → Loop H D W → Type 0
  Served (ready slave_r slave_w) l l1 = handle_iteration h slave_r slave_w l ≡ some l1
  Served interrupted l l1 = l1 ≡ l
  Served bad_descriptor l l1 = ⊥
  Served select_failed l l1 = ⊥
