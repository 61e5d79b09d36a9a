-- ===== src/Selector/Loop.antt =====
-- src/server/selector.c: the loop that dispatches what `pselect` reports and the jobs that have ended. The
-- handlers are parameters: whether the pointers are set, and what a call does to the table, the jobs and
-- the rest of the server, `W`; `none` is an abort. The lock of the list of jobs is left out.
pub mod Dispatch
use socks_v5_proxy.Prelude.{
  if◌then◌else◌, get_elem?, ◌>>=◌, ℕ, zero, suc, Bool, ◌&&◌, Option, none, some, List, [], ◌∷◌,
}
use socks_v5_proxy.Selector.{
  SelectorStatus, selector_success, selector_enomem, selector_io, Item, FdSelector,
}

-- `resolution_jobs` is the list of descriptors, the last one notified first.
pub record Loop (H D W : Type 0) : Type 0 where
  pub selector : FdSelector H D
  pub jobs : List ℕ
  pub world : W

-- What `pselect` gives: the two sets, or -1 with EAGAIN or EINTR, with EBADF, or with another `errno`.
pub data Polled : Type 0 where
  ready : (ℕ → Bool) → (ℕ → Bool) → Polled
  interrupted bad_descriptor select_failed : Polled

module _ {H D W : Type 0} where
  -- The item at an index, `none` for an unused one; behind the table there is nothing to read.
  abbrev pub entry : Loop H D W → ℕ → Option (Option (Item H D))
  entry l i = get_elem? l.selector.fds i

  unfoldable pub selector_notify_block : Bool → Loop H D W → ℕ → SelectorStatus × Loop H D W
  selector_notify_block has_memory l fd =
      if has_memory
      then (selector_success, record l { jobs = fd ∷ l.jobs })
      else (selector_enomem, l)

-- The three calls of a handler, for the descriptor and the attachment of its key.
pub record Handlers (H D W : Type 0) : Type 0 where
  pub has_read : H → Bool
  pub has_write : H → Bool
  pub handle_read : H → ℕ → D → Loop H D W → Option (Loop H D W)
  pub handle_write : H → ℕ → D → Loop H D W → Option (Loop H D W)
  pub handle_block : H → ℕ → D → Loop H D W → Option (Loop H D W)

module _ {H D W : Type 0} (h : Handlers H D W) where
  unfoldable pub call_read : (ℕ → Bool) → Item H D → Loop H D W → Option (Loop H D W)
  call_read slave_r item l =
      if slave_r item.fd && item.interest.op_read
      then (if h.has_read item.handler
          then h.handle_read item.handler item.fd item.attachment l
          else none)
      else some l

  -- The item is read again behind the call for reading; the key is the one from before. An entry that was
  -- unregistered meanwhile has no interest, whatever `FD_ISSET` makes of its -1.
  unfoldable pub call_write : (ℕ → Bool) → ℕ → Item H D → Loop H D W → Option (Loop H D W)
  call_write slave_w i key l = elim (entry l i) [
    | none ↦ none
    | some none ↦ some l
    | some (some item) ↦
        if slave_w item.fd && item.interest.op_write
        then (if h.has_write item.handler
            then h.handle_write item.handler key.fd key.attachment l
            else none)
        else some l
  ]

  unfoldable pub handle_item : (ℕ → Bool) → (ℕ → Bool) → ℕ → Loop H D W → Option (Loop H D W)
  handle_item slave_r slave_w i l = elim (entry l i) [
    | none ↦ none
    | some none ↦ some l
    | some (some item) ↦ call_read slave_r item l >>= call_write slave_w i item
  ]

  -- The loop over `n` entries from `i` on.
  unfoldable pub handle_items : (ℕ → Bool) → (ℕ → Bool) → ℕ → ℕ → Loop H D W → Option (Loop H D W)
  handle_items slave_r slave_w zero i l = some l
  handle_items slave_r slave_w (suc n) i l =
      handle_item slave_r slave_w i l >>= handle_items slave_r slave_w n (suc i)

  -- The bound of the loop is the `max_fd` from before.
  unfoldable pub handle_iteration : (ℕ → Bool) → (ℕ → Bool) → Loop H D W → Option (Loop H D W)
  handle_iteration slave_r slave_w l = handle_items slave_r slave_w (suc l.selector.max_fd) 0 l

  unfoldable pub handle_job : ℕ → Loop H D W → Option (Loop H D W)
  handle_job fd l = elim (entry l fd) [
    | none ↦ none
    | some none ↦ some l
    | some (some item) ↦ h.handle_block item.handler item.fd item.attachment l
  ]

  unfoldable pub handle_jobs : List ℕ → Loop H D W → Option (Loop H D W)
  handle_jobs [] l = some l
  handle_jobs (fd ∷ fds) l = handle_job fd l >>= handle_jobs fds

  unfoldable pub handle_block_notifications : Loop H D W → Option (Loop H D W)
  handle_block_notifications l = handle_jobs l.jobs l >>= (λ l'. some (record l' { jobs = [] }))

  unfoldable pub selector_select : Polled → Loop H D W → Option (SelectorStatus × Loop H D W)
  selector_select (ready slave_r slave_w) l = do
    l' ← handle_iteration slave_r slave_w l
    l'' ← handle_block_notifications l'
    some (selector_success, l'')
  selector_select interrupted l =
      handle_block_notifications l >>= (λ l'. some (selector_success, l'))
  selector_select bad_descriptor l = some (selector_io, l)
  selector_select select_failed l = some (selector_io, l)
