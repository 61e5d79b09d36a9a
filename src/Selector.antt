-- ===== src/Selector.antt =====
-- src/server/selector.c: the table of file descriptors behind the event loop.
-- An entry whose `fd` is `FD_UNUSED` is `none`. `fd_size` is the length of the table, which is empty
-- while `fds` is NULL. An fd_set is a test of descriptors. Whether `calloc` and `realloc` find memory is
-- an argument. `H` are the handlers and `D` the attachments.
pub mod Capacity
pub mod Entries
pub mod Consistency
pub mod Top
pub mod Operations
pub mod Interests
pub mod Registration
pub mod Loop
pub mod Ending
pub mod Setup
use socks_v5_proxy.Prelude.{
  ltb, leb, ◌==◌, if◌then◌else◌, length, get_elem?, set, take, replicate, ℤ, pos, negsuc, ℕ, zero,
  suc, ◌+◌, ◌-◌, ◌/◌, ◌^◌, Bool, true, false, Option, none, some, List, [], ◌∷◌, ◌++◌,
}

pub data SelectorStatus : Type 0 where
  selector_success selector_enomem selector_maxfd selector_iargs : SelectorStatus
  selector_fdinuse selector_io : SelectorStatus

-- A set of the flags `OP_READ` and `OP_WRITE`; `OP_NOOP` is neither.
pub record FdInterest : Type 0 where
  pub op_read : Bool
  pub op_write : Bool

abbrev pub op_noop : FdInterest
op_noop = record { op_read = false; op_write = false }

pub record Item (H D : Type 0) : Type 0 where
  pub fd : ℕ
  pub interest : FdInterest
  pub handler : H
  pub attachment : D

pub record FdSelector (H D : Type 0) : Type 0 where
  pub fds : List (Option (Item H D))
  pub max_fd : ℕ
  pub master_r : ℕ → Bool
  pub master_w : ℕ → Bool

-- `FD_SETSIZE`
abbrev pub items_max_size : ℕ
items_max_size = 1024

-- `while(tmp != 0) { tmp >>= 1; bits++; }`, a round for each unit of fuel.
unfoldable pub bit_count : ℕ → ℕ → ℕ → ℕ
bit_count zero tmp bits = bits
bit_count (suc fuel) tmp bits =
    let rest = bit_count fuel (tmp / 2) (bits + 1) in if tmp == 0 then bits else rest

-- A value of w bits takes w rounds, so as many rounds as its value, and one more, are enough.
unfoldable pub next_capacity : ℕ → ℕ
next_capacity n =
    let tmp : ℕ = 2 ^ bit_count (n + 1) n 0 in
    (if ltb items_max_size tmp then items_max_size else tmp) + 1

-- `INVALID_FD(fd)`
abbrev pub invalid_fd : ℤ → Bool
invalid_fd (negsuc n) = true
invalid_fd (pos n) = leb items_max_size n

module _ {H D : Type 0} where
  abbrev pub no_item : Option (Item H D)
  no_item = none

  -- `items_max_fd`: the loop over the entries `i`, …, and the maximum so far.
  unfoldable pub items_max_fd : List (Option (Item H D)) → ℕ → ℕ
  items_max_fd [] max = max
  items_max_fd (none ∷ fds) max = items_max_fd fds max
  items_max_fd (some item ∷ fds) max = items_max_fd fds (if ltb max item.fd then item.fd else max)

  -- `items_update_fdset_for_fd` for an entry in use.
  unfoldable pub items_update_fdset_for_fd : FdSelector H D → ℕ → FdInterest → FdSelector H D
  items_update_fdset_for_fd s fd interest = record s {
    master_r = λ i. if i == fd then interest.op_read else s.master_r i;
    master_w = λ i. if i == fd then interest.op_write else s.master_w i;
  }

  -- Whether a growing table stays NULL, is allocated or is moved, the entries behind the old ones are
  -- unused.
  unfoldable pub ensure_capacity : Bool → FdSelector H D → ℕ → SelectorStatus × FdSelector H D
  ensure_capacity has_memory s n =
      if ltb n (length s.fds)
      then (selector_success, s)
      else if ltb items_max_size n
      then (selector_maxfd, s)
      else if has_memory
      then (
        selector_success,
        record s { fds = s.fds ++ replicate (next_capacity n - length s.fds) none },
      )
      else (selector_enomem, s)

  -- The end of `selector_register`, once the table has room; an entry behind the table is `none`.
  unfoldable pub register_entry :
      FdSelector H D → ℕ → H → FdInterest → D → Option (SelectorStatus × FdSelector H D)
  register_entry s fd handler interest attachment = elim (get_elem? s.fds fd) [
    | none ↦ none
    | some (some item) ↦ some (selector_fdinuse, s)
    | some none ↦ some (
      selector_success,
      items_update_fdset_for_fd
          (record s {
            fds = set s.fds fd (
                some (record {
                  fd = fd;
                  interest = interest;
                  handler = handler;
                  attachment = attachment;
                }));
            max_fd = if ltb s.max_fd fd then fd else s.max_fd;
          })
          fd interest,
    )
  ]

  unfoldable pub register_fd :
      Bool → FdSelector H D → ℕ → H → FdInterest → D → Option (SelectorStatus × FdSelector H D)
  register_fd has_memory s fd handler interest attachment = elim (ltb fd (length s.fds)) [
    | true ↦ register_entry s fd handler interest attachment
    | false ↦
        (let (st, s') = ensure_capacity has_memory s fd in
          elim st [
            | selector_success ↦ register_entry s' fd handler interest attachment
            | other ↦ some (other, s')
          ])
  ]

  -- The handler is `none` for NULL.
  unfoldable pub selector_register :
      Bool
      → FdSelector H D
      → ℤ
      → Option H
      → FdInterest
      → D
      → Option (SelectorStatus × FdSelector H D)
  unfolding register_fd
  selector_register has_memory s (negsuc n) handler interest attachment = some (selector_iargs, s)
  selector_register has_memory s (pos fd) none interest attachment = some (selector_iargs, s)
  selector_register has_memory s (pos fd) (some handler) interest attachment =
      if leb items_max_size fd
      then some (selector_iargs, s)
      else register_fd has_memory s fd handler interest attachment

  -- The item whose `handle_close` is called comes with the result. `none` is a read behind the table.
  unfoldable pub selector_unregister_fd :
      FdSelector H D → ℤ → Option (SelectorStatus × FdSelector H D × Option (Item H D))
  selector_unregister_fd s (negsuc n) = some (selector_iargs, s, none)
  selector_unregister_fd s (pos fd) =
      if leb items_max_size fd then some (selector_iargs, s, none) else elim (get_elem? s.fds fd) [
        | none ↦ none
        | some none ↦ some (selector_iargs, s, none)
        | some (some item) ↦
            let cleared = set s.fds fd none in
            some (
              selector_success,
              items_update_fdset_for_fd
                  (record s {
                    fds = cleared;
                    max_fd = items_max_fd (take (suc s.max_fd) cleared) 0;
                  })
                  item.fd op_noop,
              some item,
            )
      ]

  unfoldable pub selector_set_interest :
      FdSelector H D → ℤ → FdInterest → Option (SelectorStatus × FdSelector H D)
  selector_set_interest s (negsuc n) interest = some (selector_iargs, s)
  selector_set_interest s (pos fd) interest =
      if leb items_max_size fd then some (selector_iargs, s) else elim (get_elem? s.fds fd) [
        | none ↦ none
        | some none ↦ some (selector_iargs, s)
        | some (some item) ↦ some (
          selector_success,
          items_update_fdset_for_fd
              (record s { fds = set s.fds fd (some (record item { interest = interest })) }) item.fd
              interest,
        )
      ]
