-- ===== src/Start/Listening/Settled.antt =====
-- src/server.c: which sockets the selector watches when `main` has registered them.
use socks_v5_proxy.Start.{Sockets, stored}
use socks_v5_proxy.Prelude.{
  ltb, leb, if◌then◌else◌, Bool-cases, length, get_elem?, set, replicate, length-set,
  length-replicate, All, ℤ, pos, negsuc, ℕ, zero, suc, ◌<◌, ◌≡◌, refl, sym, ◌∙◌, ◌≢◌, ◌⊎◌, inl, inr,
  Bool, true, false, ◌&&◌, Option, none, some, List, [], ◌∷◌, arith,
}
use socks_v5_proxy.Selector.{
  selector_success, Item, FdSelector, items_max_size, bit_count, next_capacity,
  items_update_fdset_for_fd, ensure_capacity, register_entry, register_fd, selector_register,
}
use socks_v5_proxy.Selector.Entries.{get_elem-set, get_elem-append_unused, get_elem-set_here}
use socks_v5_proxy.Selector.Consistency.{IsConsistent, put, put-IsConsistent}
use socks_v5_proxy.Selector.Registration.{registered}
use socks_v5_proxy.Session.{op_read_only}
use socks_v5_proxy.Start.Listening.{
  Passive, selector_new, Fcntl, SetUp, listening, flags_failed, selector_failed, passives,
  has_flags, register_passive, register_all, set_up,
}

-- Descriptors that `socket` can have given, each of its own: unused, or below `items_max_size`.
abbrev pub IsDescriptor : ℤ → Type 0
IsDescriptor (pos fd) = fd < items_max_size
IsDescriptor (negsuc n) = n ≡ 0

abbrev pub IsApart : ℤ → Passive × ℤ → Type 0
IsApart (pos fd) (handler, pos fd') = fd ≢ fd'
IsApart _ _ = Unit

abbrev pub Apart : List (Passive × ℤ) → Type 0
Apart [] = Unit
Apart (p ∷ ps) = All (IsApart p.1) ps × Apart ps

get_elem-set_other :
    {A : Type 0} (xs : List A) (i j : ℕ) (v : A) → i ≢ j → get_elem? (set xs i v) j ≡ get_elem? xs j
get_elem-set_other xs i j v h = elim (get_elem-set xs i j v) [
  | inl (e, _, _) ↦ absurd (h e)
  | inr (q, _) ↦ q
]

-- The flags of the sockets of `main`.
abbrev pub flags_of : (ℤ → Fcntl → ℤ) → Sockets → Bool
flags_of fcntl v =
    has_flags fcntl v.server_v4
    && has_flags fcntl v.server_v6
    && has_flags fcntl v.monitor_v4
    && has_flags fcntl v.monitor_v6

module _ {H D : Type 0} where
  -- The descriptor is not in use.
  abbrev IsFree : FdSelector H D → Passive × ℤ → Type 0
  IsFree s (handler, pos fd) = get_elem? s.fds fd ≡ some none
  IsFree s (handler, negsuc n) = Unit

  -- The table agrees with `max_fd` and the sets, and is as long as at the start.
  pub record IsReady (s : FdSelector H D) : Type 0 where
    pub agreed : IsConsistent s
    pub size : length s.fds ≡ 1025
    pub top : s.max_fd < items_max_size

  IsFree-kept :
      (s s' : FdSelector H D) (fd : ℕ) (ps : List (Passive × ℤ))
      → ((i : ℕ) → fd ≢ i → get_elem? s'.fds i ≡ get_elem? s.fds i)
      → All (IsApart (pos fd)) ps
      → All (IsFree s) ps
      → All (IsFree s') ps
  IsFree-kept s s' fd [] k a f = tt
  IsFree-kept s s' fd ((handler, pos n) ∷ ps) k (a, rest) (f, fs) =
      (k n a ∙ f, IsFree-kept s s' fd ps k rest fs)
  IsFree-kept s s' fd ((handler, negsuc n) ∷ ps) k (a, rest) (f, fs) =
      (tt, IsFree-kept s s' fd ps k rest fs)

  -- A table of unused entries.
  abbrev unused : ℕ → FdSelector H D
  unused n = record {
    fds = replicate n none;
    max_fd = 0;
    master_r = λ i. false;
    master_w = λ i. false;
  }

  unused-IsConsistent : (n : ℕ) → IsConsistent (unused n)
  unused-IsConsistent n = record { entries = λ i h. cc (get_elem-append_unused [] n i h) }

  get_elem-unused : (n i : ℕ) → i < n → get_elem? (unused n).fds i ≡ some none
  get_elem-unused zero i h = absurd (omega arith)
  get_elem-unused (suc n) zero h = refl
  get_elem-unused (suc n) (suc i) h = get_elem-unused n i (omega arith)

  selector_new-unused :
      (has_block has_memory : Bool)
      → selector_new has_block has_memory 1024
        ≡ (if has_block && has_memory then some (unused 1025) else none)
  unfolding selector_new ensure_capacity next_capacity bit_count
  selector_new-unused true true = refl
  selector_new-unused true false = refl
  selector_new-unused false has_memory = refl

-- The handlers behind the two pointers, and NULL.
module _ {H D : Type 0} (handlers : Passive → H) (null : D) where
  -- The descriptor is in the table with that handler; an unused socket has no descriptor.
  abbrev Stored : FdSelector H D → Passive × ℤ → Type 0
  Stored s (handler, pos fd) =
      get_elem? s.fds fd ≡ some (some (registered fd (handlers handler) op_read_only null))
  Stored s (handler, negsuc n) = Unit

  -- The same, and the two sets have it for reading only.
  abbrev pub Watched : FdSelector H D → Passive × ℤ → Type 0
  Watched s (handler, pos fd) =
      (get_elem? s.fds fd ≡ some (some (registered fd (handlers handler) op_read_only null)))
      × (s.master_r fd ≡ true)
      × (s.master_w fd ≡ false)
  Watched s (handler, negsuc n) = Unit

  -- A registration of a free descriptor stores it and leaves the entries of the others.
  register_free :
      (has_memory : Bool) (handler : Passive) (fd : ℕ) (s : FdSelector H D)
      → IsReady s
      → fd < items_max_size
      → get_elem? s.fds fd ≡ some none
      → (s' : FdSelector H D) × (selector_register has_memory s
            (pos fd)
            (some (handlers handler))
            op_read_only
            null
          ≡ some (selector_success, s'))
        × IsReady s'
        × (get_elem? s'.fds fd ≡ some (some (registered fd (handlers handler) op_read_only null)))
        × ((i : ℕ) → fd ≢ i → get_elem? s'.fds i ≡ get_elem? s.fds i)
  unfolding selector_register register_fd register_entry items_update_fdset_for_fd
  register_free has_memory handler fd s c small e =
      let new = registered fd (handlers handler) op_read_only null in
      let size = c.size in
      let test : leb items_max_size fd ≡ false = ground arith in
      let fits : ltb fd (length s.fds) ≡ true = ground arith in
      let mx : ℕ = if ltb s.max_fd fd then fd else s.max_fd in
      (
        put s mx new,
        rw (test, fits, e, register_fd, register_entry) refl,
        record {
          agreed = put-IsConsistent s mx new c.agreed (ground arith) (ground arith);
          size = length-set s.fds fd (some new) ∙ size;
          top = let old = c.top in ground arith;
        },
        get_elem-set_here s.fds fd (some new) (omega arith),
        λ i n. get_elem-set_other s.fds fd i (some new) n,
      )

  -- Registrations of free descriptors, each its own, reach the end: all are stored then, and the entries of
  -- others are as they were.
  abbrev AllStored : Bool → List (Passive × ℤ) → FdSelector H D → Type 0
  AllStored has_memory ps s =
      (s' : FdSelector H D) × (register_all handlers null has_memory ps s ≡ some (listening s'))
      × IsReady s'
      × All (Stored s') ps
      × ((i : ℕ) → All (IsApart (pos i)) ps → get_elem? s'.fds i ≡ get_elem? s.fds i)

  register_all-AllStored :
      (has_memory : Bool) (ps : List (Passive × ℤ)) (s : FdSelector H D)
      → IsReady s
      → All (λ p. IsDescriptor p.1) ps
      → Apart ps
      → All (IsFree s) ps
      → AllStored has_memory ps s
  unfolding register_all register_passive
  register_all-AllStored has_memory [] s c d a f = (s, refl, c, tt, λ i h. refl)
  register_all-AllStored has_memory ((handler, negsuc zero) ∷ ps) s c (d, ds) (a, rest) (f, fs) =
      let (s', run, c', stored, kept) = register_all-AllStored has_memory ps s c ds rest fs in
      (s', run, c', (tt, stored), λ i h. kept i h.1)
  register_all-AllStored has_memory ((handler, negsuc (suc n)) ∷ ps) s c (d, ds) a f =
      absurd (omega arith)
  register_all-AllStored has_memory ((handler, pos fd) ∷ ps) s c (d, ds) (a, rest) (f, fs) =
      let (s1, run1, c1, here, others) = register_free has_memory handler fd s c d f in
      let (s', run, c', stored, kept) =
        register_all-AllStored has_memory ps s1 c1 ds rest (IsFree-kept s s1 fd ps others a fs) in
      (
        s',
        rw (run1) run,
        c',
        (kept fd a ∙ here, stored),
        λ i h. kept i h.1 ∙ others i (λ e. h.0 (sym e)),
      )

  Watched-all :
      (s : FdSelector H D) (ps : List (Passive × ℤ))
      → IsConsistent s
      → All (Stored s) ps
      → All (Watched s) ps
  Watched-all s [] c h = tt
  Watched-all s ((handler, pos fd) ∷ ps) c (h, hs) =
      let (_, _, r, w) = c.entries fd h in ((h, r, w), Watched-all s ps c hs)
  Watched-all s ((handler, negsuc n) ∷ ps) c (h, hs) = (tt, Watched-all s ps c hs)

  unused-IsFree :
      (ps : List (Passive × ℤ))
      → All (λ p. IsDescriptor p.1) ps
      → All (IsFree {H = H} {D = D} (unused 1025)) ps
  unused-IsFree [] h = tt
  unused-IsFree ((handler, pos fd) ∷ ps) (h, hs) =
      (get_elem-unused 1025 fd (omega arith), unused-IsFree ps hs)
  unused-IsFree ((handler, negsuc n) ∷ ps) (h, hs) = (tt, unused-IsFree ps hs)

  abbrev pub Settled : (ℤ → Fcntl → ℤ) → Bool → Bool → Bool → Sockets → Option (SetUp H D) → Type 0
  Settled fcntl selector_init has_block has_memory v result =
      ((flags_of fcntl v ≡ false) × (result ≡ some flags_failed))
      ⊎ (((selector_init && has_block && has_memory ≡ false) × (result ≡ some selector_failed))
          ⊎ ((s : FdSelector H D) × (flags_of fcntl v ≡ true)
              × (selector_init && has_block && has_memory ≡ true)
              × (result ≡ some (listening s))
              × IsReady s
              × All (Watched s) (passives v)))

  -- Where the descriptors of the sockets are below `items_max_size`, each its own, this part of `main` ends:
  -- with a failure where the flags of a socket, the set-up of the selector or its memory fail, and only there;
  -- where all of these succeed the table of 1025 entries agrees with `max_fd` and the sets, and has each socket that is used under its own
  -- handler, waiting to be read. No registration fails.
  pub set_up-Settled :
      (fcntl : ℤ → Fcntl → ℤ) (selector_init has_block has_memory : Bool) (v : Sockets)
      → All (λ p. IsDescriptor p.1) (passives v)
      → Apart (passives v)
      → Settled fcntl selector_init has_block has_memory v
          (set_up handlers null fcntl selector_init has_block has_memory v)
  unfolding set_up
  set_up-Settled fcntl selector_init has_block has_memory v d a =
      elim (Bool-cases (flags_of fcntl v)) [
        | inr e ↦ inl (e, rw (e) refl)
        | inl e ↦ elim (Bool-cases selector_init) [
          | inr f ↦ inr (inl (rw (f) refl, rw (e, f) refl))
          | inl f ↦ elim (Bool-cases (has_block && has_memory)) [
            | inr g ↦
                inr (inl (rw (f) g, rw (e, f, selector_new-unused has_block has_memory, g) refl))
            | inl g ↦
                let (s, run, c, stored, _) =
                  register_all-AllStored has_memory (passives v) (unused 1025)
                    (record {
                      agreed = unused-IsConsistent 1025;
                      size = length-replicate {A = Option (Item H D)} 1025 none;
                      top = omega arith;
                    })
                    d a (unused-IsFree (passives v) d) in
                inr (
                  inr (
                    s,
                    e,
                    rw f g,
                    rw (e, f, selector_new-unused has_block has_memory, g) run,
                    c,
                    Watched-all s (passives v) c.agreed stored,
                  ))
          ]
        ]
      ]
