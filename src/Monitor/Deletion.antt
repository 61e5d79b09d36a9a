-- ===== src/Monitor/Deletion.antt =====
-- src/server/monitor.c: the requests that delete a user or an administrator, whose name the parser
-- stores without looking at the size of the array.

use socks_v5_proxy.Prelude.{
  ◌==◌, Bool-cases, length, set, replicate, length-set, overwrite, length-overwrite, All, c_string,
  NonZero, c_string-front, ℕ, suc, ◌+◌, ◌*◌, ◌≤◌, ◌<◌, ◌≡◌, refl, sym, ap, ◌∙◌, ◌⊎◌, inl, inr, Bool,
  true, false, none, some, List, [], ◌∷◌, ◌++◌, append-nil, arith,
}
use socks_v5_proxy.Monitor.Types.{
  monitor_target, monitor_dlen, monitor_data, monitor_done, Monitor, Statics, MonitorParser,
  monitor_parser_init, is_alnum,
}
use socks_v5_proxy.Monitor.Parser.{Connection, monitor_parser_feed, monitor_is_done}
use socks_v5_proxy.Monitor.Commands.{
  monitor_parse, monitor_more, monitor_stop, at, tokened, header-parse,
}

-- The two targets that delete.
abbrev pub IsDeletion : ℕ → Type 0
IsDeletion t = (t ≡ 2) ⊎ (t ≡ 4)

abbrev pub AllAlnum : List ℕ → Type 0
AllAlnum = All (λ c. is_alnum c ≡ true)

-- The request with bytes stored in the union from an index on.
abbrev pub named : Monitor → ℕ → List ℕ → Monitor
named m k xs = record m { union_data = overwrite m.union_data k xs }

feed-name :
    (s : Statics) (m : Monitor) (n k : ℕ) (sep : Bool) (c : ℕ)
    → IsDeletion m.target
    → length m.union_data ≡ 512
    → is_alnum c ≡ true
    → k < 512
    → suc k < n
    → monitor_parser_feed (at s m monitor_data n k sep) c
      ≡ at s (named m k (c ∷ [])) monitor_data n (suc k) sep
unfolding monitor_parser_feed overwrite
feed-name s m n k sep c d u a l j = rw a (ground arith)

feed-name_last :
    (s : Statics) (m : Monitor) (n k : ℕ) (sep : Bool) (c : ℕ)
    → IsDeletion m.target
    → length m.union_data ≡ 512
    → is_alnum c ≡ true
    → suc k < 512
    → suc k ≡ n
    → monitor_parser_feed (at s m monitor_data n k sep) c
      ≡ at s (named m k (c ∷ 0 ∷ [])) monitor_done n n sep
unfolding monitor_parser_feed overwrite
feed-name_last s m n k sep c d u a l j = rw a (ground (arith, length-set m.union_data k c))

-- The byte whose terminator, or the byte that itself, is outside the union.
feed-name_fault :
    (s : Statics) (m : Monitor) (n k : ℕ) (sep : Bool) (c : ℕ)
    → IsDeletion m.target
    → length m.union_data ≡ 512
    → is_alnum c ≡ true
    → ((k ≡ 511) × (n ≡ 512)) ⊎ (k ≡ 512)
    → monitor_parser_feed (at s m monitor_data n k sep) c ≡ none
unfolding monitor_parser_feed
feed-name_fault s m n k sep c d u a l = rw a (ground (arith, length-set m.union_data k c))

pub length-named :
    (m : Monitor) (k : ℕ) (xs : List ℕ) → length (named m k xs).union_data ≡ length m.union_data
length-named m k xs = length-overwrite m.union_data k xs

-- A name that fits, with its terminator.
name-parse :
    (s : Statics) (m : Monitor) (n k : ℕ) (sep : Bool) (c : ℕ) (cs rest : List ℕ)
    → IsDeletion m.target
    → length m.union_data ≡ 512
    → AllAlnum (c ∷ cs)
    → n < 512
    → k + suc (length cs) ≡ n
    → monitor_parse (at s m monitor_data n k sep) (c ∷ (cs ++ rest))
      ≡ (at s (named m k ((c ∷ cs) ++ 0 ∷ [])) monitor_done n n sep, false, rest)
unfolding monitor_is_done overwrite
name-parse s m n k sep c [] rest d u a l e =
    monitor_stop _ _ c rest (feed-name_last s m n k sep c d u a.0 (omega arith) (omega arith)) refl
name-parse s m n k sep c (x ∷ xs) rest d u a l e =
    monitor_more _ _ c (x ∷ (xs ++ rest))
      (feed-name s m n k sep c d u a.0 (omega arith) (omega arith)) refl
    ∙ name-parse s (named m k (c ∷ [])) n (suc k) sep x xs rest d (length-named m k (c ∷ []) ∙ u)
        a.1 l (omega arith)

-- A name that does not fit.
name-fault :
    (s : Statics) (m : Monitor) (n k : ℕ) (sep : Bool) (c : ℕ) (cs rest : List ℕ)
    → IsDeletion m.target
    → length m.union_data ≡ 512
    → AllAlnum (c ∷ cs)
    → k ≤ 512
    → 512 ≤ n
    → k + suc (length cs) ≡ n
    → (monitor_parse (at s m monitor_data n k sep) (c ∷ (cs ++ rest))).0 ≡ none
unfolding monitor_is_done overwrite
name-fault s m n k sep c [] rest d u a b l e =
    ap (λ t. t.0)
      (monitor_stop _ none c rest (feed-name_fault s m n k sep c d u a.0 (omega arith)) refl)
name-fault s m n k sep c (x ∷ xs) rest d u a b l e = elim (Bool-cases (k == 512)) [
  | inl over ↦
      let at_end : k ≡ 512 = ground arith in
      ap (λ t. t.0)
        (monitor_stop _ none c (x ∷ (xs ++ rest))
          (feed-name_fault s m n k sep c d u a.0 (inr at_end)) refl)
  | inr under ↦
      let below : k < 512 = ground arith in
      ap (λ t. t.0)
        (monitor_more _ _ c (x ∷ (xs ++ rest)) (feed-name s m n k sep c d u a.0 below (omega arith))
          refl)
      ∙ name-fault s (named m k (c ∷ [])) n (suc k) sep x xs rest d (length-named m k (c ∷ []) ∙ u)
          a.1 (omega arith) l (omega arith)
]

-- CONFIG, a target that deletes, and the two bytes of DLEN.
abbrev pub deletion_of : List ℕ → ℕ → ℕ → Monitor
deletion_of tok t n = record (tokened tok) { method = 1; target = t; dlen = n }

set-pair : (xs : List ℕ) (a b : ℕ) → length xs ≡ 2 → set (set xs 0 a) 1 b ≡ a ∷ b ∷ []
set-pair [] a b h = absurd (omega arith)
set-pair (x ∷ []) a b h = absurd (omega arith)
set-pair (x ∷ y ∷ []) a b h = refl
set-pair (x ∷ y ∷ z ∷ xs) a b h = absurd (omega arith)

pub dlen-parse :
    (s : Statics) (p : MonitorParser) (tok rest : List ℕ) (t hi lo n : ℕ)
    → length tok ≡ 16
    → length s.combinedlen ≡ 2
    → 0 < t
    → t ≤ 4
    → hi * 256 + lo ≡ n
    → monitor_parse (some (s, monitor_parser_init p)) (1 ∷ (tok ++ 1 ∷ t ∷ hi ∷ lo ∷ rest))
      ≡ monitor_parse
          (at
            (record s { combinedlen = hi ∷ lo ∷ [] })
            (deletion_of tok t n)
            monitor_data
            n
            0
            p.separated)
          rest
unfolding monitor_parser_feed monitor_is_done
dlen-parse s p tok rest t hi lo n h two low known e =
    header-parse s p tok (1 ∷ t ∷ hi ∷ lo ∷ rest) h
    ∙ monitor_more _ (at s (record (tokened tok) { method = 1 }) monitor_target 16 16 p.separated) 1
        _ refl refl
    ∙ monitor_more _
        (at s (record (tokened tok) { method = 1; target = t }) monitor_dlen 2 0 p.separated) t _
        (ground arith) refl
    ∙ monitor_more _
        (at (record s { combinedlen = set s.combinedlen 0 hi })
          (record (tokened tok) { method = 1; target = t }) monitor_dlen 2 1 p.separated)
        hi _ refl refl
    ∙ monitor_more _
        (at (record s { combinedlen = hi ∷ lo ∷ [] }) (deletion_of tok t n) monitor_data n 0
          p.separated)
        lo rest (rw (set-pair s.combinedlen hi lo two, e) (ground arith)) refl

pub NonZero-of_alnum : (xs : List ℕ) → AllAlnum xs → NonZero xs
NonZero-of_alnum [] a = tt
NonZero-of_alnum (x ∷ xs) a = let h = a.0 in (λ e. ground arith, NonZero-of_alnum xs a.1)

-- VER, TOKEN, METHOD, TARGET, DLEN and DATA of a request that deletes.
abbrev pub deletion : List ℕ → ℕ → ℕ → ℕ → List ℕ → List ℕ
deletion tok t hi lo name = 1 ∷ (tok ++ 1 ∷ t ∷ hi ∷ lo ∷ name)

-- The parser in front of the name.
deletion-start :
    (s : Statics) (p : MonitorParser) (tok : List ℕ) (c : ℕ) (cs : List ℕ) (t hi lo : ℕ)
    → length tok ≡ 16
    → length s.combinedlen ≡ 2
    → IsDeletion t
    → hi * 256 + lo ≡ suc (length cs)
    → monitor_parse (some (s, monitor_parser_init p)) (deletion tok t hi lo (c ∷ cs))
      ≡ monitor_parse
          (at
            (record s { combinedlen = hi ∷ lo ∷ [] })
            (deletion_of tok t (suc (length cs)))
            monitor_data
            (suc (length cs))
            0
            p.separated)
          (c ∷ (cs ++ []))
deletion-start s p tok c cs t hi lo h two d e =
    let k : Connection =
      at (record s { combinedlen = hi ∷ lo ∷ [] }) (deletion_of tok t (suc (length cs)))
        monitor_data (suc (length cs)) 0 p.separated in
    dlen-parse s p tok (c ∷ cs) t hi lo (suc (length cs)) h two
      (elim d [ inl q ↦ omega arith | inr q ↦ omega arith ])
      (elim d [ inl q ↦ omega arith | inr q ↦ omega arith ]) e
    ∙ ap (λ r. monitor_parse k (c ∷ r)) (sym (append-nil cs))

-- A request to delete, with a token of 16 bytes and a name of 1 to 511 letters and digits whose length
-- DLEN gives, is parsed to the end, and the name is the string that the union holds.
pub monitor_parse-deletion :
    (s : Statics) (p : MonitorParser) (tok name : List ℕ) (t hi lo : ℕ)
    → length tok ≡ 16
    → length s.combinedlen ≡ 2
    → IsDeletion t
    → All (λ c. is_alnum c ≡ true) name
    → 0 < length name
    → hi * 256 + lo ≡ length name
    → length name < 512
    → (s' : Statics) × (q : MonitorParser) × (monitor_parse
          (some (s, monitor_parser_init p))
          (deletion tok t hi lo name)
        ≡ (some (s', q), false, []))
      × (q.state ≡ monitor_done)
      × (q.monitor.token ≡ tok)
      × (q.monitor.method ≡ 1)
      × (q.monitor.target ≡ t)
      × (c_string q.monitor.union_data ≡ name)
monitor_parse-deletion s p tok [] t hi lo h two d a pos_len e l = absurd (omega arith)
monitor_parse-deletion s p tok (c ∷ cs) t hi lo h two d a pos_len e l =
    let s' : Statics = record s { combinedlen = hi ∷ lo ∷ [] } in
    let n : ℕ = suc (length cs) in
    let m : Monitor = deletion_of tok t n in
    (
      s',
      record {
        monitor = named m 0 ((c ∷ cs) ++ 0 ∷ []);
        state = monitor_done;
        len = n;
        i = n;
        separated = p.separated;
      },
      deletion-start s p tok c cs t hi lo h two d e
          ∙ name-parse s' m n 0 p.separated c cs [] d refl a l (omega arith),
      refl,
      refl,
      refl,
      refl,
      c_string-front (replicate 512 0) (c ∷ cs) (NonZero-of_alnum (c ∷ cs) a) l,
    )

-- Such a request with a name of 512 bytes or more makes the parser store outside the union, whatever
-- the token is.
pub monitor_parse-deletion_fault :
    (s : Statics) (p : MonitorParser) (tok name : List ℕ) (t hi lo : ℕ)
    → length tok ≡ 16
    → length s.combinedlen ≡ 2
    → IsDeletion t
    → All (λ c. is_alnum c ≡ true) name
    → hi * 256 + lo ≡ length name
    → 512 ≤ length name
    → (monitor_parse (some (s, monitor_parser_init p)) (deletion tok t hi lo name)).0 ≡ none
monitor_parse-deletion_fault s p tok [] t hi lo h two d a e l = absurd (omega arith)
monitor_parse-deletion_fault s p tok (c ∷ cs) t hi lo h two d a e l =
    let s' : Statics = record s { combinedlen = hi ∷ lo ∷ [] } in
    let n : ℕ = suc (length cs) in
    ap (λ r. r.0) (deletion-start s p tok c cs t hi lo h two d e)
    ∙ name-fault s' (deletion_of tok t n) n 0 p.separated c cs [] d refl a (omega arith) l
        (omega arith)
