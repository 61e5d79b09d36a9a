-- ===== src/Monitor/Addition.antt =====
-- src/server/monitor.c: the requests that add a user or an administrator. The terminator of the second
-- string is stored at the index that counts the whole of the data.
use socks_v5_proxy.Prelude.{
  ltb, if◌then◌else◌, ltb→lt, Bool-cases, length, set, drop, replicate, length-append, length-set,
  overwrite, All, c_string, two_strings, c_string-two_strings, overwrite-first, overwrite-second,
  padded-terminated, set-two_strings, ℕ, suc, ◌+◌, ◌-◌, ◌*◌, ◌≤◌, ◌<◌, ◌≡◌, refl, sym, ap, ◌∙◌, ◌⊎◌,
  inl, inr, true, false, none, some, List, [], ◌∷◌, ◌++◌, append-nil, arith,
}
use socks_v5_proxy.Monitor.Types.{
  monitor_data, monitor_done, Monitor, Statics, MonitorParser, monitor_parser_init, is_alnum,
}
use socks_v5_proxy.Monitor.Parser.{
  Connection, monitor_parser_feed, connection_state, monitor_is_done,
}
use socks_v5_proxy.Monitor.Commands.{monitor_parse, monitor_more, monitor_stop, at}
use socks_v5_proxy.Monitor.Deletion.{
  AllAlnum, named, length-named, deletion_of, dlen-parse, NonZero-of_alnum,
}

-- The two targets that add.
abbrev pub IsAddition : ℕ → Type 0
IsAddition t = (t ≡ 1) ⊎ (t ≡ 3)

-- The parser behind the last byte: the terminator is stored, or it is outside the union.
abbrev added : Statics → Monitor → ℕ → Connection
added s m n = if ltb n 256 then at s (named m (256 + n) (0 ∷ [])) monitor_done n n false else none

feed-user :
    (s : Statics) (m : Monitor) (n k : ℕ) (c : ℕ)
    → IsAddition m.target
    → length m.union_data ≡ 512
    → is_alnum c ≡ true
    → k < 512
    → suc k < n
    → n < 65536
    → monitor_parser_feed (at s m monitor_data n k false) c
      ≡ at s (named m k (c ∷ [])) monitor_data n (suc k) false
unfolding monitor_parser_feed overwrite
feed-user s m n k c d u a l j w = rw a (ground arith)

feed-separator :
    (s : Statics) (m : Monitor) (n k : ℕ)
    → IsAddition m.target
    → length m.union_data ≡ 512
    → 0 < k
    → k < 512
    → suc k < n
    → n < 65536
    → monitor_parser_feed (at s m monitor_data n k false) 0
      ≡ at
          (record s { username_len_with_null = suc k })
          (named m k (0 ∷ []))
          monitor_data
          n
          (suc k)
          true
unfolding monitor_parser_feed overwrite
feed-separator s m n k d u z l j w = ground arith

feed-separator_last :
    (s : Statics) (m : Monitor) (n k : ℕ)
    → IsAddition m.target
    → length m.union_data ≡ 512
    → 0 < k
    → k < 512
    → suc k ≡ n
    → monitor_parser_feed (at s m monitor_data n k false) 0
      ≡ added (record s { username_len_with_null = suc k }) (named m k (0 ∷ [])) n
unfolding monitor_parser_feed overwrite
feed-separator_last s m n k d u z l j = ground (arith, length-set m.union_data k 0)

feed-secret :
    (s : Statics) (m : Monitor) (n k i : ℕ) (c : ℕ)
    → IsAddition m.target
    → length m.union_data ≡ 512
    → is_alnum c ≡ true
    → 256 + k ≡ i + s.username_len_with_null
    → i < 512
    → suc k < n
    → n < 65536
    → monitor_parser_feed (at s m monitor_data n k true) c
      ≡ at s (named m i (c ∷ [])) monitor_data n (suc k) true
unfolding monitor_parser_feed overwrite
feed-secret s m n k i c d u a e l j w =
    let index : 256 + k - s.username_len_with_null ≡ i = omega arith in rw (a, index) (ground arith)

feed-secret_last :
    (s : Statics) (m : Monitor) (n k i : ℕ) (c : ℕ)
    → IsAddition m.target
    → length m.union_data ≡ 512
    → is_alnum c ≡ true
    → 256 + k ≡ i + s.username_len_with_null
    → i < 512
    → suc k ≡ n
    → n < 65536
    → monitor_parser_feed (at s m monitor_data n k true) c ≡ added s (named m i (c ∷ [])) n
unfolding monitor_parser_feed overwrite
feed-secret_last s m n k i c d u a e l j w =
    let index : 256 + k - s.username_len_with_null ≡ i = omega arith in
    rw (a, index) (ground (arith, length-set m.union_data i c))

added-is_done :
    (s : Statics) (m : Monitor) (n : ℕ) → monitor_is_done (connection_state (added s m n)) ≡ true
unfolding monitor_is_done
added-is_done s m n = elim (Bool-cases (ltb n 256)) [ inl e ↦ rw e refl | inr e ↦ rw e refl ]

secret-parse :
    (s : Statics) (m : Monitor) (n k i : ℕ) (c : ℕ) (cs rest : List ℕ)
    → IsAddition m.target
    → length m.union_data ≡ 512
    → AllAlnum (c ∷ cs)
    → 256 + k ≡ i + s.username_len_with_null
    → i + suc (length cs) ≤ 512
    → k + suc (length cs) ≡ n
    → n < 65536
    → monitor_parse (at s m monitor_data n k true) (c ∷ (cs ++ rest))
      ≡ (added s (named m i (c ∷ cs)) n, false, rest)
unfolding monitor_is_done overwrite
secret-parse s m n k i c [] rest d u a e l j w =
    monitor_stop _ _ c rest (feed-secret_last s m n k i c d u a.0 e (omega arith) (omega arith) w)
      (added-is_done s (named m i (c ∷ [])) n)
secret-parse s m n k i c (x ∷ xs) rest d u a e l j w =
    monitor_more _ _ c (x ∷ (xs ++ rest))
      (feed-secret s m n k i c d u a.0 e (omega arith) (omega arith) w) refl
    ∙ secret-parse s (named m i (c ∷ [])) n (suc k) (suc i) x xs rest d
        (length-named m i (c ∷ []) ∙ u) a.1 (omega arith) (omega arith) (omega arith) w

-- The separator and the second string, which may be empty.
separator-parse :
    (s : Statics) (m : Monitor) (n k : ℕ) (secret rest : List ℕ)
    → IsAddition m.target
    → length m.union_data ≡ 512
    → AllAlnum secret
    → 0 < k
    → k < 512
    → length secret ≤ 256
    → k + suc (length secret) ≡ n
    → n < 65536
    → monitor_parse (at s m monitor_data n k false) (0 ∷ (secret ++ rest)) ≡ (
      added (record s { username_len_with_null = suc k }) (named (named m k (0 ∷ [])) 256 secret) n,
      false,
      rest,
    )
unfolding monitor_is_done overwrite
separator-parse s m n k [] rest d u a z l b j w =
    let s' : Statics = record s { username_len_with_null = suc k } in
    monitor_stop _ _ 0 rest (feed-separator_last s m n k d u z l (omega arith))
      (added-is_done s' (named m k (0 ∷ [])) n)
separator-parse s m n k (c ∷ cs) rest d u a z l b j w =
    monitor_more _ _ 0 (c ∷ (cs ++ rest)) (feed-separator s m n k d u z l (omega arith) w) refl
    ∙ secret-parse (record s { username_len_with_null = suc k }) (named m k (0 ∷ [])) n (suc k) 256
        c cs rest d (length-named m k (0 ∷ []) ∙ u) a (omega arith) (omega arith) (omega arith) w

user-parse :
    (s : Statics) (m : Monitor) (n k w : ℕ) (c : ℕ) (cs secret rest : List ℕ)
    → IsAddition m.target
    → length m.union_data ≡ 512
    → AllAlnum (c ∷ cs)
    → AllAlnum secret
    → k + suc (length cs) < 512
    → length secret ≤ 256
    → w ≡ suc k + suc (length cs)
    → w + length secret ≡ n
    → n < 65536
    → monitor_parse (at s m monitor_data n k false) (c ∷ (cs ++ 0 ∷ (secret ++ rest))) ≡ (
      added
          (record s { username_len_with_null = w })
          (named (named m k ((c ∷ cs) ++ 0 ∷ [])) 256 secret)
          n,
      false,
      rest,
    )
unfolding monitor_is_done overwrite
user-parse s m n k w c [] secret rest d u a a' l b e j x =
    let next : suc (suc k) ≡ w = omega arith in
    monitor_more _ _ c (0 ∷ (secret ++ rest))
      (feed-user s m n k c d u a.0 (omega arith) (omega arith) x) refl
    ∙ separator-parse s (named m k (c ∷ [])) n (suc k) secret rest d (length-named m k (c ∷ []) ∙ u)
        a' (omega arith) (omega arith) b (omega arith) x
    ∙ ap
        (λ i. (
          added (record s { username_len_with_null = i })
              (named (named m k (c ∷ 0 ∷ [])) 256 secret) n,
          false,
          rest,
        ))
        next
user-parse s m n k w c (y ∷ ys) secret rest d u a a' l b e j x =
    monitor_more _ _ c (y ∷ (ys ++ 0 ∷ (secret ++ rest)))
      (feed-user s m n k c d u a.0 (omega arith) (omega arith) x) refl
    ∙ user-parse s (named m k (c ∷ [])) n (suc k) w y ys secret rest d
        (length-named m k (c ∷ []) ∙ u) a.1 a' (omega arith) b (omega arith) j x

-- VER, TOKEN, METHOD, TARGET, DLEN and DATA of a request that adds.
abbrev pub addition : List ℕ → ℕ → ℕ → ℕ → List ℕ → List ℕ → List ℕ
addition tok t hi lo name secret = 1 ∷ (tok ++ 1 ∷ t ∷ hi ∷ lo ∷ (name ++ 0 ∷ secret))

-- The union behind the last byte.
added-strings :
    (name secret : List ℕ) (n : ℕ)
    → length name < 256
    → length secret < 256
    → length secret ≤ n
    → overwrite
        (overwrite (overwrite (replicate 512 0) 0 (name ++ 0 ∷ [])) 256 secret)
        (256 + n)
        (0 ∷ [])
      ≡ two_strings name secret
unfolding overwrite
added-strings name secret n l m h =
    ap (λ z. set (overwrite z 256 secret) (256 + n) 0)
      (overwrite-first (name ++ 0 ∷ []) (omega (arith, length-append name (0 ∷ [])))
        ∙ ap (λ z. z ++ replicate 256 0) (padded-terminated name l))
    ∙ ap (λ z. set z (256 + n) 0) (overwrite-second name secret (omega arith) (omega arith))
    ∙ set-two_strings name secret n (omega arith) h

-- The whole of such a request, in front of its last store.
addition-parse :
    (s : Statics) (p : MonitorParser) (tok name secret : List ℕ) (t hi lo n : ℕ)
    → length tok ≡ 16
    → length s.combinedlen ≡ 2
    → p.separated ≡ false
    → IsAddition t
    → AllAlnum name
    → AllAlnum secret
    → 0 < length name
    → length name ≤ 255
    → length secret ≤ 255
    → length name + suc (length secret) ≡ n
    → hi * 256 + lo ≡ n
    → monitor_parse (some (s, monitor_parser_init p)) (addition tok t hi lo name secret) ≡ (
      added
          (record { combinedlen = hi ∷ lo ∷ []; username_len_with_null = suc (length name) })
          (named (named (deletion_of tok t n) 0 (name ++ 0 ∷ [])) 256 secret)
          n,
      false,
      [],
    )
addition-parse s p tok [] secret t hi lo n h two sep d a a' z l b j e = absurd (omega arith)
addition-parse s p tok (c ∷ cs) secret t hi lo n h two sep d a a' z l b j e =
    let s' : Statics = record s { combinedlen = hi ∷ lo ∷ [] } in
    let m : Monitor = deletion_of tok t n in
    dlen-parse s p tok ((c ∷ cs) ++ 0 ∷ secret) t hi lo n h two
      (elim d [ inl q ↦ omega arith | inr q ↦ omega arith ])
      (elim d [ inl q ↦ omega arith | inr q ↦ omega arith ]) e
    ∙ ap (λ f. monitor_parse (at s' m monitor_data n 0 f) (c ∷ (cs ++ 0 ∷ secret))) sep
    ∙ ap (λ r. monitor_parse (at s' m monitor_data n 0 false) (c ∷ (cs ++ 0 ∷ r)))
        (sym (append-nil secret))
    ∙ user-parse s' m n 0 (suc (suc (length cs))) c cs secret [] d refl a a' (omega arith)
        (omega arith) (omega arith) (omega arith) (omega arith)

-- A request to add a user or an administrator, with a token of 16 bytes, a name of 1 to 255 letters and
-- digits and a second string of at most 255, sent by a connection whose parser is not behind a separator:
-- where the two strings and the 0 between them have less than 256 bytes it is parsed to the end, and the
-- union holds the two strings; where they have 256 or more the parser stores the terminator outside the
-- union. In both cases no byte is left.
pub monitor_parse-addition :
    (s : Statics) (p : MonitorParser) (tok name secret : List ℕ) (t hi lo : ℕ)
    → length tok ≡ 16
    → length s.combinedlen ≡ 2
    → p.separated ≡ false
    → IsAddition t
    → All (λ c. is_alnum c ≡ true) name
    → All (λ c. is_alnum c ≡ true) secret
    → 0 < length name
    → length name ≤ 255
    → length secret ≤ 255
    → hi * 256 + lo ≡ length name + suc (length secret)
    → let result =
        monitor_parse (some (s, monitor_parser_init p)) (addition tok t hi lo name secret) in
      ((length name + suc (length secret) < 256)
        × ((s' : Statics) × (q : MonitorParser) × (result ≡ (some (s', q), false, []))
            × (q.state ≡ monitor_done)
            × (q.monitor.token ≡ tok)
            × (q.monitor.method ≡ 1)
            × (q.monitor.target ≡ t)
            × (c_string q.monitor.union_data ≡ name)
            × (c_string (drop 256 q.monitor.union_data) ≡ secret)
            × (q.separated ≡ false)))
      ⊎ ((256 ≤ length name + suc (length secret)) × (result ≡ (none, false, [])))
monitor_parse-addition s p tok name secret t hi lo h two sep d a a' z l b e =
    let n : ℕ = length name + suc (length secret) in
    let parsed = addition-parse s p tok name secret t hi lo n h two sep d a a' z l b refl e in
    elim (Bool-cases (ltb n 256)) [
      | inl fits ↦
          let short : n < 256 = ltb→lt n 256 fits in
          let stored = added-strings name secret n (omega arith) (omega arith) (omega arith) in
          let (first, second) =
            c_string-two_strings name secret (NonZero-of_alnum name a) (NonZero-of_alnum secret a')
              (omega arith) (omega arith) in
          let s' : Statics = record {
            combinedlen = hi ∷ lo ∷ [];
            username_len_with_null = suc (length name);
          } in
          let m : Monitor =
            named (named (named (deletion_of tok t n) 0 (name ++ 0 ∷ [])) 256 secret) (256 + n)
              (0 ∷ []) in
          inl (
            short,
            (
              s',
              record { monitor = m; state = monitor_done; len = n; i = n; separated = false },
              parsed ∙ rw fits refl,
              refl,
              refl,
              refl,
              refl,
              ap c_string stored ∙ first,
              ap (λ u. c_string (drop 256 u)) stored ∙ second,
              refl,
            ),
          )
      | inr over ↦ inr (ground arith, parsed ∙ rw over refl)
    ]
