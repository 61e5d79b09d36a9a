-- ===== src/Monitor/Commands.antt =====
-- src/server/monitor.c: what the parser makes of whole requests.
use socks_v5_proxy.Prelude.{
  leb, leb→le, Bool-cases, length, set, replicate, overwrite, overwrite-replicate, ℕ, suc, ◌+◌, ◌-◌,
  ◌≤◌, ◌<◌, ◌≡◌, refl, ap, ◌∙◌, ◌⊎◌, inl, inr, Bool, true, false, some, List, [], ◌∷◌, ◌++◌,
  append-nil, arith,
}
use socks_v5_proxy.Consume.{parse}
use socks_v5_proxy.Consume.Stream.{parse-more, parse-stop}
use socks_v5_proxy.Monitor.Types.{
  MonitorState, monitor_token, monitor_method, monitor_target, monitor_done,
  monitor_error_unsupported_target, Monitor, Statics, MonitorParser, cleared_monitor,
  monitor_parser_init,
}
use socks_v5_proxy.Monitor.Parser.{
  Connection, monitor_parser_feed, connection_state, monitor_is_done,
}

abbrev pub monitor_parse : Connection → List ℕ → Connection × Bool × List ℕ
monitor_parse k = parse monitor_parser_feed connection_state monitor_is_done (λ st. false) k false

abbrev pub monitor_more :
    (k k' : Connection) (c : ℕ) (cs : List ℕ)
    → monitor_parser_feed k c ≡ k'
    → monitor_is_done (connection_state k') ≡ false
    → monitor_parse k (c ∷ cs) ≡ monitor_parse k' cs
monitor_more k k' c cs e d =
    parse-more monitor_parser_feed connection_state monitor_is_done (λ st. false) k k' c cs e d refl

abbrev pub monitor_stop :
    (k k' : Connection) (c : ℕ) (cs : List ℕ)
    → monitor_parser_feed k c ≡ k'
    → monitor_is_done (connection_state k') ≡ true
    → monitor_parse k (c ∷ cs) ≡ (k', false, cs)
monitor_stop = parse-stop monitor_parser_feed connection_state monitor_is_done (λ st. false)

abbrev pub at : Statics → Monitor → MonitorState → ℕ → ℕ → Bool → Connection
at s m st n k sep = some (s, record { monitor = m; state = st; len = n; i = k; separated = sep })

-- The bytes of the token one by one, from index `k` on.
token-parse :
    (s : Statics) (m : Monitor) (k : ℕ) (sep : Bool) (c : ℕ) (cs rest : List ℕ)
    → k + suc (length cs) ≡ 16
    → monitor_parse (at s m monitor_token 16 k sep) (c ∷ (cs ++ rest))
      ≡ monitor_parse
          (at s (record m { token = overwrite m.token k (c ∷ cs) }) monitor_method 16 16 sep)
          rest
unfolding monitor_parser_feed monitor_is_done overwrite
token-parse s m k sep c [] rest e =
    monitor_more _ (at s (record m { token = set m.token k c }) monitor_method 16 16 sep) c rest
      (ground arith) refl
token-parse s m k sep c (x ∷ xs) rest e =
    monitor_more _ (at s (record m { token = set m.token k c }) monitor_token 16 (suc k) sep) c
      (x ∷ (xs ++ rest)) (ground arith) refl
    ∙ token-parse s (record m { token = set m.token k c }) (suc k) sep x xs rest (omega arith)

-- The request as it stands behind the token.
abbrev pub tokened : List ℕ → Monitor
tokened tok = record cleared_monitor { token = tok }

-- VER and TOKEN.
pub header-parse :
    (s : Statics) (p : MonitorParser) (tok rest : List ℕ)
    → length tok ≡ 16
    → monitor_parse (some (s, monitor_parser_init p)) (1 ∷ (tok ++ rest))
      ≡ monitor_parse (at s (tokened tok) monitor_method 16 16 p.separated) rest
unfolding monitor_parser_init monitor_parser_feed monitor_is_done
header-parse s p [] rest h = absurd (omega arith)
header-parse s p (c ∷ cs) rest h =
    monitor_more _ (at s cleared_monitor monitor_token 16 0 p.separated) 1 _ refl refl
    ∙ token-parse s cleared_monitor 0 p.separated c cs rest (omega arith)
    ∙ ap (λ t. monitor_parse (at s (tokened t) monitor_method 16 16 p.separated) rest)
        (overwrite-replicate 16 (c ∷ cs) (omega arith)
          ∙ ap (λ k. (c ∷ cs) ++ replicate k 0)
              (let z : 16 - length (c ∷ cs) ≡ 0 = omega arith in z)
          ∙ append-nil (c ∷ cs))

-- VER, TOKEN, METHOD and TARGET of a request that asks.
abbrev pub query : List ℕ → ℕ → List ℕ → List ℕ
query tok t rest = 1 ∷ (tok ++ 0 ∷ t ∷ rest)

-- A GET request with a token of 16 bytes: for one of the five targets it is parsed to the end, and the
-- token and the target are those of the request; for any other target the parse ends in the error that
-- names it. In both cases the bytes behind it are left.
pub monitor_parse-get :
    (s : Statics) (p : MonitorParser) (tok rest : List ℕ) (t : ℕ)
    → length tok ≡ 16
    → let result = monitor_parse (some (s, monitor_parser_init p)) (query tok t rest) in
      ((t ≤ 4)
        × (result ≡ (
          at s (record (tokened tok) { target = t }) monitor_done 16 16 p.separated,
          false,
          rest,
        )))
      ⊎ ((4 < t)
          × (result ≡ (
            at s (tokened tok) monitor_error_unsupported_target 16 16 p.separated,
            false,
            rest,
          )))
unfolding monitor_parser_feed monitor_is_done
monitor_parse-get s p tok rest t h =
    let start : monitor_parse (some (s, monitor_parser_init p)) (query tok t rest)
        ≡ monitor_parse (at s (tokened tok) monitor_target 16 16 p.separated) (t ∷ rest) =
      header-parse s p tok (0 ∷ t ∷ rest) h
      ∙ monitor_more _ (at s (tokened tok) monitor_target 16 16 p.separated) 0 _ refl refl in
    elim (Bool-cases (leb t 4)) [
      | inl e ↦ inl (
        leb→le t 4 e,
        start
            ∙ monitor_stop _
                (at s (record (tokened tok) { target = t }) monitor_done 16 16 p.separated) t rest
                (ground arith) refl,
      )
      | inr e ↦ inr (
        ground arith,
        start
            ∙ monitor_stop _ (at s (tokened tok) monitor_error_unsupported_target 16 16 p.separated)
                t rest (ground arith) refl,
      )
    ]
