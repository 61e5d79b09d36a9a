-- ===== src/Monitor/Parser.antt =====
-- src/server/monitor.c: the parser. A store outside the union `data` is a fault, `none`. The file's
-- two static variables are shared by all the connections, so they are a state of their own beside the
-- parser.
use socks_v5_proxy.Prelude.{
  ltb, leb, ◌==◌, if◌then◌else◌, length, get_or, set, overwrite, u16, ◌>>=◌, ℕ, ◌+◌, ◌-◌, ◌*◌, Bool,
  true, false, not, ◌&&◌, ◌||◌, Option, none, some, [], ◌∷◌,
}
use socks_v5_proxy.Buffer.{Buffer}
use socks_v5_proxy.Consume.{Consumed, consume}
use socks_v5_proxy.Monitor.Types.{
  MonitorState, monitor_version, monitor_token, monitor_method, monitor_target, monitor_dlen,
  monitor_data, monitor_done, monitor_error_unsupported_version, monitor_error_unsupported_method,
  monitor_error_unsupported_target, monitor_error_invalid_data, monitor_state_value, token_size,
  monitor_method_get, monitor_method_config, target_config_pop3disector,
  target_config_add_proxyuser, target_config_add_admin, Statics, MonitorParser, remaining_set,
  remaining_is_done, is_alnum,
}

-- What a step leaves: the next state, the static variables and the parser.
abbrev pub Stepped : Type 0
Stepped = MonitorState × Statics × MonitorParser

-- A store in the union, `none` outside of it.
unfoldable pub store : MonitorParser → ℕ → ℕ → Option MonitorParser
store p at c =
    if ltb at (length p.monitor.union_data)
    then some
        (record p { monitor = record (p.monitor) { union_data = set p.monitor.union_data at c } })
    else none

version : ℕ → Statics → MonitorParser → Stepped
version c s p =
    if c == 0x01
    then (monitor_token, s, remaining_set p token_size)
    else (monitor_error_unsupported_version, s, p)

token : ℕ → Statics → MonitorParser → Stepped
token c s p =
    let p' : MonitorParser = record p {
      monitor = record (p.monitor) { token = set p.monitor.token p.i c };
      i = u16 (p.i + 1);
    } in
    (if remaining_is_done p' then monitor_method else monitor_token, s, p')

method : ℕ → Statics → MonitorParser → Stepped
method c s p =
    let p' : MonitorParser = record p { monitor = record (p.monitor) { method = c } } in
    (
      if c == monitor_method_get || c == monitor_method_config
          then monitor_target
          else monitor_error_unsupported_method,
      s,
      p',
    )

-- The targets of both methods are the values 0 to 4.
target : ℕ → Statics → MonitorParser → Stepped
target c s p =
    let p' : MonitorParser = record p { monitor = record (p.monitor) { target = c } } in
    if p.monitor.method == monitor_method_get
    then (if leb c 4 then (monitor_done, s, p') else (monitor_error_unsupported_target, s, p))
    else (if leb c 4
        then (monitor_dlen, s, remaining_set p' 2)
        else (monitor_error_unsupported_target, s, p))

-- `ntohs` of the two bytes read. The target's value is known to be one of the five.
dlen : ℕ → Statics → MonitorParser → Stepped
dlen c s p =
    let s' : Statics = record s { combinedlen = set s.combinedlen p.i c } in
    let p' : MonitorParser = record p { i = u16 (p.i + 1) } in
    let n : ℕ = get_or s'.combinedlen 0 0 * 256 + get_or s'.combinedlen 1 0 in
    let q : MonitorParser = record p' { monitor = record (p.monitor) { dlen = n } } in
    if remaining_is_done p'
    then (
      monitor_data,
      s',
      (if p.monitor.target == target_config_pop3disector then q else remaining_set q n),
    )
    else (monitor_dlen, s', p')

-- The end of an addition, once a byte is stored.
finish_add : Statics → MonitorParser → Option Stepped
unfolding store
finish_add s p =
    if remaining_is_done p
    then (store p (256 + p.i) 0 >>= λ q. some (monitor_done, s, record q { separated = false }))
    else some (monitor_data, s, p)

-- The cases of the two additions, whose text differs only in the name of the second array:
-- `<user>\0<secret>`. A secret's index below 0 is in front of the union.
data_add : ℕ → Statics → MonitorParser → Option Stepped
unfolding store finish_add
data_add c s p =
    let next : ℕ = u16 (p.i + 1) in
    if p.i == 0 && c == 0
    then some (monitor_error_invalid_data, s, p)
    else if is_alnum c
    then (if p.separated
        then (if ltb (256 + p.i) s.username_len_with_null
            then none
            else (store p (256 + p.i - s.username_len_with_null) c >>= λ q.
                finish_add s (record q { i = next })))
        else (store p p.i c >>= λ q. finish_add s (record q { i = next })))
    else if c == 0 && not p.separated
    then (store p p.i c >>= λ q.
        finish_add (record s { username_len_with_null = next })
          (record q { i = next; separated = true }))
    else some (monitor_error_invalid_data, s, p)

-- The end of a deletion, once a byte is stored.
finish_delete : Statics → MonitorParser → Option Stepped
unfolding store
finish_delete s p =
    if remaining_is_done p
    then (store p p.i 0 >>= λ q. some (monitor_done, s, q))
    else some (monitor_data, s, p)

-- The cases of the two deletions: `<user>`.
data_delete : ℕ → Statics → MonitorParser → Option Stepped
unfolding store finish_delete
data_delete c s p =
    if is_alnum c
    then (store p p.i c >>= λ q. finish_delete s (record q { i = u16 (p.i + 1) }))
    else some (monitor_error_invalid_data, s, p)

-- The parameter of the sniffer's switch is an `int` of four bytes, little-endian.
data_disector : ℕ → Statics → MonitorParser → Option Stepped
data_disector c s p = some (
  monitor_done,
  s,
  record p {
    monitor = record (p.monitor) {
      union_data = overwrite p.monitor.union_data 0 (c ∷ 0 ∷ 0 ∷ 0 ∷ []);
    };
  },
)

data_step : ℕ → Statics → MonitorParser → Option Stepped
unfolding data_add data_delete data_disector
data_step c s p =
    if p.monitor.target == target_config_pop3disector
    then data_disector c s p
    else if p.monitor.target == target_config_add_proxyuser
        || p.monitor.target == target_config_add_admin
    then data_add c s p
    else data_delete c s p

-- The `switch` on `p->state`; the last clause is the states that stay.
monitor_dispatch : MonitorState → ℕ → Statics → MonitorParser → Option Stepped
unfolding version token method target dlen data_step
monitor_dispatch monitor_version c s p = some (version c s p)
monitor_dispatch monitor_token c s p = some (token c s p)
monitor_dispatch monitor_method c s p = some (method c s p)
monitor_dispatch monitor_target c s p = some (target c s p)
monitor_dispatch monitor_dlen c s p = some (dlen c s p)
monitor_dispatch monitor_data c s p = data_step c s p
monitor_dispatch _ c s p = some (p.state, s, p)

-- The static variables and the parser of one connection; `none` once a store was outside the union.
abbrev pub Connection : Type 0
Connection = Option (Statics × MonitorParser)

unfoldable pub monitor_parser_feed : Connection → ℕ → Connection
unfolding monitor_dispatch
monitor_parser_feed none c = none
monitor_parser_feed (some (s, p)) c = do
  (next, s', p') ← monitor_dispatch p.state c s p
  some (s', record p' { state = next })

abbrev pub connection_state : Connection → Option MonitorState
connection_state none = none
connection_state (some (s, p)) = some p.state

-- `monitor_is_done`; a fault ends the loop too.
unfoldable pub monitor_is_done : Option MonitorState → Bool
monitor_is_done none = true
monitor_is_done (some st) = leb (monitor_state_value monitor_done) (monitor_state_value st)

unfoldable pub monitor_consume : Buffer → Connection → Option (Consumed Connection)
monitor_consume b k =
    consume monitor_parser_feed connection_state monitor_is_done (λ st. false) b k false
