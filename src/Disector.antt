-- ===== src/Disector.antt =====
-- src/server/disector.c and src/include/disector.h: the sniffer of POP3 credentials.
-- `struct disector` is the list of its 513 bytes: `user` from 0 on, `pass` from 255 on, `status` from
-- 510 on, so that a store past the end of one array goes to the next. A store in front of the struct
-- is `none`.
pub mod Strings
pub mod Capture
pub mod Bounds
use Prim.Native.String
use Prim.Native.String.{String}
use Prim.Native.Char.{code}
use socks_v5_proxy.Prelude.{
  leb, ◌==◌, if◌then◌else◌, length, get_or, set, replicate, u8, ◌>>=◌, ℕ, ◌+◌, ◌-◌, Bool, true,
  false, Option, none, some, List, [], ◌∷◌,
}

-- The code points of a text.
abbrev pub codes : String → List ℕ
codes String.[] = []
codes (String.◌∷◌ c s) = code c ∷ codes s

pub data DisectorState : Type 0 where
  disector_wait_pop disector_user disector_user_copy disector_password : DisectorState
  disector_password_copy disector_response disector_done disector_restart : DisectorState
  disector_incompatible : DisectorState

-- The values that C gives the enumerators.
abbrev pub disector_state_value : DisectorState → ℕ
disector_state_value disector_wait_pop = 0
disector_state_value disector_user = 1
disector_state_value disector_user_copy = 2
disector_state_value disector_password = 3
disector_state_value disector_password_copy = 4
disector_state_value disector_response = 5
disector_state_value disector_done = 6
disector_state_value disector_restart = 7
disector_state_value disector_incompatible = 8

pub record DisectorParser : Type 0 where
  pub disector : List ℕ
  pub state : DisectorState
  pub i : ℕ
  pub user_carry : Bool

abbrev pub to_upper : ℕ → ℕ
to_upper c = if leb b'a' c then c - 32 else c

abbrev pub search_pop : List ℕ
search_pop = codes "+OK"

abbrev pub search_user : List ℕ
search_user = codes "USER "

abbrev pub search_pass : List ℕ
search_pass = codes "PASS "

unfoldable pub disector_parser_reset : DisectorParser → DisectorParser
disector_parser_reset p = record p {
  state = disector_user;
  i = (if p.user_carry then 1 else 0);
  user_carry = false;
}

unfoldable pub disector_parser_init : DisectorParser
disector_parser_init = record {
  disector = replicate 513 0;
  state = disector_wait_pop;
  i = 0;
  user_carry = false;
}

-- `p->i >= strlen(search[...]) - 1`
abbrev pub remaining_is_done : DisectorParser → List ℕ → Bool
remaining_is_done p search = leb (length search - 1) p.i

-- The steps return the next state and the parser; `none` is a store outside the struct.
wait_pop : ℕ → DisectorParser → Option (DisectorState × DisectorParser)
wait_pop c p =
    let p' : DisectorParser = record p { i = u8 (p.i + 1) } in
    some (
      if c == get_or search_pop p.i 0
      then (if remaining_is_done p' search_pop then disector_user else disector_wait_pop, p')
      else (disector_incompatible, p))

user : ℕ → DisectorParser → Option (DisectorState × DisectorParser)
user c p =
    let p' : DisectorParser = record p { i = u8 (p.i + 1) } in
    some (
      if to_upper c == get_or search_user p.i 0
      then (if remaining_is_done p' search_user then disector_user_copy else disector_user, p')
      else (disector_restart, p))

user_copy : ℕ → DisectorParser → Option (DisectorState × DisectorParser)
user_copy c p =
    if c == b'\n'
    then (if p.i == 0
        then none
        else some (disector_password, record p { disector = set p.disector (p.i - 1) 0 }))
    else some (disector_user_copy, record p { disector = set p.disector p.i c; i = u8 (p.i + 1) })

password : ℕ → DisectorParser → Option (DisectorState × DisectorParser)
password c p =
    let p' : DisectorParser = record p { i = u8 (p.i + 1) } in
    some (
      if to_upper c == get_or search_pass p.i 0
      then (
        if remaining_is_done p' search_pass then disector_password_copy else disector_password,
        p',
      )
      else (
        disector_restart,
        (if to_upper c == get_or search_user 0 0 then record p { user_carry = true } else p),
      ))

-- `pass[i - 1]` is byte 254 + i of the struct, also at i = 0.
password_copy : ℕ → DisectorParser → Option (DisectorState × DisectorParser)
password_copy c p = some (
    if c == b'\n'
    then (disector_response, record p { disector = set p.disector (254 + p.i) 0 })
    else (
      disector_password_copy,
      record p { disector = set p.disector (255 + p.i) c; i = u8 (p.i + 1) },
    ))

response : ℕ → DisectorParser → Option (DisectorState × DisectorParser)
response c p =
    let p' : DisectorParser = record p { i = u8 (p.i + 1) } in
    some (
      if c == get_or search_pop p.i 0
      then (if remaining_is_done p' search_pop then disector_done else disector_response, p')
      else (disector_restart, p))

-- The `switch` on `p->state`; the last clause is `default`.
disector_dispatch : DisectorState → ℕ → DisectorParser → Option (DisectorState × DisectorParser)
unfolding wait_pop user user_copy password password_copy response
disector_dispatch disector_wait_pop c p = wait_pop c p
disector_dispatch disector_user c p = user c p
disector_dispatch disector_user_copy c p = user_copy c p
disector_dispatch disector_password c p = password c p
disector_dispatch disector_password_copy c p = password_copy c p
disector_dispatch disector_response c p = response c p
disector_dispatch disector_done c p = some (p.state, p)
disector_dispatch disector_restart c p = some (p.state, p)
disector_dispatch disector_incompatible c p = some (disector_restart, p)

-- `next != p->state`
abbrev pub same_state : DisectorState → DisectorState → Bool
same_state s t = disector_state_value s == disector_state_value t

unfoldable pub disector_parser_feed : DisectorParser → ℕ → Option DisectorParser
unfolding disector_dispatch
disector_parser_feed p c = do
  (next, p') ← disector_dispatch p.state c p
  some (record p' { i = (if same_state next p.state then p'.i else 0); state = next })

-- The loop of `disector_consume` over the bytes at `ptr`, with the last state that the feed returned.
unfoldable pub disector_loop :
    DisectorParser → DisectorState → List ℕ → Option (DisectorState × DisectorParser)
disector_loop p st [] = some (st, p)
disector_loop p st (c ∷ cs) = elim (disector_parser_feed p c) [
  | none ↦ none
  | some p' ↦ elim (p'.state) [
    | disector_restart ↦ disector_loop (disector_parser_reset p') p'.state cs
    | disector_incompatible ↦ some (p'.state, p')
    | _ ↦ disector_loop p' p'.state cs
  ]
]

unfoldable pub disector_consume : DisectorParser → List ℕ → Option (DisectorState × DisectorParser)
unfolding disector_loop
disector_consume p bytes = disector_loop p p.state bytes
