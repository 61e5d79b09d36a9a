-- ===== src/Tests/Streams.antt =====
-- Buffers, the loop that parsers read them with, and the state machine, at concrete inputs.

use socks_v5_proxy.Prelude.{
  length, ℕ, suc, ◌≤◌, ◌<◌, ◌≡◌, refl, ◌⊎◌, true, false, none, some, List, [], ◌∷◌, arith,
}
use socks_v5_proxy.Buffer.{
  Buffer, buffer_can_read, buffer_compact, buffer_read_adv, buffer_read, buffer_write, IsValid,
  contents, room,
}
use socks_v5_proxy.Buffer.Stores.{buffer_write-contents}
use socks_v5_proxy.Consume.{Consumed, consume_loop, consume, parse}
use socks_v5_proxy.Consume.Stream.{Agrees, consume-Agrees, consume-resumed}
use socks_v5_proxy.Hello.{
  hello_version, HelloParser, hello_parser_feed, hello_is_done, hello_is_error, hello_consume,
  on_hello_method,
}
use socks_v5_proxy.Stm.{
  StateDefinition, StateMachine, states_checked, stm_init, run_hook, handle_first, jump,
  stm_handler, stm_state,
}
use socks_v5_proxy.Stm.Laws.{IsReady, stm_init-IsReady, stm_handler-IsReady}

-- Two bytes were read, three are queued, three more fit.
abbrev half_read : Buffer
half_read = record { bytes = 1 ∷ 2 ∷ 3 ∷ 4 ∷ 5 ∷ 0 ∷ 0 ∷ 0 ∷ []; limit = 8; read = 2; write = 5 }

half_read-IsValid : IsValid half_read
half_read-IsValid = record { ordered = omega arith; bounded = omega arith; stored = omega arith }

buffer_write-contents_example :
    (b' : Buffer) × (buffer_write half_read 6 ≡ some b')
    × IsValid b'
    × (((0 < 3) × (contents b' ≡ 3 ∷ 4 ∷ 5 ∷ 6 ∷ []) × (room b' ≡ 2))
        ⊎ ((room half_read ≡ 0) × (b' ≡ half_read)))
buffer_write-contents_example = buffer_write-contents {b = half_read} 6 half_read-IsValid

-- A greeting cut off behind the number of methods.
abbrev greeting_parser : HelloParser
greeting_parser = record {
  on_authentication_method = some (on_hello_method true);
  state = hello_version;
  remaining = 0;
  selected = 255;
}

abbrev greeting_part : Buffer
greeting_part = record { bytes = 5 ∷ 2 ∷ 0 ∷ 0 ∷ []; limit = 4; read = 0; write = 2 }

greeting_part-IsValid : IsValid greeting_part
greeting_part-IsValid = record {
  ordered = omega arith;
  bounded = omega arith;
  stored = omega arith;
}

consume-Agrees_example :
    Agrees
      (parse hello_parser_feed
        (λ p. p.state)
        hello_is_done
        hello_is_error
        greeting_parser
        false
        (5 ∷ 2 ∷ []))
      (consume hello_parser_feed
        (λ p. p.state)
        hello_is_done
        hello_is_error
        greeting_part
        greeting_parser
        false)
consume-Agrees_example =
    consume-Agrees hello_parser_feed (λ p. p.state) hello_is_done hello_is_error greeting_part
      greeting_parser false greeting_part-IsValid

-- The first two bytes of a greeting, its last two, and all of it, in buffers of their own.
abbrev holding : List ℕ → Buffer
holding xs = record { bytes = xs; limit = length xs; read = 0; write = length xs }

holding-IsValid : (xs : List ℕ) → IsValid (holding xs)
holding-IsValid xs = record { ordered = omega arith; bounded = omega arith; stored = omega arith }

abbrev halfway : Consumed HelloParser
halfway = elim (hello_consume (holding (5 ∷ 2 ∷ [])) greeting_parser false) [
  | none ↦ record { buffer = holding []; parser = greeting_parser; errored = true }
  | some c ↦ c
]

consume-resumed_example :
    (contents halfway.buffer ≡ [])
    × ((d1 : Consumed HelloParser) × (d : Consumed HelloParser) × (hello_consume
            (holding (0 ∷ 2 ∷ []))
            halfway.parser
            halfway.errored
          ≡ some d1)
        × (hello_consume (holding (5 ∷ 2 ∷ 0 ∷ 2 ∷ [])) greeting_parser false ≡ some d)
        × (d1.parser ≡ d.parser)
        × (d1.errored ≡ d.errored)
        × (contents d1.buffer ≡ contents d.buffer))
unfolding hello_consume consume consume_loop buffer_read buffer_can_read buffer_read_adv
    buffer_compact hello_parser_feed hello_is_done hello_is_error
consume-resumed_example =
    consume-resumed hello_parser_feed (λ p. p.state) hello_is_done hello_is_error
      (holding (5 ∷ 2 ∷ [])) (holding (0 ∷ 2 ∷ [])) (holding (5 ∷ 2 ∷ 0 ∷ 2 ∷ [])) greeting_parser
      false halfway (holding-IsValid _) (holding-IsValid _) (holding-IsValid _) refl refl refl

-- A machine of two states: the first counts and moves on, the second stays.
abbrev first_state : StateDefinition ℕ
first_state = record {
  state = 0;
  on_arrival = none;
  on_departure = none;
  on_read_ready = some (λ k. some (1, suc k));
  on_write_ready = none;
  on_block_ready = none;
}

abbrev second_state : StateDefinition ℕ
second_state = record {
  state = 1;
  on_arrival = none;
  on_departure = none;
  on_read_ready = some (λ k. some (1, k));
  on_write_ready = none;
  on_block_ready = none;
}

abbrev two_states : StateMachine ℕ
two_states = record {
  initial = 0;
  states = first_state ∷ second_state ∷ [];
  max_state = 1;
  current = none;
}

two_states-IsReady : IsReady two_states
unfolding stm_init states_checked
two_states-IsReady = (stm_init-IsReady two_states two_states refl).0

stm_handler-IsReady_example :
    IsReady (record two_states { current = some 1 })
    × ((record two_states { current = some 1 }).current ≡ some 1)
    × (1 ≤ 1)
    × (stm_state (record two_states { current = some 1 }) ≡ some 1)
unfolding stm_handler handle_first jump run_hook
stm_handler-IsReady_example =
    stm_handler-IsReady (λ d. d.on_read_ready) two_states (record two_states { current = some 1 }) 0
      1 1 two_states-IsReady refl

abbrev moved : StateMachine ℕ
moved = record two_states { current = some 0 }
