-- ===== src/Consume.antt =====
-- The loop that `hello_consume`, `auth_consume`, `request_consume` and `monitor_consume` share
-- (src/server/hello.c, auth.c, request.c, monitor.c): bytes are read off a buffer and fed to a parser
-- until it is done or the buffer is empty.
pub mod Stream
pub mod Invariant
use socks_v5_proxy.Prelude.{
  if◌then◌else◌, ℕ, zero, suc, ◌-◌, Bool, true, false, ◌||◌, Option, none, some, List, [], ◌∷◌,
}
use socks_v5_proxy.Buffer.{Buffer, buffer_can_read, buffer_read}

-- What the loop leaves: the buffer, the parser and the flag behind `errored`.
pub record Consumed (P : Type 0) : Type 0 where
  pub buffer : Buffer
  pub parser : P
  pub errored : Bool

-- `feed` is the parser's step, `state` its state field, `is_done` its test of the end, and
-- `is_error` the condition under which that test sets `*errored`.
module _ {P S : Type 0} (feed : P → ℕ → P) (state : P → S) (is_done is_error : S → Bool) where
  -- One round for each unit of fuel; `none` is an abort of the buffer, or the fuel run out.
  unfoldable pub consume_loop : ℕ → Buffer → P → Bool → Option (Consumed P)
  consume_loop zero b p e = none
  consume_loop (suc fuel) b p e = elim (buffer_can_read b) [
    | false ↦ some (record { buffer = b; parser = p; errored = e })
    | true ↦ elim (buffer_read b) [
      | none ↦ none
      | some (c, b') ↦
          let p' = feed p c in
          let e' = e || is_error (state p') in
          elim (is_done (state p')) [
            | true ↦ some (record { buffer = b'; parser = p'; errored = e' })
            | false ↦ consume_loop fuel b' p' e'
          ]
    ]
  ]

  -- A buffer with n readable bytes takes at most n rounds, and one more that finds it empty.
  unfoldable pub consume : Buffer → P → Bool → Option (Consumed P)
  unfolding consume_loop
  consume b p e = consume_loop (suc (b.write - b.read)) b p e

  -- The same parse of a list of bytes: the parser, the flag, and the bytes that are left.
  unfoldable pub parse : P → Bool → List ℕ → P × Bool × List ℕ
  parse p e [] = (p, e, [])
  parse p e (c ∷ cs) =
      let p' = feed p c in
      let e' = e || is_error (state p') in
      if is_done (state p') then (p', e', cs) else parse p' e' cs
