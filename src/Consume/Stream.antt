-- ===== src/Consume/Stream.antt =====
-- The loop over a buffer, against the parse of the list of its bytes.
use socks_v5_proxy.Prelude.{
  Bool-cases, length, window, ℕ, zero, suc, ◌-◌, ◌<◌, ◌≡◌, refl, sym, ap, subst, ◌∙◌, inl, inr,
  Bool, true, false, ◌||◌, Option, some, List, [], ◌∷◌, ◌++◌, arith,
}
use socks_v5_proxy.Buffer.{Buffer, buffer_can_read, IsValid, contents}
use socks_v5_proxy.Buffer.Queue.{length-contents, buffer_read-contents}
use socks_v5_proxy.Consume.{Consumed, consume_loop, consume, parse}

-- The loop ended, without an abort, as the parse of a list says.
abbrev pub Agrees : {P : Type 0} → P × Bool × List ℕ → Option (Consumed P) → Type 0
Agrees {P} t result =
    (b : Buffer) × (result ≡ some (record { buffer = b; parser = t.0; errored = t.1 }))
    × IsValid b
    × (contents b ≡ t.2)

contents-of_can_read_false : (b : Buffer) → buffer_can_read b ≡ false → contents b ≡ []
unfolding buffer_can_read
contents-of_can_read_false b h =
    ap (λ n. window b.read n b.bytes) (let z : b.write - b.read ≡ 0 = ground arith in z)

module _ {P S : Type 0} (feed : P → ℕ → P) (state : P → S) (is_done is_error : S → Bool) where
  consume_loop-Agrees :
      (fuel : ℕ) (b : Buffer) (p : P) (e : Bool)
      → IsValid b
      → length (contents b) < fuel
      → Agrees
          (parse feed state is_done is_error p e (contents b))
          (consume_loop feed state is_done is_error fuel b p e)
  unfolding consume_loop parse
  consume_loop-Agrees zero b p e v h = absurd (omega arith)
  consume_loop-Agrees (suc fuel) b p e v h = elim (Bool-cases (buffer_can_read b)) [
    | inr stop ↦
        rw (contents-of_can_read_false b stop, stop, consume_loop)
          (b, refl, v, contents-of_can_read_false b stop)
    | inl more ↦
        let (c, b', r, v', q) = buffer_read-contents v more in
        let p' = feed p c in
        let shorter : length (contents b') < fuel = omega (arith, ap (length {0}) q) in
        elim (Bool-cases (is_done (state p'))) [
          | inl d ↦ rw (q, more, r, d, consume_loop, parse) (b', refl, v', refl)
          | inr d ↦
              rw (q, more, r, d, consume_loop, parse)
                (consume_loop-Agrees fuel b' p' (e || is_error (state p')) v' shorter)
        ]
  ]

  -- On a valid buffer the loop ends without an abort, and its parser, its flag and the bytes that it
  -- leaves are those of the parse of the buffer's contents.
  pub consume-Agrees :
      (b : Buffer) (p : P) (e : Bool)
      → IsValid b
      → Agrees
          (parse feed state is_done is_error p e (contents b))
          (consume feed state is_done is_error b p e)
  unfolding consume
  consume-Agrees b p e v =
      consume_loop-Agrees (suc (b.write - b.read)) b p e v (omega (arith, length-contents v))

  -- A parse that is not done has used all of its bytes, and goes on with the bytes that come next.
  pub parse-append :
      (p : P) (e : Bool) (xs ys : List ℕ)
      → is_done (state (parse feed state is_done is_error p e xs).0) ≡ false
      → ((parse feed state is_done is_error p e xs).2 ≡ [])
        × (parse feed state is_done is_error p e (xs ++ ys)
            ≡ parse feed state is_done is_error
                (parse feed state is_done is_error p e xs).0
                (parse feed state is_done is_error p e xs).1
                ys)
  unfolding parse
  parse-append p e [] ys h = (refl, refl)
  parse-append p e (x ∷ xs) ys h = elim (Bool-cases (is_done (state (feed p x)))) [
    | inl d ↦ cc (rw d at h)
    | inr d ↦ rw d (parse-append (feed p x) (e || is_error (state (feed p x))) xs ys (rw d at h))
  ]

  -- The bytes that arrive go on with the parse that those before have begun.
  pub parse-resumed :
      (p p' : P) (e : Bool) (before rest : List ℕ)
      → parse feed state is_done is_error p false before ≡ (p', e, [])
      → is_done (state p') ≡ false
      → parse feed state is_done is_error p' e rest
        ≡ parse feed state is_done is_error p false (before ++ rest)
  parse-resumed p p' e before rest h n =
      let (_, more) = parse-append p false before rest (rw h n) in sym (rw h at more)

  -- A parse of bytes that ends before they do leaves what comes next untouched.
  pub parse-done_append :
      (p : P) (e : Bool) (xs ys : List ℕ)
      → is_done (state p) ≡ false
      → is_done (state (parse feed state is_done is_error p e xs).0) ≡ true
      → parse feed state is_done is_error p e (xs ++ ys) ≡ (
        (parse feed state is_done is_error p e xs).0,
        (parse feed state is_done is_error p e xs).1,
        (parse feed state is_done is_error p e xs).2 ++ ys,
      )
  unfolding parse
  parse-done_append p e [] ys n h = cc
  parse-done_append p e (x ∷ xs) ys n h = elim (Bool-cases (is_done (state (feed p x)))) [
    | inl d ↦ rw d
    | inr d ↦
        rw d (parse-done_append (feed p x) (e || is_error (state (feed p x))) xs ys d (rw d at h))
  ]

  -- The loop over a valid buffer that ends without being done has taken all of its bytes, and the loop over the
  -- valid buffer of the next read, with the parser and the error flag that it left, ends with the parser, the flag
  -- and the bytes left that the loop over any one valid buffer with the bytes of both ends with.
  pub consume-resumed :
      (b1 b2 b : Buffer) (p : P) (e : Bool) (c : Consumed P)
      → IsValid b1
      → IsValid b2
      → IsValid b
      → contents b ≡ contents b1 ++ contents b2
      → consume feed state is_done is_error b1 p e ≡ some c
      → is_done (state c.parser) ≡ false
      → (contents c.buffer ≡ [])
        × ((d1 : Consumed P) × (d : Consumed P) × (consume feed state is_done is_error b2 c.parser
                c.errored
              ≡ some d1)
            × (consume feed state is_done is_error b p e ≡ some d)
            × (d1.parser ≡ d.parser)
            × (d1.errored ≡ d.errored)
            × (contents d1.buffer ≡ contents d.buffer))
  consume-resumed b1 b2 b p e c v1 v2 v joined run n =
      let first = parse feed state is_done is_error p e (contents b1) in
      let (r1, q1, _, left1) = consume-Agrees b1 p e v1 in
      let same : Consumed.parser c ≡ first.0 = cc in
      let flag : Consumed.errored c ≡ first.1 = cc in
      let held : Consumed.buffer c ≡ r1 = cc in
      let (none_left, more) = parse-append p e (contents b1) (contents b2) (rw same at n) in
      let (r2, q2, _, left2) = consume-Agrees b2 c.parser c.errored v2 in
      let (r, q, _, left) = consume-Agrees b p e v in
      let second = parse feed state is_done is_error c.parser c.errored (contents b2) in
      let whole = parse feed state is_done is_error p e (contents b) in
      let agree : second ≡ whole = rw (same, flag, joined) (sym more) in
      (
        ap contents held ∙ left1 ∙ none_left,
        (
          record { buffer = r2; parser = second.0; errored = second.1 },
          record { buffer = r; parser = whole.0; errored = whole.1 },
          q2,
          q,
          ap (λ t. t.0) agree,
          ap (λ t. t.1) agree,
          left2 ∙ ap (λ t. t.2) agree ∙ sym left,
        ),
      )

  -- One byte of a parse, by the parser that it gives: the parse goes on.
  pub parse-more :
      (p p' : P) (c : ℕ) (cs : List ℕ)
      → feed p c ≡ p'
      → is_done (state p') ≡ false
      → is_error (state p') ≡ false
      → parse feed state is_done is_error p false (c ∷ cs)
        ≡ parse feed state is_done is_error p' false cs
  unfolding parse
  parse-more p p' c cs e d f = rw (e, d, f)

  -- One byte of a parse, by the parser that it gives: the parse ends.
  pub parse-stop :
      (p p' : P) (c : ℕ) (cs : List ℕ)
      → feed p c ≡ p'
      → is_done (state p') ≡ true
      → parse feed state is_done is_error p false (c ∷ cs) ≡ (p', is_error (state p'), cs)
  unfolding parse
  parse-stop p p' c cs e d = rw (e, d)

  -- The loop over a buffer whose contents are known to parse to a given end.
  pub consume-Agrees_of_parse :
      (b : Buffer) (p : P) (e : Bool) (xs : List ℕ) (t : P × Bool × List ℕ)
      → IsValid b
      → contents b ≡ xs
      → parse feed state is_done is_error p e xs ≡ t
      → Agrees t (consume feed state is_done is_error b p e)
  consume-Agrees_of_parse b p e xs t v q r =
      let result = consume feed state is_done is_error b p e in
      subst (λ u. Agrees u result) (ap (parse feed state is_done is_error p e) q ∙ r)
        (consume-Agrees b p e v)
