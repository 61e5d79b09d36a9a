-- ===== src/Session/Relayed.antt =====
-- src/server/socks5nio.c: what the state COPY has received and sent, as a sequence of events.
use socks_v5_proxy.Session.Relay.{copy_from-rb, copy_from-wb, copy_to-wb, copy_to-rb}
use socks_v5_proxy.Prelude.{
  ℕ, ◌≡◌, refl, sym, ap, ◌∙◌, some, List, [], ◌++◌, append-nil, append_assoc,
}
use socks_v5_proxy.Buffer.{IsValid, contents}
use socks_v5_proxy.Session.{Socks5, World}
use socks_v5_proxy.Session.Copying.{
  End, client_end, origin_end, rb, wb, copy_ptr, copy_from, copy_r, copy_to, copy_w,
}
use socks_v5_proxy.Session.Streams.{arriving, departing}

-- The bytes that an event at the end `x` receives from the end `e`, and those of them that it sends on.
abbrev pub arrived : End → End → World → List ℕ
arrived client_end client_end w = arriving w.os (rb w.conn client_end)
arrived client_end origin_end w = []
arrived origin_end client_end w = []
arrived origin_end origin_end w = arriving w.os (rb w.conn origin_end)

abbrev pub departed : End → End → World → List ℕ
departed client_end client_end w = []
departed client_end origin_end w = departing w.os (wb w.conn origin_end)
departed origin_end client_end w = departing w.os (wb w.conn client_end)
departed origin_end origin_end w = []

-- A sequence of the events of a copy: the bytes that have come from the end `e`, those that wait at the
-- start included, the bytes that have been sent on to the other end, and the connection.
pub data Relay (e : End) : List ℕ → List ℕ → Socks5 → Type 0 where
  start : (s : Socks5) → IsValid (rb s e) → Relay e (contents (rb s e)) [] s
  read :
      {came sent : List ℕ} {ret : ℕ} (w w' : World) (x : End)
      → Relay e came sent w.conn
      → copy_ptr w ≡ some x
      → copy_r w ≡ some (ret, w')
      → Relay e (came ++ arrived e x w) sent w'.conn
  write :
      {came sent : List ℕ} {ret : ℕ} (w w' : World) (x : End)
      → Relay e came sent w.conn
      → copy_ptr w ≡ some x
      → copy_w w ≡ some (ret, w')
      → Relay e came (sent ++ departed e x w) w'.conn

-- What a relay owes: the bytes that came are those that were sent on and those that wait.
abbrev Kept : End → List ℕ → List ℕ → Socks5 → Type 0
Kept e came sent s = IsValid (rb s e) × (came ≡ sent ++ contents (rb s e))

copy_from-Kept :
    (e x : End) (w w' : World) (ret : ℕ) (came sent : List ℕ)
    → Kept e came sent w.conn
    → copy_from x w ≡ some (ret, w')
    → Kept e (came ++ arrived e x w) sent w'.conn
copy_from-Kept client_end client_end w w' ret came sent (v, k) h =
    let (v', q) = copy_from-rb client_end w w' ret v h in (v', rw (k, q) (append_assoc sent _ _))
copy_from-Kept client_end origin_end w w' ret came sent k h =
    let q = copy_from-wb origin_end w w' ret h in rw (q, append-nil) k
copy_from-Kept origin_end client_end w w' ret came sent k h =
    let q = copy_from-wb client_end w w' ret h in rw (q, append-nil) k
copy_from-Kept origin_end origin_end w w' ret came sent (v, k) h =
    let (v', q) = copy_from-rb origin_end w w' ret v h in (v', rw (k, q) (append_assoc sent _ _))

copy_to-Kept :
    (e x : End) (w w' : World) (ret : ℕ) (came sent : List ℕ)
    → Kept e came sent w.conn
    → copy_to x w ≡ some (ret, w')
    → Kept e came (sent ++ departed e x w) w'.conn
copy_to-Kept client_end client_end w w' ret came sent k h =
    let q = copy_to-rb client_end w w' ret h in rw (q, append-nil) k
copy_to-Kept client_end origin_end w w' ret came sent (v, k) h =
    let (v', q) = copy_to-wb origin_end w w' ret v h in
    (v', k ∙ ap (λ r. sent ++ r) q ∙ sym (append_assoc sent _ _))
copy_to-Kept origin_end client_end w w' ret came sent (v, k) h =
    let (v', q) = copy_to-wb client_end w w' ret v h in
    (v', k ∙ ap (λ r. sent ++ r) q ∙ sym (append_assoc sent _ _))
copy_to-Kept origin_end origin_end w w' ret came sent k h =
    let q = copy_to-rb origin_end w w' ret h in rw (q, append-nil) k

-- The relay is faithful: after any sequence of the events of a copy, at either end and with any
-- receipts and partial transmissions, the bytes that came from an end are, in their order, those that
-- were sent on to the other end followed by those that wait in a valid buffer.
pub Relay-contents :
    (e : End) (came sent : List ℕ) (s : Socks5)
    → Relay e came sent s
    → IsValid (rb s e) × (came ≡ sent ++ contents (rb s e))
unfolding copy_r copy_w
Relay-contents e came sent s (start t v) = (v, refl)
Relay-contents e came sent s (read {came = c} {sent = d} {ret} w w' x r p h) =
    copy_from-Kept e x w w' ret c d (Relay-contents e c d w.conn r) (rw p at h)
Relay-contents e came sent s (write {came = c} {sent = d} {ret} w w' x r p h) =
    copy_to-Kept e x w w' ret c d (Relay-contents e c d w.conn r) (rw p at h)
