-- ===== src/Session/Phases.antt =====
-- src/server/socks5nio.c: the phases of a connection that the comments of `enum socks_v5state`
-- describe, as an automaton of its own.
use socks_v5_proxy.Prelude.{◌≡◌, ◌⊎◌, Bool, true, false, not, ◌||◌, arith}

-- The phases that send an answer carry whether it is a success.
pub data Phase : Type 0 where
  greeting answering_greeting credentials requesting resolving connecting : Phase
  copying finished failed : Phase
  answering_credentials answering_request : Bool → Phase

-- One event, with `on` whether authentication is asked for and `linked` whether the operating system
-- reports the connection to the origin as established.
pub data Step (on linked : Bool) : Phase → Phase → Type 0 where
  stay : (p : Phase) → Step on linked p p
  fail : (p : Phase) → Step on linked p failed
  greeted : Step on linked greeting answering_greeting
  ask : on ≡ true → Step on linked answering_greeting credentials
  skip : on ≡ false → Step on linked answering_greeting requesting
  check : (ok : Bool) → Step on linked credentials (answering_credentials ok)
  accept : Step on linked (answering_credentials true) requesting
  resolve : Step on linked requesting resolving
  connect : Step on linked requesting connecting
  connect_resolved : Step on linked resolving connecting
  refuse : Step on linked requesting (answering_request false)
  refuse_resolved : Step on linked resolving (answering_request false)
  report : linked ≡ true → Step on linked connecting (answering_request true)
  report_failure : Step on linked connecting (answering_request false)
  relay : Step on linked (answering_request true) copying
  end : Step on linked copying finished

-- The phases whose next step lets a client through: its credentials were accepted, or none are asked
-- for.
abbrev pub admits : Bool → Phase → Bool
admits on answering_greeting = not on
admits on (answering_credentials ok) = ok
admits on _ = false

-- What an event in a phase adds to the record of what the operating system reported.
abbrev pub links : Bool → Phase → Bool
links linked connecting = linked
links linked _ = false

-- What the phases behind the greeting owe to the events before: `a` that the client was let
-- through, `l` that the connection to the origin was established.
abbrev pub Earned : Bool → Bool → Phase → Type 0
Earned a l requesting = a ≡ true
Earned a l resolving = a ≡ true
Earned a l connecting = a ≡ true
Earned a l (answering_request ok) = (a ≡ true) × ((ok ≡ false) ⊎ (l ≡ true))
Earned a l copying = (a ≡ true) × (l ≡ true)
Earned a l _ = Unit

Earned-weaken : (a l b m : Bool) (p : Phase) → Earned a l p → Earned (a || b) (l || m) p
Earned-weaken a l b m greeting e = tt
Earned-weaken a l b m answering_greeting e = tt
Earned-weaken a l b m credentials e = tt
Earned-weaken a l b m requesting e = ground arith
Earned-weaken a l b m resolving e = ground arith
Earned-weaken a l b m connecting e = ground arith
Earned-weaken a l b m copying e = ground arith
Earned-weaken a l b m finished e = tt
Earned-weaken a l b m failed e = tt
Earned-weaken a l b m (answering_credentials ok) e = tt
Earned-weaken a l b m (answering_request ok) e = ground arith

-- A step keeps what is owed.
pub Step-Earned :
    {on linked : Bool} {p q : Phase} (a l : Bool)
    → Step on linked p q
    → Earned a l p
    → Earned (a || admits on p) (l || links linked p) q
Step-Earned {on} {linked} a l (stay p) e = Earned-weaken a l (admits on p) (links linked p) p e
Step-Earned a l (fail p) e = tt
Step-Earned a l greeted e = tt
Step-Earned a l (ask h) e = tt
Step-Earned a l (skip h) e = ground arith
Step-Earned a l (check ok) e = tt
Step-Earned a l accept e = ground arith
Step-Earned a l resolve e = ground arith
Step-Earned a l connect e = ground arith
Step-Earned a l connect_resolved e = ground arith
Step-Earned a l refuse e = ground arith
Step-Earned a l refuse_resolved e = ground arith
Step-Earned a l (report h) e = ground arith
Step-Earned a l report_failure e = ground arith
Step-Earned a l relay e = ground arith
Step-Earned a l end e = tt
