-- ===== src/Client/Response/Numbers.antt =====
-- src/server/monitor.c, src/client/clientresponse.c: the replies of the server to the requests that ask,
-- as the client reads them.
use socks_v5_proxy.Prelude.{
  leb, ◌==◌, lt→ltb, length, set, drop, take-length-append, overwrite, overwrite-front, All,
  NonZero, u16, u32, ℕ, zero, suc, ◌+◌, ◌*◌, ◌/◌, ◌%◌, ◌≤◌, ◌<◌, ◌≡◌, refl, sym, ap, subst, ◌∙◌,
  true, false, List, [], ◌∷◌, ◌++◌, append-nil, arith,
}
use socks_v5_proxy.Client.{get, config, ClientRequestArgs}
use socks_v5_proxy.Client.Response.{
  Received, Report, number_of, user_list, ntohs, ntohl, printed, handle_get_ok_status,
  handle_config_ok_status, process_response,
}
use socks_v5_proxy.Monitor.Reply.{
  monitor_status_succeeded, network_short, network_long, number, payload_bytes,
}

ntohl-network_long : (n : ℕ) (tail : List ℕ) → ntohl (network_long n ++ tail) ≡ u32 n
ntohl-network_long n tail = omega arith

drop-all : (n : ℕ) (mem : List ℕ) → length mem ≤ n → drop n mem ≡ []
drop-all zero [] h = refl
drop-all zero (x ∷ mem) h = absurd (omega arith)
drop-all (suc n) [] h = refl
drop-all (suc n) (x ∷ mem) h = drop-all n mem (omega arith)

overwrite-whole : (mem xs : List ℕ) → length mem ≡ length xs → overwrite mem 0 xs ≡ xs
overwrite-whole mem xs h =
    overwrite-front mem xs (omega arith)
    ∙ ap (λ z. xs ++ z) (drop-all (length xs) mem (omega arith))
    ∙ append-nil xs

-- `process_response` with a status that is a success, to a request that asks.
asked :
    (args : ClientRequestArgs) (rest : List ℕ) (r : Received)
    → args.method ≡ get
    → process_response args (0 ∷ rest) r ≡ handle_get_ok_status args.target (0 ∷ rest) r
unfolding process_response
asked args rest r m =
    subst
      (λ k.
        ◌≡◌ {A = Received × Report}
          (elim k as (λ x. Received × Report) [
            | get ↦ handle_get_ok_status args.target (0 ∷ rest) r
            | config ↦ (r, handle_config_ok_status args)
          ])
          (handle_get_ok_status args.target (0 ∷ rest) r))
      (sym m) refl

-- The body of a reply with a number, as the client keeps it.
number-reply :
    (target n : ℕ) (r : Received) (tail : List ℕ)
    → target ≤ 2
    → length r.numeric_data_array ≡ 4
    → handle_get_ok_status target (0 ∷ 0 ∷ 4 ∷ (network_long n ++ tail)) r ≡ (
      record {
        combinedlen = set (set r.combinedlen 0 0) 1 4;
        numeric_data_array = network_long n;
        numeric_response = u32 n;
      },
      number_of target (u32 n),
    )
unfolding handle_get_ok_status
number-reply target n r tail t l =
    let small : leb target 2 ≡ true = ground arith in
    let lens : List ℕ = set (set r.combinedlen 0 0) 1 4 in
    rw (small, overwrite-whole r.numeric_data_array (network_long n) l)
      (ap
        (λ v. (
          record { combinedlen = lens; numeric_data_array = network_long n; numeric_response = v },
          number_of target v,
        ))
        (ntohl-network_long n []))

-- A reply with a number, as `monitor_marshall` writes it, is read by the client that asked for it as that
-- number, modulo 2 ^ 32.
pub process_response-number :
    (args : ClientRequestArgs) (r : Received) (n : ℕ) (tail : List ℕ)
    → args.method ≡ get
    → args.target ≤ 2
    → length r.numeric_data_array ≡ 4
    → (process_response args
        (monitor_status_succeeded ∷ (network_short 4 ++ payload_bytes (number n) 4 ++ tail))
        r).1
      ≡ number_of args.target (u32 n)
process_response-number args r n tail m t l =
    ap (λ z. z.1)
      (asked args (0 ∷ 4 ∷ (network_long n ++ tail)) r m ∙ number-reply args.target n r tail t l)

-- The names of a list with a 0 between each and the next, and each on a line.
unfoldable pub joined : List (List ℕ) → List ℕ
joined [] = []
joined (x ∷ []) = x
joined (x ∷ y ∷ ys) = x ++ 0 ∷ joined (y ∷ ys)

unfoldable pub lines : List (List ℕ) → List ℕ
lines [] = []
lines (x ∷ xs) = x ++ b'\n' ∷ lines xs

printed-append :
    (name rest : List ℕ) → NonZero name → printed (name ++ 0 ∷ rest) ≡ name ++ b'\n' ∷ printed rest
unfolding printed
printed-append [] rest nz = refl
printed-append (c ∷ cs) rest nz =
    let ne = nz.0 in
    let nonzero : (c == 0) ≡ false = ground arith in
    rw nonzero (ap (λ z. c ∷ z) (printed-append cs rest nz.1))

printed-last : (name : List ℕ) → NonZero name → printed name ≡ name ++ b'\n' ∷ []
unfolding printed
printed-last [] nz = refl
printed-last (c ∷ cs) nz =
    let ne = nz.0 in
    let nonzero : (c == 0) ≡ false = ground arith in
    rw nonzero (ap (λ z. c ∷ z) (printed-last cs nz.1))

printed-joined :
    (name : List ℕ) (names : List (List ℕ))
    → All NonZero (name ∷ names)
    → printed (joined (name ∷ names)) ≡ lines (name ∷ names)
unfolding joined lines
printed-joined name [] h = printed-last name h.0
printed-joined name (y ∷ ys) h =
    printed-append name (joined (y ∷ ys)) h.0
    ∙ ap (λ z. name ++ b'\n' ∷ z) (printed-joined y ys h.1)

two_bytes :
    (xs : List ℕ) (hi lo : ℕ) → length xs ≡ 2 → ntohs (set (set xs 0 hi) 1 lo) ≡ hi * 256 + lo
two_bytes [] hi lo h = absurd (omega arith)
two_bytes (x ∷ []) hi lo h = absurd (omega arith)
two_bytes (x ∷ y ∷ zs) hi lo h = refl

-- A reply with a list of names, at least one, that are strings and have less than 65533 bytes with the 0
-- between each and the next, is printed by the client that asked for it with each name on a line.
pub process_response-list :
    (args : ClientRequestArgs) (r : Received) (name : List ℕ) (names : List (List ℕ))
    (tail : List ℕ)
    → args.method ≡ get
    → 2 < args.target
    → args.target ≤ 4
    → length r.combinedlen ≡ 2
    → All NonZero (name ∷ names)
    → length (joined (name ∷ names)) < 65533
    → (process_response args
        (monitor_status_succeeded
          ∷ (network_short (length (joined (name ∷ names))) ++ joined (name ∷ names) ++ tail))
        r).1
      ≡ user_list args.target (lines (name ∷ names))
unfolding handle_get_ok_status
process_response-list args r name names tail m t t' two nz short =
    let text : List ℕ = joined (name ∷ names) in
    let n : ℕ = length text in
    let lens : ntohs (set (set r.combinedlen 0 (u16 n / 256)) 1 (u16 n % 256)) ≡ n =
      two_bytes r.combinedlen (u16 n / 256) (u16 n % 256) two ∙ omega arith in
    let other : leb args.target 2 ≡ false = ground arith in
    let known : leb args.target 4 ≡ true = ground arith in
    ap (λ z. z.1) (asked args (network_short n ++ text ++ tail) r m)
    ∙ rw (other, known, lens, lt→ltb n 65533 short)
        (ap (user_list args.target)
          (ap printed (take-length-append text tail) ∙ printed-joined name names nz))
