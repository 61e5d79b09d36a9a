-- ===== src/Args/Bounds.antt =====
-- src/server/args.c: what holds of every command line that the server accepts.
use socks_v5_proxy.Prelude.{
  ltb, leb, ◌==◌, if◌then◌else◌, Bool-cases, length, length-append, length-take, All, All-append, ℤ,
  pos, negsuc, ◌>>=◌, >>=-eq-some, ℕ, suc, ◌≤◌, ◌<◌, ◌≡◌, refl, subst, ◌≢◌, inl, inr, Bool, true,
  false, ◌||◌, Option, none, some, List, [], ◌∷◌, arith,
}
use socks_v5_proxy.CommandLine.{Opt, CommandLine, strchr, strtol, port_of, port}
use socks_v5_proxy.Args.{
  UserArg, Socks5Args, user, max_user_args, add_user, parse_option, default_args, parse_options,
  parse_args,
}

port_of-bound : (r : ℤ × List ℕ) (n : ℕ) → port_of r ≡ some n → n < 65536
port_of-bound (pos v, []) n e = elim (Bool-cases (ltb 65535 v)) [
  | inl over ↦ absurd (ground (arith, over, e))
  | inr fits ↦ ground (arith, fits, e)
]
port_of-bound (negsuc v, []) n e = cc
port_of-bound (pos v, c ∷ cs) n e = cc
port_of-bound (negsuc v, c ∷ cs) n e = cc

pub port-bound : (s : List ℕ) (n : ℕ) → port s ≡ some n → n < 65536
unfolding port
port-bound s n e = let (r, q, k) = >>=-eq-some (strtol s) port_of e in port_of-bound r n k

-- A user of the command line has a name.
abbrev pub IsNamed : UserArg → Type 0
IsNamed u = 0 < length u.name

-- The ports are those of TCP, and there are at most ten users, each with a name.
pub record InBounds (args : Socks5Args) : Type 0 where
  pub socks : args.socks_port < 65536
  pub mng : args.mng_port < 65536
  pub few : length args.users ≤ max_user_args
  pub named : All IsNamed args.users

-- A predicate of the result, if there is one.
abbrev Yields {ℓ κ} : {A : Type ℓ} → (A → Type κ) → Option A → Type κ
Yields P none = Unit
Yields P (some a) = P a

Yields-if {ℓ κ} :
    {A : Type ℓ} (P : A → Type κ) (b : Bool) (x y : Option A)
    → (b ≡ true → Yields P x)
    → (b ≡ false → Yields P y)
    → Yields P (if b then x else y)
Yields-if P true x y h k = h refl
Yields-if P false x y h k = k refl

Yields-some {ℓ κ} :
    {A : Type ℓ} (P : A → Type κ) (o : Option A) (a : A) → Yields P o → o ≡ some a → P a
Yields-some P none a h e = cc
Yields-some P (some b) a h e = subst (Yields P) e h

-- For a chain whose second step has it of every result of the first.
Yields-bind {ℓ κ μ} :
    {A : Type ℓ} {B : Type κ} (P : B → Type μ) (o : Option A) (f : A → Option B)
    → ((a : A) → o ≡ some a → Yields P (f a))
    → Yields P (o >>= f)
Yields-bind P none f h = tt
Yields-bind P (some a) f h = h a refl

strchr-bound : (s : List ℕ) (c : ℕ) → Yields (λ p. p < length s) (strchr s c)
unfolding strchr
strchr-bound [] c = tt
strchr-bound (x ∷ xs) c =
    Yields-if (λ p. p < suc (length xs)) (x == c) (some 0) _ (λ e. omega arith)
      (λ e.
        Yields-bind (λ p. p < suc (length xs)) (strchr xs c) _
          (λ i f.
            let below = Yields-some (λ p. p < length xs) (strchr xs c) i (strchr-bound xs c) f in
            omega arith))

user-IsNamed : (s : List ℕ) → Yields IsNamed (user s)
unfolding user
user-IsNamed s = Yields-bind IsNamed (strchr s b':') _ (λ p e.
    let below = Yields-some (λ i. i < length s) (strchr s b':') p (strchr-bound s b':') e in
    Yields-if IsNamed (p == 0) none _ (λ f. tt)
      (λ f. let ne : p ≢ 0 = ground arith in omega (arith, length-take {A = ℕ} p s)))

add_user-InBounds :
    (args : Socks5Args) (word : List ℕ) → InBounds args → Yields InBounds (add_user args word)
add_user-InBounds args word h =
    Yields-if InBounds (leb max_user_args (length args.users)) none _ (λ e. tt)
      (λ e. Yields-bind InBounds (user word) _ (λ u f.
        let short : length args.users < 10 = ground arith in
        record {
          socks = h.socks;
          mng = h.mng;
          few = omega (arith, length-append args.users (u ∷ []));
          named =
              All-append IsNamed args.users (u ∷ []) h.named
                (Yields-some IsNamed (user word) u (user-IsNamed word) f, tt);
        }))

option-InBounds :
    (args : Socks5Args) (o : Opt) → InBounds args → Yields InBounds (parse_option args o)
unfolding parse_option
option-InBounds args o h =
    Yields-if InBounds (o.letter == b'h') none _ (λ e. tt)
      (λ e.
        Yields-if InBounds (o.letter == b'l') _ _
          (λ e. record { socks = h.socks; mng = h.mng; few = h.few; named = h.named })
          (λ e.
            Yields-if InBounds (o.letter == b'L') _ _
              (λ e. record { socks = h.socks; mng = h.mng; few = h.few; named = h.named })
              (λ e.
                Yields-if InBounds (o.letter == b'N') _ _
                  (λ e. record { socks = h.socks; mng = h.mng; few = h.few; named = h.named })
                  (λ e.
                    Yields-if InBounds (o.letter == b'p') _ _
                      (λ e. Yields-bind InBounds (port o.optarg) _ (λ n f. record {
                        socks = port-bound o.optarg n f;
                        mng = h.mng;
                        few = h.few;
                        named = h.named;
                      }))
                      (λ e.
                        Yields-if InBounds (o.letter == b'P') _ _
                          (λ e. Yields-bind InBounds (port o.optarg) _ (λ n f. record {
                            socks = h.socks;
                            mng = port-bound o.optarg n f;
                            few = h.few;
                            named = h.named;
                          }))
                          (λ e.
                            Yields-if InBounds (o.letter == b'u') _ _
                              (λ e. add_user-InBounds args o.optarg h)
                              (λ e.
                                Yields-if InBounds
                                  ((o.letter == b'v') || ((o.letter == b':') || (o.letter == b'?')))
                                  none _ (λ e. tt) (λ e. h))))))))

parse_options-InBounds :
    (os : List Opt) (args : Socks5Args) → InBounds args → Yields InBounds (parse_options args os)
unfolding parse_options
parse_options-InBounds [] args h = h
parse_options-InBounds (o ∷ os) args h = Yields-bind InBounds (parse_option args o) _ (λ args' e.
    parse_options-InBounds os args'
      (Yields-some InBounds (parse_option args o) args' (option-InBounds args o h) e))

-- Of every command line that the server accepts, both ports are below 65536, and there are at most ten
-- users, each with a name.
pub parse_args-InBounds :
    (line : CommandLine) (args : Socks5Args) → parse_args line ≡ some args → InBounds args
unfolding parse_args
parse_args-InBounds line args = λ e. Yields-some InBounds (parse_args line) args whole e
  where
    whole : Yields InBounds (parse_args line)
    whole = Yields-bind InBounds (parse_options default_args line.options) _ (λ args' e.
        let bounds =
          Yields-some InBounds _ args' (parse_options-InBounds line.options default_args start) e in
        elim line.operands
          as (λ ws.
            Yields InBounds
              (elim ws as (λ x. Option Socks5Args) [ [] ↦ some args' | w ∷ ws' ↦ none ])) [
                | [] ↦ bounds
                | w ∷ ws ↦ tt
              ])
      where
        start : InBounds default_args
        start = record { socks = omega arith; mng = omega arith; few = omega arith; named = tt }
