-- ===== src/Start/Users.antt =====
-- src/server.c: the accounts that the server starts with.
use socks_v5_proxy.CommandLine.{CommandLine}
use socks_v5_proxy.Args.Bounds.{parse_args-InBounds}
use socks_v5_proxy.Prelude.{
  if◌then◌else◌, Bool-cases, length, length-append, length-take, All, c_string, strncpy,
  c_string-strncpy, bytes_eq, bytes_eq_sound, ℕ, suc, ◌+◌, ◌≤◌, ◌<◌, ◌≡◌, refl, sym, ap, ap₂, subst,
  ◌∙◌, inl, inr, Bool, true, false, ◌&&◌, ◌||◌, some, List, [], ◌∷◌, ◌++◌, append-nil, arith,
}
use socks_v5_proxy.Args.{UserArg, Socks5Args, parse_args}
use socks_v5_proxy.Users.{User, Registry, active, socksv5_register_user, find_login}
use socks_v5_proxy.Users.Accounts.{Account, accounts_of, accounts, has_name, IsShort, IsSound}
use socks_v5_proxy.Users.Registration.{socksv5_register_user_lem}
use socks_v5_proxy.Users.Login.{has_account, is_some, find_login-has_account}
use socks_v5_proxy.Admins.Process.{Server, outcome}
use socks_v5_proxy.Start.{register_users, populate, first_server}

-- The accounts when users are enrolled behind those that are there, each unless its name is taken.
abbrev enrolled : List UserArg → List Account → List Account
enrolled [] accs = accs
enrolled (u ∷ us) accs =
    enrolled us (if has_name u.name accs then accs else accs ++ (u.name, u.pass) ∷ [])

abbrev pub IsFit : UserArg → Type 0
IsFit u = IsShort u.name × IsShort u.pass

length-accounts_of : (us : List User) → length (accounts_of us) ≡ length us
length-accounts_of [] = refl
length-accounts_of (u ∷ us) = ap suc (length-accounts_of us)

length-accounts : (r : Registry) → IsSound r → length (accounts r) ≡ r.registered_users
length-accounts r s =
    let t = s.table in
    let c = s.count in
    omega (arith, length-accounts_of (active r), length-take {A = User} r.registered_users r.users)

register_one :
    (u : UserArg) (r : Registry)
    → IsSound r
    → IsFit u
    → length (accounts r) < 10
    → let r' = (socksv5_register_user u.name u.pass r).1 in
      IsSound r'
      × (accounts r' ≡ (
          if has_name u.name (accounts r) then accounts r else accounts r ++ (u.name, u.pass) ∷ []))
register_one u r s (n, p) l =
    let size = length-accounts r s in
    let (sound, outcome) = socksv5_register_user_lem u.name u.pass r s n p in
    (
      sound,
      elim outcome [
        | inl (full, code, same) ↦ absurd (omega arith)
        | inr (inl (free, known, code, same)) ↦ rw known (ap accounts same)
        | inr (inr (free, new, code, grown)) ↦ rw new grown
      ],
    )

length-enrolled :
    (b : Bool) (xs : List Account) (a : Account)
    → length (if b then xs else xs ++ a ∷ []) ≤ length xs + 1
length-enrolled true xs a = omega arith
length-enrolled false xs a = omega (arith, length-append xs (a ∷ []))

register_users-enrolled :
    (us : List UserArg) (r : Registry)
    → IsSound r
    → All IsFit us
    → length (accounts r) + length us ≤ 10
    → IsSound (register_users us r) × (accounts (register_users us r) ≡ enrolled us (accounts r))
unfolding register_users
register_users-enrolled [] r s f l = (s, refl)
register_users-enrolled (u ∷ us) r s f l =
    let r' = (socksv5_register_user u.name u.pass r).1 in
    let (s', e) = register_one u r s f.0 (omega arith) in
    let size : length (accounts r') ≤ length (accounts r) + 1 =
      subst (λ n. n ≤ length (accounts r) + 1) (sym (ap length e))
        (length-enrolled (has_name u.name (accounts r)) (accounts r) (u.name, u.pass)) in
    let (s'', e') = register_users-enrolled us r' s' f.1 (omega arith) in
    (s'', e' ∙ ap (enrolled us) e)

-- Whether a name and a password are those of the first user of that name.
abbrev pub granted : List ℕ → List ℕ → List UserArg → Bool
granted name pass [] = false
granted name pass (u ∷ us) =
    if bytes_eq name u.name then bytes_eq pass u.pass else granted name pass us

has_name-append :
    (name : List ℕ) (xs : List Account) (a : Account)
    → has_name name (xs ++ a ∷ []) ≡ (has_name name xs || bytes_eq name a.0)
has_name-append name [] a = ground arith
has_name-append name (x ∷ xs) a = ground (arith, has_name-append name xs a)

has_account-append_one :
    (name pass : List ℕ) (xs : List Account) (a : Account)
    → has_account name pass (xs ++ a ∷ [])
      ≡ (has_account name pass xs || (bytes_eq name a.0 && bytes_eq pass a.1))
has_account-append_one name pass [] a = ground arith
has_account-append_one name pass (x ∷ xs) a = ground (arith, has_account-append_one name pass xs a)

has_account-unnamed :
    (name pass : List ℕ) (xs : List Account)
    → has_name name xs ≡ false
    → has_account name pass xs ≡ false
has_account-unnamed name pass [] h = refl
has_account-unnamed name pass (x ∷ xs) h = ground (arith, has_account-unnamed name pass xs)

-- A test of the accounts once one more user is enrolled.
granted-next :
    (name pass : List ℕ) (u : UserArg) (accs : List Account) (rest : Bool)
    → let next = if has_name u.name accs then accs else accs ++ (u.name, u.pass) ∷ [] in
      (if has_name name next then has_account name pass next else rest) ≡ (
        if has_name name accs
        then has_account name pass accs
        else if bytes_eq name u.name
        then bytes_eq pass u.pass
        else rest)
granted-next name pass u accs rest = elim (Bool-cases (has_name u.name accs)) [
  | inl taken ↦ elim (Bool-cases (bytes_eq name u.name)) [
    | inl same ↦
        let known : has_name name accs ≡ true =
          ap (λ x. has_name x accs) (bytes_eq_sound name u.name same) ∙ taken in
        rw (taken, known) refl
    | inr other ↦ rw (taken, other) refl
  ]
  | inr new ↦ elim (Bool-cases (bytes_eq name u.name)) [
    | inl same ↦
        let unknown : has_name name accs ≡ false =
          ap (λ x. has_name x accs) (bytes_eq_sound name u.name same) ∙ new in
        rw
          (
            new,
            has_name-append name accs (u.name, u.pass),
            has_account-append_one name pass accs (u.name, u.pass),
            same,
            unknown,
            has_account-unnamed name pass accs unknown,
          )
          refl
    | inr other ↦
        rw
          (
            new,
            has_name-append name accs (u.name, u.pass),
            has_account-append_one name pass accs (u.name, u.pass),
            other,
          )
          (grind arith)
  ]
]

has_account-enrolled :
    (name pass : List ℕ) (us : List UserArg) (accs : List Account)
    → has_account name pass (enrolled us accs)
      ≡ (if has_name name accs then has_account name pass accs else granted name pass us)
has_account-enrolled name pass [] accs = elim (Bool-cases (has_name name accs)) [
  | inl e ↦ rw e refl
  | inr e ↦ rw e (has_account-unnamed name pass accs e)
]
has_account-enrolled name pass (u ∷ us) accs =
    has_account-enrolled name pass us
      (if has_name u.name accs then accs else accs ++ (u.name, u.pass) ∷ [])
    ∙ granted-next name pass u accs (granted name pass us)

first_server-IsSound : IsSound first_server.registry
first_server-IsSound = record { table = refl; count = omega arith; terminated = tt; distinct = tt }

-- With a token in the environment and a command line that is accepted, whose names and passwords have less
-- than 255 bytes, none of them 0, the server starts with a sound table of users, and a name and a password
-- of such lengths pass the check of credentials exactly if they are those of the first user of that name on
-- the command line.
pub populate-granted :
    (line : CommandLine) (args : Socks5Args) (token name pass : List ℕ)
    → parse_args line ≡ some args
    → All IsFit args.users
    → IsShort name
    → IsShort pass
    → (v : Server) × (populate (some token) args first_server ≡ some v)
      × IsSound v.registry
      × (is_some (find_login (strncpy 255 name) (strncpy 255 pass) (active v.registry) 0)
          ≡ granted name pass args.users)
unfolding populate
populate-granted line args token name pass e f n p =
    let bounds = parse_args-InBounds line args e in
    let few = bounds.few in
    let (sound, listed) =
      register_users-enrolled args.users first_server.registry first_server-IsSound f
        (omega arith) in
    let r = register_users args.users first_server.registry in
    let read : (s : List ℕ) → IsShort s → c_string (strncpy 255 s) ≡ s =
      λ s h. ap c_string (sym (append-nil (strncpy 255 s))) ∙ c_string-strncpy 255 s [] h.0 h.1 in
    (
      _,
      refl,
      sound,
      find_login-has_account (strncpy 255 name) (strncpy 255 pass) (active r) 0 sound.terminated
          ∙ ap₂ (λ a b. has_account a b (accounts r)) (read name n) (read pass p)
          ∙ ap (has_account name pass) listed
          ∙ has_account-enrolled name pass args.users [],
    )
