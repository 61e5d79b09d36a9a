-- ===== src/Users/Accounts.antt =====
-- src/server/socks5nio.c: the table of users against the list of accounts that it stands for.
use socks_v5_proxy.Prelude.{
  if◌then◌else◌, Bool-cases, length, take, drop, All, c_string, NonZero, strncpy, c_string-strncpy,
  bytes_eq, ℕ, zero, suc, ◌+◌, ◌≤◌, ◌<◌, ◌≡◌, refl, sym, ap, ap₂, ◌∙◌, ◌⊎◌, inl, inr, Bool, true,
  false, ◌||◌, none, some, List, [], ◌∷◌, ◌++◌, append-nil, arith,
}
use socks_v5_proxy.Users.{max_users, User, Registry, active, uname_of, index_of, user_entry}

-- A name and a password.
abbrev pub Account : Type 0
Account = List ℕ × List ℕ

abbrev pub account_of : User → Account
account_of u = (uname_of u, c_string u.passwd)

abbrev pub accounts_of : List User → List Account
accounts_of [] = []
accounts_of (u ∷ us) = account_of u ∷ accounts_of us

abbrev pub accounts : Registry → List Account
accounts r = accounts_of (active r)

abbrev pub has_name : List ℕ → List Account → Bool
has_name name [] = false
has_name name (a ∷ rest) = bytes_eq name a.0 || has_name name rest

-- The accounts without the first of that name.
abbrev pub remove_name : List ℕ → List Account → List Account
remove_name name [] = []
remove_name name (a ∷ rest) = if bytes_eq name a.0 then rest else a ∷ remove_name name rest

-- A string of an argument that its array has room for, terminator included.
abbrev pub IsShort : List ℕ → Type 0
IsShort s = NonZero s × (length s < 255)

-- The name ends inside its array.
abbrev pub IsTerminated : User → Type 0
IsTerminated u = uname_of u ≡ c_string u.uname

-- No two accounts share a name.
abbrev pub Distinct : List Account → Type 0
Distinct [] = Unit
Distinct (a ∷ rest) = (has_name a.0 rest ≡ false) × Distinct rest

-- What holds of the table between two calls.
pub record IsSound (r : Registry) : Type 0 where
  pub table : length r.users ≡ max_users
  pub count : r.registered_users ≤ max_users
  pub terminated : All IsTerminated (active r)
  pub distinct : Distinct (accounts r)

pub account-user_entry :
    (name pass : List ℕ)
    → IsShort name
    → IsShort pass
    → account_of (user_entry name pass) ≡ (name, pass)
unfolding uname_of user_entry
account-user_entry name pass n p =
    ap₂ (λ a b. (a, b)) (c_string-strncpy 255 name (strncpy 255 pass) n.0 n.1)
      (ap c_string (sym (append-nil (strncpy 255 pass))) ∙ c_string-strncpy 255 pass [] p.0 p.1)

pub index_of-has_name :
    (name : List ℕ) (us : List User) (i : ℕ)
    → ((has_name name (accounts_of us) ≡ false) × (index_of name us i ≡ none))
      ⊎ ((has_name name (accounts_of us) ≡ true)
          × ((k : ℕ) × (index_of name us i ≡ some (i + k))
              × (k < length us)
              × (accounts_of (take k us ++ drop (suc k) us) ≡ remove_name name (accounts_of us))))
unfolding index_of
index_of-has_name name [] i = inl (refl, refl)
index_of-has_name name (u ∷ us) i = elim (Bool-cases (bytes_eq name (uname_of u))) [
  | inl e ↦ inr (rw e refl, (0, rw e (ap some (omega arith)), omega arith, rw e refl))
  | inr e ↦ elim (index_of-has_name name us (suc i)) [
    | inl (h, f) ↦ inl (rw e h, rw e f)
    | inr (h, (k, f, l, q)) ↦ inr (
      rw e h,
      (suc k, rw e (f ∙ ap some (omega arith)), omega arith, rw e (ap (λ r. account_of u ∷ r) q)),
    )
  ]
]

has_name-append :
    (name : List ℕ) (cs bs : List Account)
    → has_name name cs ≡ false
    → has_name name bs ≡ false
    → has_name name (cs ++ bs) ≡ false
has_name-append name [] bs h k = k
has_name-append name (a ∷ cs) bs h k = ground (arith, has_name-append name cs bs)

bytes_eq_symm : (xs ys : List ℕ) → bytes_eq xs ys ≡ false → bytes_eq ys xs ≡ false
unfolding bytes_eq
bytes_eq_symm [] [] h = h
bytes_eq_symm [] (y ∷ ys) h = refl
bytes_eq_symm (x ∷ xs) [] h = refl
bytes_eq_symm (x ∷ xs) (y ∷ ys) h = ground (arith, bytes_eq_symm xs ys)

-- A new name behind distinct ones.
pub Distinct-append :
    (cs : List Account) (a : Account)
    → Distinct cs
    → has_name a.0 cs ≡ false
    → Distinct (cs ++ a ∷ [])
Distinct-append [] a d h = (refl, tt)
Distinct-append (c ∷ cs) a d h =
    let fresh : (bytes_eq a.0 c.0 ≡ false) × (has_name a.0 cs ≡ false) = ground arith in
    (
      has_name-append c.0 cs (a ∷ []) d.0 (rw (bytes_eq_symm a.0 c.0 fresh.0)),
      Distinct-append cs a d.1 fresh.1,
    )

has_name-remove_name :
    (name other : List ℕ) (cs : List Account)
    → has_name name cs ≡ false
    → has_name name (remove_name other cs) ≡ false
has_name-remove_name name other [] h = refl
has_name-remove_name name other (a ∷ cs) h = ground (arith, has_name-remove_name name other cs)

pub Distinct-remove_name :
    (name : List ℕ) (cs : List Account) → Distinct cs → Distinct (remove_name name cs)
Distinct-remove_name name [] d = tt
Distinct-remove_name name (a ∷ cs) d = elim (Bool-cases (bytes_eq name a.0)) [
  | inl e ↦ rw e d.1
  | inr e ↦ rw e (has_name-remove_name a.0 name cs d.0, Distinct-remove_name name cs d.1)
]

pub All-take {ℓ κ} :
    {A : Type ℓ} (P : A → Type κ) (k : ℕ) (xs : List A) → All P xs → All P (take k xs)
All-take P zero xs h = tt
All-take P (suc k) [] h = tt
All-take P (suc k) (x ∷ xs) h = (h.0, All-take P k xs h.1)

pub All-drop {ℓ κ} :
    {A : Type ℓ} (P : A → Type κ) (k : ℕ) (xs : List A) → All P xs → All P (drop k xs)
All-drop P zero xs h = h
All-drop P (suc k) [] h = tt
All-drop P (suc k) (x ∷ xs) h = All-drop P k xs h.1

pub IsTerminated-user_entry :
    (name pass : List ℕ) → IsShort name → IsTerminated (user_entry name pass)
unfolding uname_of user_entry
IsTerminated-user_entry name pass n =
    c_string-strncpy 255 name (strncpy 255 pass) n.0 n.1
    ∙ sym (ap c_string (sym (append-nil (strncpy 255 name))) ∙ c_string-strncpy 255 name [] n.0 n.1)
