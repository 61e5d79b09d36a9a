-- ===== src/Users/Login.antt =====
-- src/server/socks5nio.c: the check of credentials in `auth_process`, against the list of accounts.
use socks_v5_proxy.Users.Registration.{socksv5_register_user_lem, socksv5_unregister_user_lem}
use socks_v5_proxy.Prelude.{
  Bool-cases, All, c_string, strncpy, c_string-strncpy, bytes_eq, bytes_eq_sound, bytes_eq_refl, ℕ,
  suc, ◌<◌, ◌≡◌, refl, sym, ap, ap₂, ◌∙◌, inl, inr, Bool, true, false, ◌&&◌, ◌||◌, Option, none,
  some, List, [], ◌∷◌, ◌++◌, append-nil, arith,
}
use socks_v5_proxy.Users.{
  max_users, User, Registry, active, socksv5_register_user, socksv5_unregister_user, same_array,
  find_login,
}
use socks_v5_proxy.Users.Accounts.{
  Account, accounts_of, accounts, has_name, remove_name, IsShort, IsTerminated, Distinct, IsSound,
}

abbrev pub has_account : List ℕ → List ℕ → List Account → Bool
has_account name pass [] = false
has_account name pass (a ∷ rest) =
    (bytes_eq name a.0 && bytes_eq pass a.1) || has_account name pass rest

abbrev pub is_some : Option ℕ → Bool
is_some none = false
is_some (some i) = true

-- Where every name ends inside its array, credentials are accepted exactly if the name and the
-- password, each up to its terminator, are those of one account.
pub find_login-has_account :
    (uname passwd : List ℕ) (us : List User) (i : ℕ)
    → All IsTerminated us
    → is_some (find_login uname passwd us i)
      ≡ has_account (c_string uname) (c_string passwd) (accounts_of us)
unfolding find_login
find_login-has_account uname passwd [] i t = refl
find_login-has_account uname passwd (u ∷ us) i t =
    let ih = find_login-has_account uname passwd us (suc i) t.1 in
    rw t.0 (elim (Bool-cases (same_array uname u.uname && same_array passwd u.passwd)) [
      | inl e ↦ rw e
      | inr e ↦ rw (e, ih)
    ])

has_account-append :
    (name pass : List ℕ) (cs bs : List Account)
    → has_account name pass bs ≡ true
    → has_account name pass (cs ++ bs) ≡ true
has_account-append name pass [] bs h = h
has_account-append name pass (a ∷ cs) bs h = ground (arith, has_account-append name pass cs bs h)

has_account-has_name :
    (name pass : List ℕ) (cs : List Account)
    → has_name name cs ≡ false
    → has_account name pass cs ≡ false
has_account-has_name name pass [] h = refl
has_account-has_name name pass (a ∷ cs) h = ground (arith, has_account-has_name name pass cs)

-- Where names are distinct, after the removal of a name no password is accepted for it.
pub has_account-remove_name :
    (name pass : List ℕ) (cs : List Account)
    → Distinct cs
    → has_account name pass (remove_name name cs) ≡ false
has_account-remove_name name pass [] d = refl
has_account-remove_name name pass (a ∷ cs) d = elim (Bool-cases (bytes_eq name a.0)) [
  | inl e ↦
      let same : name ≡ a.0 = bytes_eq_sound name a.0 e in
      rw e (has_account-has_name name pass cs (rw same d.0))
  | inr e ↦ rw (e, e) (has_account-remove_name name pass cs d.1)
]

-- In a sound table that is not full, an account with a new name, and with a name and a password of less
-- than 255 bytes with no byte 0 in them, is accepted once it is registered: the arrays that `strncpy` makes of its name and
-- password pass the check.
register-login :
    (name pass : List ℕ) (r : Registry)
    → IsSound r
    → IsShort name
    → IsShort pass
    → r.registered_users < max_users
    → has_name name (accounts r) ≡ false
    → let r' = (socksv5_register_user name pass r).1 in
      is_some (find_login (strncpy 255 name) (strncpy 255 pass) (active r') 0) ≡ true
register-login name pass r s n p l h =
    let r' = (socksv5_register_user name pass r).1 in
    let (s', cases) = socksv5_register_user_lem name pass r s n p in
    let new : accounts r' ≡ accounts r ++ (name, pass) ∷ [] = elim cases [
      | inl (full, _, _) ↦ absurd (omega arith)
      | inr (inl (_, g, _, _)) ↦ cc
      | inr (inr (_, _, _, q)) ↦ q
    ] in
    let whole : (xs : List ℕ) → IsShort xs → c_string (strncpy 255 xs) ≡ xs = λ xs k.
      ap c_string (sym (append-nil (strncpy 255 xs))) ∙ c_string-strncpy 255 xs [] k.0 k.1 in
    find_login-has_account (strncpy 255 name) (strncpy 255 pass) (active r') 0 s'.terminated
    ∙ ap₂ (λ a b. has_account a b (accounts r')) (whole name n) (whole pass p)
    ∙ ap (has_account name pass) new
    ∙ has_account-append name pass (accounts r) ((name, pass) ∷ [])
        (rw (bytes_eq_refl name, bytes_eq_refl pass))

-- Once a name that a sound table has is unregistered no password is accepted for it.
unregister-login :
    (uname passwd : List ℕ) (r : Registry)
    → IsSound r
    → has_name (c_string uname) (accounts r) ≡ true
    → let r' = (socksv5_unregister_user (c_string uname) r).1 in
      is_some (find_login uname passwd (active r') 0) ≡ false
unregister-login uname passwd r s h =
    let r' = (socksv5_unregister_user (c_string uname) r).1 in
    let (s', cases) = socksv5_unregister_user_lem (c_string uname) r s in
    let gone : accounts r' ≡ remove_name (c_string uname) (accounts r) = elim cases [
      | inl (g, _, _) ↦ cc
      | inr (_, _, q) ↦ q
    ] in
    find_login-has_account uname passwd (active r') 0 s'.terminated
    ∙ ap (has_account (c_string uname) (c_string passwd)) gone
    ∙ has_account-remove_name (c_string uname) (c_string passwd) (accounts r) s.distinct
