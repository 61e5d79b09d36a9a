-- ===== src/Users.antt =====
-- src/server/socks5nio.c: the table of the proxy's users (`users`, `registered_users`) and the check
-- of credentials in `auth_process`.
-- The two arrays of `struct user` are lists of 255 bytes. A string argument is the list of its bytes.
pub mod Accounts
pub mod Registration
pub mod Login
use socks_v5_proxy.Prelude.{
  ltb, leb, if◌then◌else◌, length, set, take, drop, overwrite, c_string, strncpy, bytes_eq, u16, ℤ,
  pos, negsuc, ℕ, suc, ◌+◌, ◌-◌, Bool, ◌&&◌, Option, none, some, List, [], ◌∷◌, ◌++◌,
}

abbrev pub max_users : ℕ
max_users = 10

pub record User : Type 0 where
  pub uname : List ℕ
  pub passwd : List ℕ

pub record Registry : Type 0 where
  pub users : List User
  pub registered_users : ℕ

-- The entries in use.
abbrev pub active : Registry → List User
active r = take r.registered_users r.users

-- What `strcmp` reads from `users[i].uname`: a name with no terminator runs on into the password.
unfoldable pub uname_of : User → List ℕ
uname_of u = c_string (u.uname ++ u.passwd)

-- The loop that looks for a name, from index `i` on.
unfoldable pub index_of : List ℕ → List User → ℕ → Option ℕ
index_of name [] i = none
index_of name (u ∷ us) i = if bytes_eq name (uname_of u) then some i else index_of name us (suc i)

unfoldable pub user_entry : List ℕ → List ℕ → User
user_entry uname passwd = record { uname = strncpy 0xff uname; passwd = strncpy 0xff passwd }

unfoldable pub socksv5_register_user : List ℕ → List ℕ → Registry → ℤ × Registry
socksv5_register_user uname passwd r =
    if leb max_users r.registered_users then (pos 1, r) else elim (index_of uname (active r) 0) [
      | some i ↦ (negsuc 0, r)
      | none ↦ (
        pos 0,
        record {
          users = set r.users r.registered_users (user_entry uname passwd);
          registered_users = r.registered_users + 1;
        },
      )
    ]

-- `memmove(&users[i], &users[i + 1], …)`: the `n - (i + 1)` entries behind index `i` move one down.
unfoldable pub close_gap {ℓ} : {A : Type ℓ} → List A → ℕ → ℕ → List A
close_gap users i n = take i users ++ (take (n - suc i) (drop (suc i) users) ++ drop (n - 1) users)

unfoldable pub socksv5_unregister_user : List ℕ → Registry → ℤ × Registry
socksv5_unregister_user uname r = elim (index_of uname (active r) 0) [
  | none ↦ (negsuc 0, r)
  | some i ↦ (
    pos 0,
    record {
      users =
          if ltb (i + 1) r.registered_users
          then close_gap r.users i r.registered_users
          else r.users;
      registered_users = r.registered_users - 1;
    },
  )
]

-- The loop of `socksv5_get_users`: the bytes at `unames`, and `dlen`.
get_users_loop : List User → List ℕ → ℕ → List ℕ × ℕ
get_users_loop [] unames dlen = (unames, dlen)
get_users_loop (u ∷ us) unames dlen =
    get_users_loop us (overwrite unames dlen (uname_of u ++ 0 ∷ []))
      (u16 (dlen + (length (uname_of u) + 1)))

unfoldable pub socksv5_get_users : Registry → List ℕ → List ℕ × ℕ
unfolding get_users_loop
socksv5_get_users r unames =
    let (out, dlen) = get_users_loop (active r) unames 0 in
    (out, (if ltb 1 dlen then dlen - 1 else 0))

-- `strncmp(a, b, 0xff) == 0` on two arrays of 255 bytes.
abbrev pub same_array : List ℕ → List ℕ → Bool
same_array a b = bytes_eq (c_string a) (c_string b)

-- The loop of `auth_process` over the entries: the index of the user that the credentials fit.
unfoldable pub find_login : List ℕ → List ℕ → List User → ℕ → Option ℕ
find_login uname passwd [] i = none
find_login uname passwd (u ∷ us) i =
    if same_array uname u.uname && same_array passwd u.passwd
    then some i
    else find_login uname passwd us (suc i)
