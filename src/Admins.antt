-- ===== src/Admins.antt =====
-- src/server/monitornio.c: the table of administrators, and what a parsed request does.
-- The arrays of `struct admin` are lists of 255 and 17 bytes. A string argument is the list of its
-- bytes.
pub mod Tokens
pub mod Process
pub mod Service
pub mod Arrivals
use socks_v5_proxy.Prelude.{
  ltb, leb, ◌==◌, if◌then◌else◌, length, set, take, drop, overwrite, c_string, strncpy, bytes_eq,
  u16, ℤ, pos, negsuc, ℕ, suc, ◌+◌, ◌-◌, Bool, false, ◌||◌, Option, none, some, List, [], ◌∷◌, ◌++◌,
}
use socks_v5_proxy.Users.{close_gap}

abbrev pub max_admins : ℕ
max_admins = 3

abbrev pub default_admin_uname : List ℕ
default_admin_uname = b'r' ∷ b'o' ∷ b'o' ∷ b't' ∷ []

pub record Admin : Type 0 where
  pub admin_uname : List ℕ
  pub admin_token : List ℕ

pub record AdminTable : Type 0 where
  pub admins : List Admin
  pub registered_admins : ℕ

-- The entries in use.
abbrev pub active_admins : AdminTable → List Admin
active_admins t = take t.registered_admins t.admins

-- What `strcmp` reads from `admins[i].uname`.
unfoldable pub admin_name_of : Admin → List ℕ
admin_name_of a = c_string (a.admin_uname ++ a.admin_token)

-- The loop that looks for a name, from index `i` on.
unfoldable pub admin_index_of : List ℕ → List Admin → ℕ → Option ℕ
admin_index_of name [] i = none
admin_index_of name (a ∷ rest) i =
    if bytes_eq name (admin_name_of a) then some i else admin_index_of name rest (suc i)

-- The first entry is given the default name.
unfoldable pub admin_entry : ℕ → List ℕ → List ℕ → Admin
admin_entry registered uname token = record {
  admin_uname = strncpy 0xff (if registered == 0 then default_admin_uname else uname);
  admin_token = strncpy 0x11 token;
}

unfoldable pub monitor_register_admin : List ℕ → List ℕ → AdminTable → ℤ × AdminTable
monitor_register_admin uname token t =
    if leb max_admins t.registered_admins
    then (pos 1, t)
    else if length token == 0x10
    then elim (admin_index_of uname (active_admins t) 0) [
      | some i ↦ (negsuc 0, t)
      | none ↦ (
        pos 0,
        record {
          admins = set t.admins t.registered_admins (admin_entry t.registered_admins uname token);
          registered_admins = t.registered_admins + 1;
        },
      )
    ]
    else (negsuc 0, t)

-- The loop starts behind the first entry.
unfoldable pub monitor_unregister_admin : List ℕ → AdminTable → ℤ × AdminTable
monitor_unregister_admin uname t =
    if bytes_eq default_admin_uname uname
    then (negsuc 0, t)
    else elim (admin_index_of uname (drop 1 (active_admins t)) 1) [
      | none ↦ (negsuc 0, t)
      | some i ↦ (
        pos 0,
        record {
          admins =
              if ltb (i + 1) t.registered_admins
              then close_gap t.admins i t.registered_admins
              else t.admins;
          registered_admins = t.registered_admins - 1;
        },
      )
    ]

-- The loop of `monitor_get_admins`: the bytes at `unames`, and `dlen`.
get_admins_loop : List Admin → List ℕ → ℕ → List ℕ × ℕ
get_admins_loop [] unames dlen = (unames, dlen)
get_admins_loop (a ∷ rest) unames dlen =
    get_admins_loop rest (overwrite unames dlen (admin_name_of a ++ 0 ∷ []))
      (u16 (dlen + (length (admin_name_of a) + 1)))

unfoldable pub monitor_get_admins : AdminTable → List ℕ → List ℕ × ℕ
unfolding get_admins_loop
monitor_get_admins t unames =
    let (out, dlen) = get_admins_loop (active_admins t) unames 0 in
    (out, (if ltb 1 dlen then dlen - 1 else 0))

-- `strncmp(token, admins[i].token, 0x10) == 0`
abbrev pub same_token : List ℕ → Admin → Bool
same_token token a = bytes_eq (c_string (take 0x10 token)) (c_string (take 0x10 a.admin_token))

unfoldable pub is_admin_loop : List ℕ → List Admin → Bool
is_admin_loop token [] = false
is_admin_loop token (a ∷ rest) = same_token token a || is_admin_loop token rest

unfoldable pub monitor_is_admin : List ℕ → AdminTable → Bool
unfolding is_admin_loop
monitor_is_admin token t = is_admin_loop token (active_admins t)
