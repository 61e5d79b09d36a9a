-- ===== src/Session/Logging.antt =====
-- src/server/socks5nio.c: the lines that it prints about requests and about the credentials that the sniffer
-- has found. The text of the date is a parameter, since the clock of the system gives it; `none` is a read
-- outside an array, or through a null pointer.
pub mod Fields
use socks_v5_proxy.Prelude.{
  if◌then◌else◌, ltb, ◌==◌, length, c_string, ◌>>=◌, ℕ, Bool, Option, none, some, List, [], ◌∷◌,
  ◌++◌,
}
use socks_v5_proxy.Disector.{codes}
use socks_v5_proxy.Request.{socks_req_addrtype_domain, Family, Request}
use socks_v5_proxy.Session.{Address}
use socks_v5_proxy.Netutils.Human.{port_number, decimal, int_digits, sockaddr_to_human}

-- What `%s` prints of an array.
unfoldable pub string_of : List ℕ → Option (List ℕ)
string_of array = let s = c_string array in if ltb (length s) (length array) then some s else none

-- What stands for the client: the name of its account, through a pointer that may be null.
unfoldable pub user_field : Bool → Option (List ℕ) → Option (List ℕ)
user_field is_auth_on uname =
    if is_auth_on then uname >>= (λ u. string_of u) else some (codes "<anonymous>")

module _ (inet_ntop : Family → List ℕ → ℕ → Option (List ℕ)) (buf : List ℕ) where
  -- What `sockaddr_to_human` stores in `buf`, printed.
  human : Address → Option (List ℕ)
  unfolding string_of
  human addr = sockaddr_to_human inet_ntop buf (some addr) >>= string_of

  log_destination : Address → ℕ → List ℕ → Option (List ℕ)
  unfolding human string_of
  log_destination originaddr addr_type fqdn =
      if addr_type == socks_req_addrtype_domain
      then (string_of fqdn
          >>= (λ name. some (name ++ 9 ∷ decimal int_digits (port_number (originaddr.port)))))
      else human originaddr

  pub log_request :
      List ℕ → ℕ → Bool → Option (List ℕ) → Request → Address → Address → Option (List ℕ)
  unfolding user_field human log_destination
  log_request date status is_auth_on uname request clientaddr originaddr = do
    user ← user_field is_auth_on uname
    client ← human clientaddr
    destination ← log_destination originaddr (request.dest_addr_type) (request.fqdn)
    some (
        date
        ++ 9
          ∷ (user
              ++ 9
                ∷ b'A'
                ∷ 9
                ∷ (client ++ 9 ∷ (destination ++ 9 ∷ (decimal int_digits status ++ b'\n' ∷ [])))))

  log_credentials :
      List ℕ → List ℕ → List ℕ → Bool → Option (List ℕ) → ℕ → List ℕ → Address → Option (List ℕ)
  unfolding user_field log_destination string_of
  log_credentials date user pass is_auth_on uname addr_type fqdn originaddr = do
    client ← user_field is_auth_on uname
    destination ← log_destination originaddr addr_type fqdn
    name ← string_of user
    secret ← string_of pass
    some (
        date
        ++ 9
          ∷ (client
              ++ 9
                ∷ b'P'
                ∷ 9
                ∷ (codes "POP3" ++ 9 ∷ (destination ++ 9 ∷ (name ++ 9 ∷ (secret ++ b'\n' ∷ []))))))
