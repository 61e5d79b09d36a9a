-- ===== src/Netutils/Human.antt =====
-- src/server/netutils.c: the text of an address. `inet_ntop` is a parameter: the text that it stores for a
-- family, the bytes of an address and the size that is offered, `none` where it fails. `buff` is an array of
-- `buffsize` bytes; `none` is an access outside it.
pub mod Text
use socks_v5_proxy.Prelude.{
  if◌then◌else◌, ltb, length, get_or, set, take, overwrite, c_string, strncpy, ◌>>=◌, ℕ, zero, suc,
  ◌+◌, ◌-◌, ◌*◌, ◌/◌, ◌%◌, Option, none, some, List, [], ◌∷◌, ◌++◌,
}
use socks_v5_proxy.Disector.{codes}
use socks_v5_proxy.Request.{Family, af_unset}
use socks_v5_proxy.Session.{Address}

-- The number whose bytes in the order of the network are stored.
abbrev pub port_number : List ℕ → ℕ
port_number port = get_or port 0 0 * 256 + get_or port 1 0

-- What `%d` prints of a number that has at most as many digits as the first argument.
pub decimal : ℕ → ℕ → List ℕ
decimal zero n = []
decimal (suc digits) n =
    let front = decimal digits (n / 10) in
    if ltb n 10 then (b'0' + n) ∷ [] else front ++ (b'0' + n % 10) ∷ []

abbrev pub int_digits : ℕ
int_digits = 10

-- `buff[buffsize - 1] = 0`
abbrev pub last_cleared : List ℕ → List ℕ
last_cleared buff = set buff (length buff - 1) 0

-- `strncat(buff, "\t", buffsize)`, which looks for the end of the string and stores two bytes there.
with_tab : List ℕ → Option (List ℕ)
with_tab buff =
    let len = length (c_string buff) in
    if ltb (len + 1) (length buff) then some (overwrite buff len (9 ∷ 0 ∷ [])) else none

-- The `snprintf` of the port behind the string.
with_port : ℕ → List ℕ → List ℕ
with_port port buff =
    let len = length (c_string buff) in
    overwrite buff len (take (length buff - len - 1) (decimal int_digits port) ++ 0 ∷ [])

-- The text of the host: that of `inet_ntop`, or "unknown ip".
with_host : Option (List ℕ) → List ℕ → List ℕ
with_host none buff = last_cleared (strncpy (length buff) (codes "unknown ip"))
with_host (some text) buff = overwrite buff 0 (text ++ 0 ∷ [])

-- The address of a family that is handled.
sockaddr_text : (Family → List ℕ → ℕ → Option (List ℕ)) → List ℕ → Address → Option (List ℕ)
unfolding with_host with_tab with_port
sockaddr_text inet_ntop buff addr =
    with_tab (with_host (inet_ntop addr.domain addr.host (length buff)) buff)
    >>= (λ b. some (last_cleared (with_port (port_number addr.port) (last_cleared b))))

pub sockaddr_to_human :
    (Family → List ℕ → ℕ → Option (List ℕ)) → List ℕ → Option Address → Option (List ℕ)
unfolding sockaddr_text with_tab
sockaddr_to_human inet_ntop buff none = some (strncpy (length buff) (codes "null"))
sockaddr_to_human inet_ntop buff (some addr) = elim (addr.domain) [
  | af_unset ↦ with_tab (strncpy (length buff) (codes "unknown")) >>= (λ b. some (last_cleared b))
  | other ↦ sockaddr_text inet_ntop buff addr
]
