-- ===== src/Session/Logging/Fields.antt =====
-- src/server/socks5nio.c: the fields of a line about a request.
use socks_v5_proxy.Disector.{codes}
use socks_v5_proxy.Prelude.{
  if◌then◌else◌, ◌==◌, lt→ltb, length, length-append, All, All-append, NonZero, ℕ, ◌≤◌, ◌<◌, ◌≡◌,
  refl, ap, ◌∙◌, ◌≢◌, ◌⊎◌, inl, inr, Bool, true, false, Option, some, List, [], ◌∷◌, ◌++◌,
  append_assoc, arith,
}
use socks_v5_proxy.CommandLine.Ports.{IsDigit, denoted}
use socks_v5_proxy.Netutils.Human.{port_number, decimal, int_digits}
use socks_v5_proxy.Netutils.Human.Text.{
  Holds-c_string, denoted-decimal, decimal-IsDigit, digits-NonZero, IsHandled,
  sockaddr_to_human-Holds, length-port,
}
use socks_v5_proxy.Request.{socks_req_addrtype_domain, Family, Request}
use socks_v5_proxy.Session.{Address}
use socks_v5_proxy.Session.Logging.{string_of, user_field, human, log_destination, log_request}

-- What a reader of the line makes of it: the parts between tabs.
abbrev pushed : ℕ → List (List ℕ) → List (List ℕ)
pushed c [] = (c ∷ []) ∷ []
pushed c (f ∷ fs) = (c ∷ f) ∷ fs

pub fields : List ℕ → List (List ℕ)
fields [] = [] ∷ []
fields (c ∷ cs) = let rest = fields cs in if c == 9 then [] ∷ rest else pushed c rest

abbrev pub NoTab : List ℕ → Type 0
NoTab = All (λ c. c ≢ 9)

fields-append : (xs rest : List ℕ) → NoTab xs → fields (xs ++ 9 ∷ rest) ≡ xs ∷ fields rest
unfolding fields
fields-append [] rest h = refl
fields-append (x ∷ xs) rest h =
    let other : (x == 9) ≡ false = ground (arith, h.0) in rw (other, fields-append xs rest h.1) refl

fields-last : (xs : List ℕ) → NoTab xs → fields xs ≡ xs ∷ []
unfolding fields
fields-last [] h = refl
fields-last (x ∷ xs) h =
    let other : (x == 9) ≡ false = ground (arith, h.0) in rw (other, fields-last xs h.1) refl

digits-NoTab : (ds : List ℕ) → All IsDigit ds → NoTab ds
digits-NoTab [] h = tt
digits-NoTab (d ∷ ds) h = (ground (arith, h.0), digits-NoTab ds h.1)

-- `inet_ntop` gives an IPv4 or IPv6 address this text, a string without a tab that leaves room for the port.
pub record IsNamed (inet_ntop : Family → List ℕ → ℕ → Option (List ℕ)) (addr : Address)
    (text : List ℕ) : Type 0 where
  pub family : IsHandled addr.domain
  pub named : inet_ntop addr.domain addr.host 50 ≡ some text
  pub string : NonZero text
  pub untabbed : NoTab text
  pub short : length text ≤ 43
  pub port : port_number addr.port < 65536

human-text :
    (inet_ntop : Family → List ℕ → ℕ → Option (List ℕ)) (buf : List ℕ) (addr : Address)
    (text : List ℕ)
    → length buf ≡ 50
    → IsNamed inet_ntop addr text
    → human inet_ntop buf addr ≡ some (text ++ 9 ∷ decimal int_digits (port_number addr.port))
unfolding human string_of
human-text inet_ntop buf addr text size n =
    let digits = decimal int_digits (port_number addr.port) in
    let five = length-port (port_number addr.port) n.port in
    let fits = n.short in
    let (b, run, held) =
      sockaddr_to_human-Holds inet_ntop buf text addr n.family (rw size (n.named)) n.string
        (omega arith) in
    let all_NonZero =
      All-append (λ c. c ≢ 0) text (9 ∷ digits) n.string
        (
          (λ e. omega arith),
          digits-NonZero digits (decimal-IsDigit int_digits (port_number addr.port)),
        ) in
    let string = Holds-c_string held all_NonZero in
    let inside : length (text ++ 9 ∷ digits) < length b =
      omega (arith, ap length held.split, length-append {0} (text ++ 9 ∷ digits) (0 ∷ held.tail)) in
    rw (run, string, lt→ltb (length (text ++ 9 ∷ digits)) (length b) inside) refl

-- The text of what a request has asked for: of its address, or its name, which ends inside its array.
abbrev pub IsDestination :
    (Family → List ℕ → ℕ → Option (List ℕ)) → Request → Address → List ℕ → Type 0
IsDestination inet_ntop request addr text =
    ((request.dest_addr_type ≢ socks_req_addrtype_domain) × IsNamed inet_ntop addr text)
    ⊎ ((request.dest_addr_type ≡ socks_req_addrtype_domain)
        × (string_of request.fqdn ≡ some text)
        × NoTab text)

destination-text :
    (inet_ntop : Family → List ℕ → ℕ → Option (List ℕ)) (buf : List ℕ) (request : Request)
    (addr : Address) (text : List ℕ)
    → length buf ≡ 50
    → IsDestination inet_ntop request addr text
    → (log_destination inet_ntop buf addr request.dest_addr_type request.fqdn
        ≡ some (text ++ 9 ∷ decimal int_digits (port_number addr.port)))
      × NoTab text
unfolding log_destination
destination-text inet_ntop buf request addr text size (inl (other, named)) =
    let other_type : (request.dest_addr_type == socks_req_addrtype_domain) ≡ false = ground arith in
    (rw other_type (human-text inet_ntop buf addr text size named), named.untabbed)
destination-text inet_ntop buf request addr text size (inr (domain, string, untabbed)) =
    let domain_type : (request.dest_addr_type == socks_req_addrtype_domain) ≡ true = ground arith in
    (rw (domain_type, string) refl, untabbed)

-- Two fields that stand behind one another.
fields-pair :
    (xs ys rest : List ℕ)
    → NoTab xs
    → NoTab ys
    → fields ((xs ++ 9 ∷ ys) ++ 9 ∷ rest) ≡ xs ∷ ys ∷ fields rest
fields-pair xs ys rest h k =
    ap fields (append_assoc xs (9 ∷ ys) (9 ∷ rest))
    ∙ fields-append xs (ys ++ 9 ∷ rest) h
    ∙ ap (λ fs. xs ∷ fs) (fields-append ys rest k)

decimal-NoTab : (n : ℕ) → NoTab (decimal int_digits n)
decimal-NoTab n = digits-NoTab (decimal int_digits n) (decimal-IsDigit int_digits n)

-- The line that `log_request` prints for a request that asks for an address that `inet_ntop` has a text for, or
-- for a name that ends inside its array, where neither the texts nor the name, the date and the user have a tab:
-- cut at its tabs it is the date, the user, an A, the address and the port of the client, the address or name
-- and the port of the origin, and the status with the end of the line, with digits that denote both ports and
-- the status.
pub log_request-fields :
    (inet_ntop : Family → List ℕ → ℕ → Option (List ℕ)) (buf date : List ℕ) (status : ℕ)
    (is_auth_on : Bool) (uname : Option (List ℕ)) (request : Request)
    (clientaddr originaddr : Address) (user client destination : List ℕ)
    → length buf ≡ 50
    → NoTab date
    → user_field is_auth_on uname ≡ some user
    → NoTab user
    → IsNamed inet_ntop clientaddr client
    → IsDestination inet_ntop request originaddr destination
    → port_number originaddr.port < 65536
    → status < 256
    → (line : List ℕ) × (client_port : List ℕ) × (origin_port : List ℕ) × (code : List ℕ)
      × (log_request inet_ntop buf date status is_auth_on uname request clientaddr originaddr
          ≡ some line)
      × (fields line
          ≡ date
            ∷ user
            ∷ codes "A"
            ∷ client
            ∷ client_port
            ∷ destination
            ∷ origin_port
            ∷ (code ++ b'\n' ∷ [])
            ∷ [])
      × (denoted client_port ≡ port_number clientaddr.port)
      × (denoted origin_port ≡ port_number originaddr.port)
      × (denoted code ≡ status)
unfolding log_request
log_request-fields inet_ntop buf date status is_auth_on uname request clientaddr originaddr user
      client destination size d users u c o port_bound status_bound =
    let cp = decimal int_digits (port_number clientaddr.port) in
    let op = decimal int_digits (port_number originaddr.port) in
    let st = decimal int_digits status in
    let (reached, untabbed) =
      destination-text inet_ntop buf request originaddr destination size o in
    let end = st ++ b'\n' ∷ [] in
    let end_NoTab =
      All-append (λ c. c ≢ 9) st (b'\n' ∷ []) (decimal-NoTab status) ((λ e. omega arith), tt) in
    let behind = (client ++ 9 ∷ cp) ++ 9 ∷ ((destination ++ 9 ∷ op) ++ 9 ∷ end) in
    let line = date ++ 9 ∷ (user ++ 9 ∷ b'A' ∷ 9 ∷ behind) in
    (
      line,
      cp,
      op,
      st,
      rw (users, human-text inet_ntop buf clientaddr client size c, reached) refl,
      fields-append date (user ++ 9 ∷ b'A' ∷ 9 ∷ behind) d
          ∙ ap (λ fs. date ∷ fs)
              (fields-append user (b'A' ∷ 9 ∷ behind) u
                ∙ ap (λ fs. user ∷ fs)
                    (fields-append (b'A' ∷ []) behind ((λ e. omega arith), tt)
                      ∙ ap (λ fs. codes "A" ∷ fs)
                          (fields-pair client cp ((destination ++ 9 ∷ op) ++ 9 ∷ end) c.untabbed
                              (decimal-NoTab (port_number clientaddr.port))
                            ∙ ap (λ fs. client ∷ cp ∷ fs)
                                (fields-pair destination op end untabbed
                                    (decimal-NoTab (port_number originaddr.port))
                                  ∙ ap (λ fs. destination ∷ op ∷ fs)
                                      (fields-last end end_NoTab))))),
      denoted-decimal int_digits (port_number clientaddr.port) (let h = c.port in omega arith),
      denoted-decimal int_digits (port_number originaddr.port) (omega arith),
      denoted-decimal int_digits status (omega arith),
    )
