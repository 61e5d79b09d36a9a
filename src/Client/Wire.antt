-- ===== src/Client/Wire.antt =====
-- src/client/clientrequest.c: the bytes of a request as they are sent.
use socks_v5_proxy.Prelude.{
  ◌==◌, if◌then◌else◌, length, get_or, set, take, drop, length-append, length-drop,
  take-length-append, overwrite, overwrite-cons, overwrite-front, overwrite-past, set-past,
  overwrite-split, c_string, u8, ℕ, ◌+◌, ◌≤◌, ◌≡◌, refl, sym, ap, ◌∙◌, ◌||◌, List, [], ◌∷◌, ◌++◌,
  append_assoc, arith,
}
use socks_v5_proxy.Client.{
  get, config, method_value, toggle_disector, add_proxy_user, del_proxy_user, add_admin_user,
  del_admin_user, ClientRequestArgs, second_offset, separator_offset, htons, serialize_user,
  serialize_config_data, serialize_header, serialize_request, request_sent,
}

-- The first 21 bytes.
abbrev pub header : ClientRequestArgs → List ℕ → List ℕ → List ℕ
header args token rest =
    1 ∷ (token ++ method_value args.method ∷ u8 args.target ∷ (htons args.dlen ++ rest))

-- The four bytes behind the token, whatever they were.
header-four :
    (args : ClientRequestArgs) (token rest : List ℕ) (m t hi lo : ℕ)
    → length token ≡ 16
    → set
        (overwrite
          (set (1 ∷ (token ++ m ∷ t ∷ hi ∷ lo ∷ rest)) 17 (method_value args.method))
          19
          (htons args.dlen))
        18
        (u8 args.target)
      ≡ header args token rest
unfolding overwrite
header-four args token rest m t hi lo l =
    ap (λ b. set (overwrite b 19 (htons args.dlen)) 18 (u8 args.target))
      (set-past (1 ∷ token) (m ∷ t ∷ hi ∷ lo ∷ rest) 0 17 (method_value args.method) (omega arith))
    ∙ ap (λ b. set b 18 (u8 args.target))
        (overwrite-past (1 ∷ token) (method_value args.method ∷ t ∷ hi ∷ lo ∷ rest)
          (htons args.dlen) 2 19 (omega arith))
    ∙ set-past (1 ∷ token) (method_value args.method ∷ t ∷ (htons args.dlen ++ rest)) 1 18
        (u8 args.target) (omega arith)

four :
    (ys : List ℕ) (n : ℕ)
    → length ys ≡ 4 + n
    → (a b c d : ℕ) × (rest : List ℕ) × (ys ≡ a ∷ b ∷ c ∷ d ∷ rest) × (length rest ≡ n)
four [] n e = absurd (omega arith)
four (a ∷ []) n e = absurd (omega arith)
four (a ∷ b ∷ []) n e = absurd (omega arith)
four (a ∷ b ∷ c ∷ []) n e = absurd (omega arith)
four (a ∷ b ∷ c ∷ d ∷ rest) n e = (a, b, c, d, rest, refl, omega arith)

serialize_header_lem :
    (args : ClientRequestArgs) (token buffer : List ℕ) (n : ℕ)
    → length token ≡ 16
    → length buffer ≡ 21 + n
    → (rest : List ℕ) × (serialize_header args token buffer ≡ header args token rest)
      × (length rest ≡ n)
unfolding serialize_header
serialize_header_lem args token [] n l e = absurd (omega arith)
serialize_header_lem args token (b ∷ r) n l e =
    let (m, t, hi, lo, rest, q, k) =
      four (drop (length token) r) n (omega (arith, length-drop {A = ℕ} (length token) r)) in
    let stored : overwrite (1 ∷ r) 1 token ≡ 1 ∷ (token ++ m ∷ t ∷ hi ∷ lo ∷ rest) =
      overwrite-cons 1 r 0 token
      ∙ ap (λ z. 1 ∷ z) (overwrite-front r token (omega arith) ∙ ap (λ z. token ++ z) q) in
    (
      rest,
      ap
            (λ z.
              set (overwrite (set z 17 (method_value args.method)) 19 (htons args.dlen)) 18
                (u8 args.target))
            stored
          ∙ header-four args token rest m t hi lo l,
      k,
    )

-- Stores behind the header.
header-body :
    (args : ClientRequestArgs) (token rest zs : List ℕ)
    → length token ≡ 16
    → overwrite (header args token rest) 21 zs ≡ header args token (overwrite rest 0 zs)
header-body args token rest zs l =
    overwrite-past (1 ∷ token)
      (method_value args.method ∷ u8 args.target ∷ (htons args.dlen ++ rest)) zs 4 21 (omega arith)
    ∙ ap (λ z. 1 ∷ (token ++ z))
        (overwrite-past (method_value args.method ∷ u8 args.target ∷ htons args.dlen) rest zs 0 4
          refl)

-- The data of a request, by what it asks for.
unfoldable pub config_payload : ClientRequestArgs → List ℕ
config_payload args =
    if args.target == toggle_disector
    then take 1 args.data_bytes
    else if (args.target == add_proxy_user) || (args.target == add_admin_user)
    then c_string args.data_bytes
      ++ get_or args.data_bytes separator_offset 0 ∷ c_string (drop second_offset args.data_bytes)
    else if (args.target == del_proxy_user) || (args.target == del_admin_user)
    then take args.dlen args.data_bytes
    else []

unfoldable pub payload : ClientRequestArgs → List ℕ
payload args = elim args.method [ get ↦ take 1 args.data_bytes | config ↦ config_payload args ]

serialize_user_lem :
    (mem buffer : List ℕ)
    → serialize_user mem buffer
      ≡ overwrite buffer 21
          (c_string mem ++ get_or mem separator_offset 0 ∷ c_string (drop second_offset mem))
unfolding serialize_user overwrite
serialize_user_lem mem buffer =
    let name : List ℕ = c_string mem in
    let second : List ℕ = c_string (drop second_offset mem) in
    let separator : ℕ = get_or mem separator_offset 0 in
    overwrite-split (overwrite buffer 21 name) (separator ∷ []) second (21 + length name)
      (21 + length name + 1) refl
    ∙ overwrite-split buffer name (separator ∷ second) 21 (21 + length name) refl

config_data-payload :
    (args : ClientRequestArgs) (buffer : List ℕ)
    → serialize_config_data args buffer ≡ overwrite buffer 21 (config_payload args)
unfolding serialize_config_data config_payload overwrite
config_data-payload args buffer = ground (arith, serialize_user_lem args.data_bytes buffer)

serialize_request-payload :
    (args : ClientRequestArgs) (token buffer : List ℕ)
    → serialize_request args token buffer
      ≡ overwrite (serialize_header args token buffer) 21 (payload args)
unfolding serialize_request payload
serialize_request-payload args token buffer =
    let with_target : List ℕ = serialize_header args token buffer in
    elim args.method
      as (λ m.
        elim m [
          | get ↦ overwrite with_target 21 (take 1 args.data_bytes)
          | config ↦ serialize_config_data args with_target
        ]
        ≡ overwrite with_target 21
            (elim m [ get ↦ take 1 args.data_bytes | config ↦ config_payload args ])) [
              | get ↦ refl
              | config ↦ config_data-payload args with_target
            ]

-- Where `dlen` is the length of the data, what is sent is the header and the data.
pub request_sent-payload :
    (args : ClientRequestArgs) (token buffer : List ℕ)
    → length token ≡ 16
    → length buffer ≡ 65556
    → length (payload args) ≡ args.dlen
    → args.dlen ≤ 65535
    → request_sent args token buffer ≡ header args token (payload args)
request_sent-payload args token buffer l k d b =
    let (rest, q, n) = serialize_header_lem args token buffer 65535 l (omega arith) in
    let body : List ℕ = payload args in
    let tail : List ℕ = drop (length body) rest in
    let whole : serialize_request args token buffer ≡ header args token body ++ tail =
      serialize_request-payload args token buffer
      ∙ ap (λ z. overwrite z 21 body) q
      ∙ header-body args token rest body l
      ∙ ap (header args token) (overwrite-front rest body (omega arith))
      ∙ ap (λ z. 1 ∷ z) (sym (append_assoc token _ tail)) in
    let count : 21 + args.dlen ≡ length (header args token body) = omega (
      arith,
      length-append token (method_value args.method ∷ u8 args.target ∷ (htons args.dlen ++ body)),
    ) in
    rw (whole, count) (take-length-append (header args token body) tail)
