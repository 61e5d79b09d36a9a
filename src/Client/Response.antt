-- ===== src/Client/Response.antt =====
-- src/client/clientresponse.c: what the client makes of a response. The text that `printf` and `putchar`
-- write is left out, but for the bytes of a list of users.
pub mod Numbers
use socks_v5_proxy.Prelude.{
  ltb, leb, ◌==◌, if◌then◌else◌, get_or, set, overwrite, window, c_string, ℕ, ◌+◌, ◌*◌, Bool, not,
  List, [], ◌∷◌,
}
use socks_v5_proxy.Client.{
  get, config, transferred_bytes, admin_users_list, toggle_disector, del_admin_user,
  ClientRequestArgs,
}

-- `combinedlen`, `numeric_data_array` and `numeric_response`, which `main` keeps between requests.
pub record Received : Type 0 where
  pub combinedlen : List ℕ
  pub numeric_data_array : List ℕ
  pub numeric_response : ℕ

-- What a response tells the user: a number, the list of users as it is printed, the new setting of the
-- sniffer, the name whose account was changed, the complaint for a status and a target, or nothing. The
-- loop over a list whose length is 65533 or more never ends, since its `uint16_t` index wraps.
pub data Report : Type 0 where
  number_of : ℕ → ℕ → Report
  user_list : ℕ → List ℕ → Report
  switched : Bool → Report
  changed : ℕ → List ℕ → Report
  refused : ℕ → ℕ → Report
  silence : Report
  endless : Report

-- `ntohs` and `ntohl` of the bytes at the start of an array.
abbrev pub ntohs : List ℕ → ℕ
ntohs xs = get_or xs 0 0 * 256 + get_or xs 1 0

abbrev pub ntohl : List ℕ → ℕ
ntohl xs = get_or xs 0 0 * 16777216 + get_or xs 1 0 * 65536 + get_or xs 2 0 * 256 + get_or xs 3 0

-- The enumeration of the sniffer in the union, the lowest byte first.
abbrev pub disector_value : List ℕ → ℕ
disector_value xs =
    get_or xs 0 0 + get_or xs 1 0 * 256 + get_or xs 2 0 * 65536 + get_or xs 3 0 * 16777216

-- The loop of `putchar` over the bytes, and the line feed behind it.
unfoldable pub printed : List ℕ → List ℕ
printed [] = b'\n' ∷ []
printed (c ∷ cs) = (if c == 0 then b'\n' else c) ∷ printed cs

unfoldable pub handle_get_ok_status : ℕ → List ℕ → Received → Received × Report
handle_get_ok_status target buf r =
    let lens = set (set r.combinedlen 0 (get_or buf 1 0)) 1 (get_or buf 2 0) in
    let r' : Received = record r { combinedlen = lens } in
    if leb target transferred_bytes
    then (let bytes = overwrite r.numeric_data_array 0 (window 3 4 buf) in
        (
          record r' { numeric_data_array = bytes; numeric_response = ntohl bytes },
          number_of target (ntohl bytes),
        ))
    else if leb target admin_users_list
    then (
      r',
      (if ltb (ntohs lens) 65533
          then user_list target (printed (window 3 (ntohs lens) buf))
          else endless),
    )
    else (r', silence)

unfoldable pub handle_config_ok_status : ClientRequestArgs → Report
handle_config_ok_status args =
    if args.target == toggle_disector
    then switched (not (disector_value args.data_bytes == 0))
    else if leb args.target del_admin_user
    then changed args.target (c_string args.data_bytes)
    else silence

unfoldable pub handle_error_response : ClientRequestArgs → ℕ → Report
handle_error_response args status = if leb status 6 then refused status args.target else silence

-- `buf[0]` is the status.
unfoldable pub process_response : ClientRequestArgs → List ℕ → Received → Received × Report
process_response args buf r =
    let c = get_or buf 0 0 in
    if c == 0
    then elim args.method [
      | get ↦ handle_get_ok_status args.target buf r
      | config ↦ (r, handle_config_ok_status args)
    ]
    else (r, handle_error_response args c)
