-- ===== src/Session/Accept.antt =====
-- src/server/socks5nio.c: new connections, and the pool of blocks that ended ones have left.
use socks_v5_proxy.Prelude.{
  ltb, ◌==◌, if◌then◌else◌, replicate, pos, negsuc, ◌>>=◌, ℕ, ◌+◌, ◌-◌, Bool, false, Option, none,
  some, List, [], ◌∷◌,
}
use socks_v5_proxy.Buffer.{buffer_init}
use socks_v5_proxy.Hello.{hello_version}
use socks_v5_proxy.Auth.{auth_version}
use socks_v5_proxy.Request.{request_version, cleared_request}
use socks_v5_proxy.Disector.{disector_wait_pop}
use socks_v5_proxy.Selector.{op_noop, FdSelector, selector_register}
use socks_v5_proxy.Session.{in_use, Socks5, op_read_only, is_success}
use socks_v5_proxy.Session.Lifetime.{max_pool}

abbrev pub raw_buffer_size : ℕ
raw_buffer_size = 1024

-- What the handler of the listening descriptor reaches: `idle` is the number of blocks in the chain
-- `pool`, and `number` what the next connection is known by.
pub record Listener : Type 0 where
  pub selector : FdSelector ℕ ℕ
  pub number : ℕ
  pub idle : ℕ
  pub pool_size : ℕ
  pub closed : List ℕ

-- What `accept`, `selector_fd_set_nio`, `malloc` and the growth of the table give.
pub record Arrival : Type 0 where
  pub client : Option ℕ
  pub set_nio : Bool
  pub memory : Bool
  pub table_memory : Bool

-- The block, all of it 0 before.
unfoldable pub fresh : ℕ → Socks5
fresh client = record {
  client_fd = client;
  client_uname = none;
  origin_resolution = [];
  origin_resolution_current = [];
  origin_fd = negsuc 0;
  origin_addr = none;
  hello = record {
    on_authentication_method = none;
    selected = 0;
    state = hello_version;
    remaining = 0;
  };
  auth = record {
    uname = replicate 255 0;
    passwd = replicate 255 0;
    state = auth_version;
    len = 0;
    i = 0;
  };
  auth_status = 0;
  request = record { request = cleared_request; state = request_version; n = 0; i = 0 };
  response_status = 0;
  client_duplex = op_noop;
  origin_duplex = op_noop;
  dp = record { disector = replicate 513 0; state = disector_wait_pop; i = 0; user_carry = false };
  read_buffer = buffer_init raw_buffer_size (replicate raw_buffer_size 0);
  write_buffer = buffer_init raw_buffer_size (replicate raw_buffer_size 0);
  references = 1;
  life = in_use;
}

-- The first block of the pool, or a new one.
unfoldable pub socks5_new : Bool → ℕ → Listener → Option Socks5 × Listener
socks5_new memory client l =
    if l.idle == 0
    then ((if memory then some (fresh client) else none), l)
    else (some (fresh client), record l { idle = l.idle - 1 })

-- `socks5_destroy` of a block with one reference.
unfoldable pub retire : Listener → Listener
retire l =
    if ltb l.pool_size max_pool
    then record l { idle = l.idle + 1; pool_size = l.pool_size + 1 }
    else l

abbrev pub hang_up : Listener → ℕ → Listener
hang_up l fd = record l { closed = fd ∷ l.closed }

-- From the test for a block on: `none` is no new connection.
unfoldable pub register_client :
    Bool → ℕ → Option Socks5 → Listener → Option (Option Socks5 × Listener)
register_client table_memory fd none l = some (none, hang_up l fd)
register_client table_memory fd (some s) l = do
  (st, sel) ← selector_register table_memory l.selector (pos fd) (some fd) op_read_only l.number
  let l1 : Listener = record l { selector = sel }
  some (if is_success st then (some s, l1) else (none, retire (hang_up l1 fd)))

unfoldable pub socksv5_passive_accept : Arrival → Listener → Option (Option Socks5 × Listener)
unfolding socks5_new register_client
socksv5_passive_accept a l = elim (a.client) [
  | none ↦ some (none, l)
  | some fd ↦
      if a.set_nio
      then (let (block, l1) = socks5_new a.memory fd l in
          register_client a.table_memory fd block l1)
      else some (none, hang_up l fd)
]
