-- ===== src/Tests/Administration.antt =====
-- The table of administrators and the requests that change the server, at concrete inputs.

use socks_v5_proxy.Prelude.{replicate, ℕ, refl, true, false, List, [], ◌∷◌, ◌++◌, arith}
use socks_v5_proxy.Users.{Registry}
use socks_v5_proxy.Users.Accounts.{IsSound}
use socks_v5_proxy.Monitor.Types.{monitor_done, Statics, MonitorParser, cleared_monitor}
use socks_v5_proxy.Admins.{default_admin_uname, Admin, AdminTable}
use socks_v5_proxy.Admins.Process.{Server}

abbrev pub sixteen : List ℕ
sixteen = replicate 16 65

abbrev no_admin : Admin
no_admin = record { admin_uname = replicate 255 0; admin_token = replicate 17 0 }

abbrev root_admin : Admin
root_admin = record {
  admin_uname = default_admin_uname ++ replicate 251 0;
  admin_token = sixteen ++ 0 ∷ [];
}

abbrev pub root_only : AdminTable
root_only = record { admins = root_admin ∷ no_admin ∷ no_admin ∷ []; registered_admins = 1 }

abbrev pub other_token : List ℕ
other_token = replicate 16 66

abbrev pub no_users : Registry
no_users = record {
  users = replicate 10 (record { uname = replicate 255 0; passwd = replicate 255 0 });
  registered_users = 0;
}

pub no_users-IsSound : IsSound no_users
no_users-IsSound = record { table = refl; count = omega arith; terminated = tt; distinct = tt }

abbrev pub admin_server : Server
admin_server = record {
  registry = no_users;
  admin_table = root_only;
  is_disector_on = true;
  current_connections = 2;
  historic_connections = 5;
  bytes_transferred = 1000;
}

abbrev pub statics : Statics
statics = record { combinedlen = 0 ∷ 0 ∷ []; username_len_with_null = 0 }

abbrev pub monitor_start : MonitorParser
monitor_start = record {
  monitor = cleared_monitor;
  state = monitor_done;
  len = 16;
  i = 16;
  separated = false;
}
