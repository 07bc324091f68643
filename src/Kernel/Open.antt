-- ===== src/Kernel/Open.antt =====
-- src/main.cpp, src/TCPKernel.cpp: `Open`; src/block_epoll_net.cpp: `InitNet` and `InitThreadPool`;
-- src/err_str.cpp. What the calls of the system return is a parameter: each is made once.
pub mod Started
use nest_disk.Base.{
  ℕ, ℤ, pos, negsuc, eq_ℤ, eq_ℤ_iff, ◌≡◌, ◌≢◌, ◌↔◌, refl, sym, subst, ap, ◌∙◌, Text, codes, Bool,
  true, false, not, Option, none, some, List, [], ◌∷◌, arith, if◌then◌else◌,
}
use nest_disk.Net.Event.{Event, eventset, eventadd}
use nest_disk.Net.Loop.{Net, start, epollin}
use nest_disk.Kernel.{Table, empty_table, set_net_pack_map}
use nest_disk.Packet.{def_pack_count}

-- MAX_EVENTS, and the sizes of the thread pool.
abbrev pub max_events : ℕ
max_events = 4096

-- The calls of start-up, in the order of the code.
pub data Call : Type 0 where
  seeded mysql_inited lock_made disconnected socket_made : Call
  charset_set : Text → Call
  connected : Text → Text → Text → Text → Call
  pool_created : ℕ → ℕ → ℕ → Call
  reuse_set non_block_set : ℤ → Call
  bound : ℤ → ℤ → Call
  listened : ℤ → ℕ → Call
  closed : ℤ → Call
  epoll_made : ℕ → Call

-- Whether MySQL can be connected, whether the threads of the pool can be started, and what the calls
-- for the listening socket return.
pub record Os : Type 0 where
  pub mysql_connects : Bool
  pub threads_start : Bool
  pub socket : ℤ
  pub setsockopt : ℤ
  pub bind : ℤ
  pub listen : ℤ
  pub epoll_create : ℤ

-- The kernel's members, with the calls that were made, newest first; a null pointer is `none`.
pub record TcpKernel : Type 0 where
  pub calls : List Call
  pub m_tcp : Option Net
  pub listen_ev : Option Event
  pub m_net_pack_map : Table

abbrev pub log : Call → TcpKernel → TcpKernel
log c k = record k { calls = c ∷ k.calls }

-- A function that returns, or ends the process.
pub data Booted : Type 0 where
  exits : ℤ → TcpKernel → Booted
  returns : Bool → TcpKernel → Booted

abbrev pub and_then : Booted → (TcpKernel → Booted) → Booted
and_then (exits e k) f = exits e k
and_then (returns b k) f = f k

-- `InitThreadPool`.
pub init_thread_pool : Os → TcpKernel → Booted
init_thread_pool os k =
    let k1 = log (pool_created 200 10 50000) k in
    if os.threads_start then returns true k1 else exits (negsuc 0) k1

-- epoll and the event of the listening socket.
pub watch_listener : Os → TcpKernel → Booted
watch_listener os k = returns true (record k {
  calls = epoll_made max_events ∷ k.calls;
  m_tcp = some (start os.socket os.epoll_create);
  listen_ev = some (eventadd (eventset os.socket os.epoll_create) epollin);
})

pub listen_on : Os → TcpKernel → Booted
listen_on os k =
    let k1 = log (listened os.socket 128) k in
    if eq_ℤ os.listen (negsuc 0)
    then returns false (log (closed os.socket) k1)
    else watch_listener os k1

pub bind_to : Os → ℤ → TcpKernel → Booted
bind_to os port k =
    let k1 = log (bound os.socket port) k in
    if eq_ℤ os.bind (negsuc 0) then returns false (log (closed os.socket) k1) else listen_on os k1

-- The socket stays open when `setsockopt` fails.
pub make_socket : Os → ℤ → TcpKernel → Booted
make_socket os port k =
    let k1 = log socket_made k in
    if eq_ℤ os.socket (negsuc 0)
    then returns false k1
    else if eq_ℤ os.setsockopt (negsuc 0)
    then returns false (log (reuse_set os.socket) k1)
    else bind_to os port (log (non_block_set os.socket) (log (reuse_set os.socket) k1))

pub init_net : Os → ℤ → TcpKernel → Booted
init_net os port k = and_then (init_thread_pool os k) (make_socket os port)

-- `err_str` behind a failed `InitNet`, and the table behind one that succeeded.
pub finish_open : Booted → Booted
finish_open (exits e k) = exits e k
finish_open (returns true k) = returns true (record k { m_net_pack_map = set_net_pack_map })
finish_open (returns false k) = exits (negsuc 0) k

-- `initRand`.
pub init_rand : TcpKernel → TcpKernel
init_rand k = log seeded k

-- `CMysql::ConnectMysql`: the lock of the connection is made behind a connection only.
pub connect_mysql : Os → Text → Text → Text → Text → TcpKernel → Bool × TcpKernel
connect_mysql os server user password database k =
    let k1 = record k {
      calls =
          connected server user password database
          ∷ charset_set (codes "utf8")
          ∷ mysql_inited
          ∷ k.calls;
    } in
    if not os.mysql_connects then (false, k1) else (true, log lock_made k1)

-- `_DEF_DB_IP`, `_DEF_DB_USER`, `_DEF_DB_PWD` and `_DEF_DB_NAME`.
abbrev pub db_ip : Text
db_ip = codes "localhost"

abbrev pub db_user : Text
db_user = codes "root"

abbrev pub db_pwd : Text
db_pwd = codes "026207"

abbrev pub db_name : Text
db_name = codes "NetDisk"

pub kernel_open : Os → ℤ → TcpKernel → Booted
unfolding init_rand connect_mysql
kernel_open os port k =
    let (connects, k1) = connect_mysql os db_ip db_user db_pwd db_name (init_rand k) in
    if connects then finish_open (init_net os port k1) else returns false k1

-- `Close` and `CMysql::DisConnect`. `main` calls `Close` behind the event loop, which does not end.
pub dis_connect : TcpKernel → TcpKernel
dis_connect k = log disconnected k

pub kernel_close : TcpKernel → TcpKernel
unfolding dis_connect
kernel_close k = dis_connect k

-- How the program goes on: it ends, it enters the event loop, or it calls that of a null pointer.
pub data Run : Type 0 where
  ends : ℤ → Run
  loops : Net → Table → Run
  null_net : Run

abbrev pub enter : TcpKernel → Option Net → Run
enter k none = null_net
enter k (some net) = loops net k.m_net_pack_map

-- `main` does not look at the result of `Open`.
pub event_loop : Booted → Run
event_loop (exits e k) = ends e
event_loop (returns b k) = enter k k.m_tcp

-- The static instance, all members zero.
pub get_instance : TcpKernel
unfolding empty_table
get_instance = record {
  calls = [];
  m_tcp = none;
  listen_ev = none;
  m_net_pack_map = empty_table def_pack_count;
}

pub main : Os → ℤ → Run
main os port = event_loop (kernel_open os port get_instance)
