-- ===== src/Net.antt =====
-- The loopback device, the interfaces and the connections of net.c.
pub mod Loopback
pub mod Tables
use hexa_os_alpha_build.Base.{
  ℕ, zero, suc, ◌+◌, ◌%◌, Bool, true, false, List, [], ◌∷◌, Option, none, some, ltb, leb, ◌==◌,
  update, if◌then◌else◌, is_neg,
}
use hexa_os_alpha_build.Base.Lists.{length, take}
use hexa_os_alpha_build.Process.{Kernel}
use hexa_os_alpha_build.Ring.Overwrite.{Bytes, put_all}

abbrev pub net_max_interfaces : ℕ
net_max_interfaces = 4

abbrev pub net_max_connections : ℕ
net_max_connections = 16

pub record Interface : Type 0 where
  pub name : List ℕ
  pub ip : ℕ
  pub mask : ℕ
  pub flags : ℕ
  pub mtu : ℕ

-- NET_ESTABLISHED, NET_CLOSED and NET_LISTEN, and the 0 of a slot that was never used.
pub data ConnectionState : Type 0 where
  unset established closed listen : ConnectionState

pub record Connection : Type 0 where
  pub local_ip : ℕ
  pub local_port : ℕ
  pub remote_ip : ℕ
  pub remote_port : ℕ
  pub proto : ℕ
  pub state : ConnectionState
  pub owner_pid : ℕ
  pub snap_id : ℕ

pub record Net : Type 0 where
  pub interfaces : ℕ → Interface
  pub if_count : ℕ
  pub connections : ℕ → Connection
  pub conn_count : ℕ
  pub loopback : Bytes
  pub history_count : ℕ

-- A table after its `memset`.
abbrev no_interface : Interface
no_interface = record { name = []; ip = 0; mask = 0; flags = 0; mtu = 0 }

abbrev no_connection : Connection
no_connection = record {
  local_ip = 0;
  local_port = 0;
  remote_ip = 0;
  remote_port = 0;
  proto = 0;
  state = unset;
  owner_pid = 0;
  snap_id = 0;
}

-- `net_init`; the bytes of the loopback ring stay what they are. "lo", 127.0.0.1/8, up and loopback.
pub net_init : Net → Net
net_init n = record {
  interfaces =
      update (λ _. no_interface) 0
        (record {
          name = 108 ∷ 111 ∷ [];
          ip = 0x7F000001;
          mask = 0xFF000000;
          flags = 3;
          mtu = 1500;
        });
  if_count = 1;
  connections = λ _. no_connection;
  conn_count = 0;
  loopback = record n.loopback { head = 0; tail = 0 };
  history_count = 0;
}

-- `net_interface_add`: the index, or `none` for -1.
pub net_interface_add : Net → List ℕ → ℕ → ℕ → ℕ → Option ℕ × Net
net_interface_add n name ip mask mtu = if leb net_max_interfaces n.if_count then (none, n) else (
  some n.if_count,
  record n {
    interfaces =
        update n.interfaces n.if_count
          (record { name = take 15 name; ip = ip; mask = mask; flags = 1; mtu = mtu });
    if_count = n.if_count + 1;
  },
)

-- The current task's process identifier, or 0 where there is none.
abbrev pub owner_of : Kernel → ℕ
owner_of k = if is_neg k.current_task then 0 else (k.tasks k.current_task).pid

-- `net_connection_open`: the index, or `none` for -1.
pub net_connection_open : Net → Kernel → ℕ → ℕ → ℕ → ℕ → ℕ → Option ℕ × Net
net_connection_open n k local_ip local_port remote_ip remote_port proto =
    if leb net_max_connections n.conn_count then (none, n) else (
      some n.conn_count,
      record n {
        connections = update n.connections n.conn_count (record {
          local_ip = local_ip;
          local_port = local_port;
          remote_ip = remote_ip;
          remote_port = remote_port;
          proto = proto;
          state = established;
          owner_pid = owner_of k;
          snap_id = 0;
        });
        conn_count = n.conn_count + 1;
        history_count = (n.history_count + 1) % 4294967296;
      },
    )

-- `net_connection_close`: whether it returns 0 and not -1. A `conn_id` below 0 is, as a 32-bit number,
-- at least 2^31.
pub net_connection_close : Net → ℕ → Bool × Net
net_connection_close n conn_id =
    if is_neg conn_id
    then (false, n)
    else (if leb n.conn_count conn_id then (false, n) else (
      true,
      record n {
        connections =
            update n.connections conn_id (record (n.connections conn_id) { state = closed });
      },
    ))

-- `net_loopback_send`, of the bytes of `data`: the number of bytes, or `none` for -1.
pub net_loopback_send : Net → List ℕ → Option ℕ × Net
net_loopback_send n bytes =
    if ltb 4096 (length bytes)
    then (none, n)
    else (some (length bytes), record n { loopback = put_all 4096 n.loopback bytes })

-- The loop of `net_loopback_recv`, with room for `k` bytes more.
pub recv_loop : ℕ → Bytes → List ℕ × Bytes
recv_loop zero r = ([], r)
recv_loop (suc k) r =
    let (bs, q) = recv_loop k (record r { tail = (r.tail + 1) % 4096 }) in
    if r.tail == r.head then ([], r) else (r.buf r.tail ∷ bs, q)

pub net_loopback_recv : Net → ℕ → List ℕ × Net
net_loopback_recv n maxlen =
    let (bs, r) = recv_loop (if is_neg maxlen then 0 else maxlen) n.loopback in
    (bs, record n { loopback = r })
