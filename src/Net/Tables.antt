-- ===== src/Net/Tables.antt =====
-- The tables of interfaces and connections.
use native.Mathlib.Decide.{dec_lt}
use hexa_os_alpha_build.Base.{
  ℕ, ◌+◌, ◌<◌, ◌≤◌, ◌≡◌, refl, ◌≢◌, true, false, List, Option, none, some, arith, update_self,
  update_ne, leb, ap, sym,
}
use hexa_os_alpha_build.Base.Lists.{take}
use hexa_os_alpha_build.Process.{Kernel}
use hexa_os_alpha_build.Net.{
  owner_of, Net, established, net_interface_add, net_connection_open, net_connection_close,
}

-- How `net_interface_add` ends: with -1 where the table is full, and no change; or with the index of
-- the new entry, which holds the first 15 characters of the name, and no other entry has changed.
pub data Adds (n : Net) (name : List ℕ) (ip mask mtu : ℕ) : Option ℕ × Net → Type 0 where
  table_full : n.if_count ≡ 4 → Adds n name ip mask mtu (none, n)
  added :
      {u : Net}
      → n.if_count < 4
      → u.if_count ≡ n.if_count + 1
      → (u.interfaces n.if_count).name ≡ take 15 name
      → ((u.interfaces n.if_count).ip ≡ ip)
        × ((u.interfaces n.if_count).mask ≡ mask)
        × ((u.interfaces n.if_count).mtu ≡ mtu)
        × ((u.interfaces n.if_count).flags ≡ 1)
      → ((j : ℕ) → j ≢ n.if_count → u.interfaces j ≡ n.interfaces j)
      → Adds n name ip mask mtu (some n.if_count, u)

-- `net_interface_add` on a table of at most four entries adds one behind them, or fails where there
-- are four.
pub net_interface_add_lem :
    (n : Net) (name : List ℕ) (ip mask mtu : ℕ)
    → n.if_count ≤ 4
    → Adds n name ip mask mtu (net_interface_add n name ip mask mtu)
unfolding net_interface_add
net_interface_add_lem n name ip mask mtu h = elim (dec_lt n.if_count 4) [
  | yes lt ↦
      let open_slot : leb 4 n.if_count ≡ false = ground arith in
      let here =
        update_self n.interfaces n.if_count
          (record { name = take 15 name; ip = ip; mask = mask; flags = 1; mtu = mtu }) in
      rw open_slot (
        added lt refl (ap (λ i. i.name) here)
          (ap (λ i. i.ip) here, ap (λ i. i.mask) here, ap (λ i. i.mtu) here, ap (λ i. i.flags) here)
          (λ j ne. update_ne n.interfaces n.if_count _ j (λ e. ne (sym e))))
  | no ge ↦ let full : leb 4 n.if_count ≡ true = ground arith in rw full (table_full (omega arith))
]

-- What a sequence of opens and closes does.
pub data Step : Net → Net → Type 0 where
  opens :
      (n : Net) (k : Kernel) (lip lport rip rport proto : ℕ)
      → Step n (net_connection_open n k lip lport rip rport proto).1
  closes : (n : Net) (conn_id : ℕ) → Step n (net_connection_close n conn_id).1

pub data Reach (n : Net) : Net → Type 0 where
  start : Reach n n
  then_step : {u v : Net} → Reach n u → Step u v → Reach n v

-- How `net_connection_open` ends.
pub data Opens (n : Net) (pid : ℕ) : Option ℕ × Net → Type 0 where
  table_full : n.conn_count ≡ 16 → Opens n pid (none, n)
  opened :
      {u : Net}
      → n.conn_count < 16
      → u.conn_count ≡ n.conn_count + 1
      → ((u.connections n.conn_count).state ≡ established)
        × ((u.connections n.conn_count).owner_pid ≡ pid)
      → ((j : ℕ) → j ≢ n.conn_count → u.connections j ≡ n.connections j)
      → Opens n pid (some n.conn_count, u)

-- `net_connection_open` on a table of at most 16 entries adds an established connection of the process
-- behind them, or fails where there are 16, closed ones included.
pub net_connection_open_lem :
    (n : Net) (k : Kernel) (lip lport rip rport proto : ℕ)
    → n.conn_count ≤ 16
    → Opens n (owner_of k) (net_connection_open n k lip lport rip rport proto)
unfolding net_connection_open
net_connection_open_lem n k lip lport rip rport proto h = elim (dec_lt n.conn_count 16) [
  | yes lt ↦
      let open_slot : leb 16 n.conn_count ≡ false = ground arith in
      let here = update_self n.connections n.conn_count (record {
        local_ip = lip;
        local_port = lport;
        remote_ip = rip;
        remote_port = rport;
        proto = proto;
        state = established;
        owner_pid = owner_of k;
        snap_id = 0;
      }) in
      rw open_slot (
        opened lt refl (ap (λ c. c.state) here, ap (λ c. c.owner_pid) here)
          (λ j ne. update_ne n.connections n.conn_count _ j (λ e. ne (sym e))))
  | no ge ↦
      let full : leb 16 n.conn_count ≡ true = ground arith in rw full (table_full (omega arith))
]

close-count : (n : Net) (conn_id : ℕ) → (net_connection_close n conn_id).1.conn_count ≡ n.conn_count
unfolding net_connection_close
close-count n conn_id = ground arith

open-count :
    {n : Net} {pid : ℕ} {r : Option ℕ × Net}
    → Opens n pid r
    → (r.1.conn_count ≤ 16) × (n.conn_count ≤ r.1.conn_count)
open-count (table_full e) = omega arith
open-count (opened l e _ _) = omega arith

Step-count :
    {n u : Net} → Step n u → n.conn_count ≤ 16 → (u.conn_count ≤ 16) × (n.conn_count ≤ u.conn_count)
Step-count (opens n k lip lport rip rport proto) h =
    open-count (net_connection_open_lem n k lip lport rip rport proto h)
Step-count (closes n conn_id) h = omega (arith, close-count n conn_id)

Reach-count :
    {n u : Net}
    → Reach n u
    → n.conn_count ≤ 16
    → (u.conn_count ≤ 16) × (n.conn_count ≤ u.conn_count)
Reach-count start h = omega arith
Reach-count (then_step r s) h = let a = Reach-count r h in omega (arith, Step-count s a.0)

still_full :
    {n : Net} {pid : ℕ} {r : Option ℕ × Net} → Opens n pid r → n.conn_count ≡ 16 → r.0 ≡ none
still_full (table_full _) e = refl
still_full (opened l _ _ _) e = absurd (omega arith)

-- Once the table holds 16 connections, whatever is opened and closed afterwards, every further open
-- fails: closing a connection does not make room.
pub table_stays_full :
    {n u : Net}
    → Reach n u
    → n.conn_count ≡ 16
    → (k : Kernel) (lip lport rip rport proto : ℕ)
    → (net_connection_open u k lip lport rip rport proto).0 ≡ none
table_stays_full {n} {u} r h k lip lport rip rport proto =
    let c = Reach-count r (omega arith) in
    still_full (net_connection_open_lem u k lip lport rip rport proto c.0) (omega arith)
