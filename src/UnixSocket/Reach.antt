-- ===== src/UnixSocket/Reach.antt =====
-- The states of the socket table that the operations can reach.
use blackmount.Common.{ℕ, ◌^◌, ◌<◌, List, length}
use blackmount.Common.Int.{ℤ}
use blackmount.UnixSocket.{
  Net, at, put, unix_sock_init, unix_sock_create, unix_sock_destroy, unix_sock_bind,
  unix_sock_listen,
}
use blackmount.UnixSocket.Connect.{wait_on, unix_sock_accept, unix_sock_connect}
use blackmount.UnixSocket.RingBuffer.{rb_read}
use blackmount.UnixSocket.Transfer.{deliver, unix_sock_sendto}
use blackmount.UnixSocket.IsValid.{IsValid, unix_sock_init-IsValid, wait_on-IsValid}
use blackmount.UnixSocket.Keeps.{
  deliver-IsValid, drain-IsValid, unix_sock_create-IsValid, unix_sock_destroy-IsValid,
}
use blackmount.UnixSocket.Calls.{
  after, unix_sock_bind-IsValid, unix_sock_listen-IsValid, unix_sock_accept-IsValid,
  unix_sock_connect-IsValid, unix_sock_sendto-IsValid,
}

-- What one call, or one round of a write or a read, makes of the table. A process may change and
-- make its call between any two of them.
pub data Step : Net → Net → Type 0 where
  switches : (net : Net) (pid : ℤ) → Step net (record net { current_pid = pid })
  creates : (net : Net) (kind : ℕ) → Step net (unix_sock_create net kind).1
  destroys : (net : Net) (id : ℤ) → Step net (unix_sock_destroy net id)
  binds : (net : Net) (id : ℤ) (path : List ℕ) → Step net (unix_sock_bind net id path).1
  listens : (net : Net) (id : ℤ) → Step net (unix_sock_listen net id).1
  accepts : (net : Net) (id : ℤ) → Step net (after (unix_sock_accept net id))
  connects : (net : Net) (id : ℤ) (path : List ℕ) → Step net (after (unix_sock_connect net id path))
  sends :
      (net : Net) (id : ℤ) (buf dest_path : List ℕ)
      → length buf < 2 ^ 31
      → Step net (unix_sock_sendto net id buf dest_path).1
  delivers :
      (net : Net) (j : ℕ) (bytes : List ℕ) → length bytes < 2 ^ 31 → Step net (deliver net j bytes)
  drains :
      (net : Net) (i count : ℕ)
      → Step net (put net i (record (at net i) { rx = (rb_read (at net i).rx count).1 }))
  waits_for : (net : Net) (i : ℕ) → Step net (wait_on net i)

-- Any number of steps after `unix_sock_init`.
pub data Reachable : Net → Type 0 where
  starts : (net : Net) → Reachable (unix_sock_init net)
  then_step : (net net' : Net) → Reachable net → Step net net' → Reachable net'

Step-IsValid : (net net' : Net) → Step net net' → IsValid net → IsValid net'
Step-IsValid _ _ (switches net pid) v = record { slots = v.slots; sockets = v.sockets }
Step-IsValid _ _ (creates net kind) v = unix_sock_create-IsValid net kind v
Step-IsValid _ _ (destroys net id) v = unix_sock_destroy-IsValid net id v
Step-IsValid _ _ (binds net id path) v = unix_sock_bind-IsValid net id path v
Step-IsValid _ _ (listens net id) v = unix_sock_listen-IsValid net id v
Step-IsValid _ _ (accepts net id) v = unix_sock_accept-IsValid net id v
Step-IsValid _ _ (connects net id path) v = unix_sock_connect-IsValid net id path v
Step-IsValid _ _ (sends net id buf dest_path short) v =
    unix_sock_sendto-IsValid net id buf dest_path v short
Step-IsValid _ _ (delivers net j bytes short) v = deliver-IsValid net j bytes v short
Step-IsValid _ _ (drains net i count) v = drain-IsValid net i count v
Step-IsValid _ _ (waits_for net i) v = wait_on-IsValid net v i

-- In every reachable state the table has its 64 slots, every receive buffer is a queue of at most
-- 8192 bytes whose tail is where its head and its count say, and every backlog is a ring of at most
-- eight entries in the same way.
pub Reachable-IsValid : (net : Net) → Reachable net → IsValid net
Reachable-IsValid _ (starts net) = unix_sock_init-IsValid net
Reachable-IsValid _ (then_step net net' r s) = Step-IsValid net net' s (Reachable-IsValid net r)
