-- ===== src/UnixSocket.antt =====
-- src/kernel/net/unix_socket.c: the table of local sockets. A pointer into the table is its index.
-- The calls into the process table are recorded, newest first; a function that waits ends at
-- `proc_yield`, and is entered anew where the C code goes on after it.
pub mod RingBuffer
pub mod Fifo
pub mod Connect
pub mod Transfer
pub mod IsValid
pub mod Keeps
pub mod Calls
pub mod Pairing
pub mod Hangup
pub mod Used
pub mod Reach
pub mod Stream
mod Tests
use blackmount.Common.{
  ℕ, zero, suc, ◌+◌, ◌-◌, ◌%◌, Bool, true, false, List, [], ◌∷◌, Option, none, some, length, get_or,
  set, take, replicate, ltb, leb, ◌==◌, ◌&&◌, ◌||◌, not, if◌then◌else◌,
}
use blackmount.Common.Int.{ℤ, pos, negsuc, minus_one, is_negative}
use blackmount.UnixSocket.RingBuffer.{Ring, empty_ring}

abbrev pub max_unix_sockets : ℕ
max_unix_sockets = 64

abbrev pub unix_backlog_max : ℕ
unix_backlog_max = 8

abbrev pub unix_path_max : ℕ
unix_path_max = 108

abbrev pub sock_stream : ℕ
sock_stream = 1

abbrev pub sock_dgram : ℕ
sock_dgram = 2

-- `unix_sock_state_t`
pub data State : Type 0 where
  us_free us_created us_bound us_listening us_connected us_closed : State

abbrev pub is_created : State → Bool
is_created us_created = true
is_created _ = false

abbrev pub is_bound : State → Bool
is_bound us_bound = true
is_bound _ = false

abbrev pub is_listening : State → Bool
is_listening us_listening = true
is_listening _ = false

abbrev pub is_connected : State → Bool
is_connected us_connected = true
is_connected _ = false

abbrev pub is_closed : State → Bool
is_closed us_closed = true
is_closed _ = false

-- `unix_pending_t`
pub record Pending : Type 0 where
  pub client_sock_id : ℤ
  pub client_pid : ℤ
  pub accepted : Bool
  pub peer_sock_id : ℤ

-- `unix_socket_t`; `kind` is the field `type`, and a path is its characters before the null.
pub record Socket : Type 0 where
  pub in_use : Bool
  pub state : State
  pub kind : ℕ
  pub path : List ℕ
  pub peer_id : ℤ
  pub rx : Ring
  pub backlog : List Pending
  pub backlog_head : ℕ
  pub backlog_tail : ℕ
  pub backlog_count : ℕ
  pub blocked_reader_pid : ℤ
  pub owner_pid : ℤ

pub data ProcCall : Type 0 where
  block unblock : ℤ → ProcCall

pub record Net : Type 0 where
  pub sock_table : List Socket
  pub current_pid : ℤ
  pub calls : List ProcCall

-- After `memset`, but for the two fields that `unix_sock_init` and `unix_sock_create` set to -1.
abbrev pub zero_pending : Pending
zero_pending = record {
  client_sock_id = pos 0;
  client_pid = pos 0;
  accepted = false;
  peer_sock_id = pos 0;
}

abbrev pub cleared : Socket
cleared = record {
  in_use = false;
  state = us_free;
  kind = 0;
  path = [];
  peer_id = minus_one;
  rx = empty_ring;
  backlog = replicate unix_backlog_max zero_pending;
  backlog_head = 0;
  backlog_tail = 0;
  backlog_count = 0;
  blocked_reader_pid = minus_one;
  owner_pid = pos 0;
}

pub unix_sock_init : Net → Net
unix_sock_init net = record net { sock_table = replicate max_unix_sockets cleared }

abbrev pub at : Net → ℕ → Socket
at net i = get_or net.sock_table i cleared

abbrev pub put : Net → ℕ → Socket → Net
put net i s = record net { sock_table = set net.sock_table i s }

abbrev pub call : ProcCall → Net → Net
call c net = record net { calls = c ∷ net.calls }

-- `if (pid >= 0) proc_unblock(pid);`
abbrev pub unblock_pid : ℤ → Net → Net
unblock_pid pid net = if is_negative pid then net else call (unblock pid) net

pub unix_sock_get : Net → ℤ → Option ℕ
unix_sock_get net (negsuc n) = none
unix_sock_get net (pos i) =
    if leb max_unix_sockets i then none else if (at net i).in_use then some i else none

-- `strcmp(a, b) == 0`
pub path_eq : List ℕ → List ℕ → Bool
path_eq [] [] = true
path_eq [] (y ∷ ys) = false
path_eq (x ∷ xs) [] = false
path_eq (x ∷ xs) (y ∷ ys) = x == y && path_eq xs ys

-- The index of the first socket that passes a test, for sockets that stand from `i` on.
pub find_slot : (Socket → Bool) → List Socket → ℕ → Option ℕ
find_slot test [] i = none
find_slot test (s ∷ ss) i = if test s then some i else find_slot test ss (i + 1)

abbrev pub listens_at : List ℕ → Socket → Bool
listens_at path s = s.in_use && is_listening s.state && path_eq s.path path

abbrev pub bound_at : List ℕ → Socket → Bool
bound_at path s = s.in_use && (is_bound s.state || is_listening s.state) && path_eq s.path path

pub find_listener : Net → List ℕ → Option ℕ
find_listener net path = find_slot (listens_at path) net.sock_table 0

pub find_bound : Net → List ℕ → Option ℕ
find_bound net path = find_slot (bound_at path) net.sock_table 0

pub find_unused : Net → Option ℕ
find_unused net = find_slot (λ s. not s.in_use) net.sock_table 0

pub wake_reader : Net → ℕ → Net
wake_reader net i =
    let s = at net i in
    if is_negative s.blocked_reader_pid
    then net
    else call (unblock s.blocked_reader_pid)
        (put net i (record s { blocked_reader_pid = minus_one }))

pub unix_sock_create : Net → ℕ → ℤ × Net
unix_sock_create net kind =
    if not (kind == sock_stream) && not (kind == sock_dgram)
    then (minus_one, net)
    else elim (find_unused net) [
      | none ↦ (minus_one, net)
      | some i ↦ (
        pos i,
        put net i (record cleared {
          in_use = true;
          state = us_created;
          kind = kind;
          owner_pid = net.current_pid;
        }),
      )
    ]

-- The peer of a socket that is destroyed learns that the stream has ended.
pub close_peer : Net → ℕ → Net
close_peer net j =
    wake_reader (put net j (record (at net j) { state = us_closed; peer_id = minus_one })) j

pub leave_peer : Net → ℕ → Net
leave_peer net i =
    if is_negative (at net i).peer_id
    then net
    else let told : Net = elim (unix_sock_get net (at net i).peer_id) [
      | none ↦ net
      | some j ↦ close_peer net j
    ] in
      put told i (record (at told i) { peer_id = minus_one })

abbrev pub first_pending : Socket → Pending
first_pending s = get_or s.backlog s.backlog_head zero_pending

abbrev pub drop_pending : Socket → Socket
drop_pending s = record s {
  backlog_head = (s.backlog_head + 1) % unix_backlog_max;
  backlog_count = s.backlog_count - 1;
}

-- `while (s->backlog_count > 0)`, with `n` rounds left.
pub drain_backlog : ℕ → Net → ℕ → Net
drain_backlog zero net i = net
drain_backlog (suc n) net i =
    let s = at net i in
    drain_backlog n (unblock_pid (first_pending s).client_pid (put net i (drop_pending s))) i

abbrev pub retire : Net → ℕ → Net
retire net i = put net i (record (at net i) { state = us_closed; in_use = false })

pub destroy_at : Net → ℕ → Net
destroy_at net i =
    let left = leave_peer (wake_reader net i) i in
    retire (drain_backlog (at left i).backlog_count left i) i

pub unix_sock_destroy : Net → ℤ → Net
unix_sock_destroy net id = elim (unix_sock_get net id) [ none ↦ net | some i ↦ destroy_at net i ]

abbrev pub starts_empty : List ℕ → Bool
starts_empty [] = true
starts_empty (c ∷ path) = c == 0

pub bind_at : Net → ℕ → List ℕ → ℤ × Net
bind_at net i path =
    if not (is_created (at net i).state)
    then (minus_one, net)
    else if starts_empty path
    then (minus_one, net)
    else elim (find_bound net path) [
      | some j ↦ (minus_one, net)
      | none ↦ (
        pos 0,
        put net i (record (at net i) { path = take (unix_path_max - 1) path; state = us_bound }),
      )
    ]

-- A null path is the empty one.
pub unix_sock_bind : Net → ℤ → List ℕ → ℤ × Net
unix_sock_bind net id path = elim (unix_sock_get net id) [
  | none ↦ (minus_one, net)
  | some i ↦ bind_at net i path
]

pub listen_at : Net → ℕ → ℤ × Net
listen_at net i =
    if not ((at net i).kind == sock_stream)
    then (minus_one, net)
    else if not (is_bound (at net i).state)
    then (minus_one, net)
    else (pos 0, put net i (record (at net i) { state = us_listening }))

-- The `backlog` argument is ignored.
pub unix_sock_listen : Net → ℤ → ℤ × Net
unix_sock_listen net id = elim (unix_sock_get net id) [
  | none ↦ (minus_one, net)
  | some i ↦ listen_at net i
]
