-- ===== src/UnixSocket/Connect.antt =====
-- `unix_sock_accept` and `unix_sock_connect`.
use blackmount.Common.{
  ℕ, ◌+◌, ◌-◌, ◌%◌, true, false, none, some, set, take, leb, ◌==◌, ◌&&◌, not, if◌then◌else◌, List,
}
use blackmount.Common.Int.{ℤ, pos, minus_one}
use blackmount.UnixSocket.{
  Net, Socket, us_connected, is_created, is_bound, is_listening, is_connected, unix_backlog_max,
  unix_path_max, sock_stream, cleared, at, put, call, block, unblock_pid, unix_sock_get,
  find_unused, find_listener, wake_reader, first_pending, drop_pending,
}

-- A call returns, or it waits in `proc_yield`.
pub data Reply : Type 0 where
  done : ℤ → Net → Reply
  waits : Net → Reply

-- `s->blocked_reader_pid = proc_get_current_pid(); proc_block(proc_get_current_pid());`
unfoldable pub wait_on : Net → ℕ → Net
wait_on net i =
    call (block net.current_pid)
      (put net i (record (at net i) { blocked_reader_pid = net.current_pid }))

-- The server's end of a new connection.
abbrev pub accepted_socket : Net → ℕ → ℤ → Socket
accepted_socket net i client_id = record cleared {
  in_use = true;
  state = us_connected;
  kind = (at net i).kind;
  peer_id = client_id;
  owner_pid = net.current_pid;
  path = take (unix_path_max - 1) (at net i).path;
}

-- `if (client) { client->state = US_CONNECTED; client->peer_id = new_id; }`
unfoldable pub join_client : Net → ℤ → ℕ → Net
join_client net client_id new_id = elim (unix_sock_get net client_id) [
  | none ↦ net
  | some c ↦ put net c (record (at net c) { state = us_connected; peer_id = pos new_id })
]

-- The server at `i` takes the oldest waiting client.
unfoldable pub accept_at : Net → ℕ → ℤ × Net
accept_at net i =
    let e = first_pending (at net i) in
    let popped = put net i (drop_pending (at net i)) in
    elim (find_unused popped) [
      | none ↦ (minus_one, unblock_pid e.client_pid popped)
      | some n ↦ (
        pos n,
        unblock_pid e.client_pid (
            join_client (put popped n (accepted_socket popped i e.client_sock_id)) e.client_sock_id
              n),
      )
    ]

-- Entered anew after each wait, since the checks are then the same.
unfoldable pub unix_sock_accept : Net → ℤ → Reply
unix_sock_accept net id = elim (unix_sock_get net id) [
  | none ↦ done minus_one net
  | some i ↦
      if not (is_listening (at net i).state)
      then done minus_one net
      else if (at net i).backlog_count == 0
      then waits (wait_on net i)
      else done (accept_at net i).0 (accept_at net i).1
]

unfoldable pub enqueue : Net → ℕ → ℤ → Net
enqueue net j id =
    let s = at net j in
    put net j (record s {
      backlog = set s.backlog s.backlog_tail (record {
        client_sock_id = id;
        client_pid = net.current_pid;
        accepted = false;
        peer_sock_id = minus_one;
      });
      backlog_tail = (s.backlog_tail + 1) % unix_backlog_max;
      backlog_count = s.backlog_count + 1;
    })

unfoldable pub connect_at : Net → ℤ → ℕ → List ℕ → Reply
connect_at net id i path =
    if not (is_created (at net i).state) && not (is_bound (at net i).state)
    then done minus_one net
    else if not ((at net i).kind == sock_stream)
    then done minus_one net
    else elim (find_listener net path) [
      | none ↦ done minus_one net
      | some j ↦
          if leb unix_backlog_max (at net j).backlog_count
          then done minus_one net
          else waits (call (block net.current_pid) (wake_reader (enqueue net j id) j))
    ]

-- `unix_sock_connect` up to its wait.
unfoldable pub unix_sock_connect : Net → ℤ → List ℕ → Reply
unix_sock_connect net id path = elim (unix_sock_get net id) [
  | none ↦ done minus_one net
  | some i ↦ connect_at net id i path
]

-- What it returns after the wait.
unfoldable pub connect_result : Net → ℤ → ℤ
connect_result net id = elim (unix_sock_get net id) [
  | none ↦ minus_one
  | some i ↦ if is_connected (at net i).state then pos 0 else minus_one
]
