-- ===== src/UnixSocket/Keeps.antt =====
-- The operations and the invariant of the socket table.
use blackmount.Common.{
  ℕ, zero, suc, ◌-◌, ◌^◌, ◌≤◌, ◌<◌, ◌≡◌, refl, sym, ap, ◌∙◌, true, false, List, some, length,
  length-set, get_or-set_self, leb, ◌==◌, ◌&&◌, not, inl, inr, Bool-cases, Option-cases, arith,
}
use blackmount.Common.Int.{ℤ, pos, negsuc, is_negative}
use blackmount.UnixSocket.RingBuffer.{Ring, rb_write, rb_read}
use blackmount.UnixSocket.Fifo
use blackmount.UnixSocket.Fifo.{rb_write_lem, rb_read_lem}
use blackmount.UnixSocket.{
  Net, Socket, Pending, us_created, us_connected, us_closed, max_unix_sockets, unix_backlog_max,
  cleared, sock_stream, sock_dgram, at, put, unblock_pid, unix_sock_get, find_unused, wake_reader,
  first_pending, drop_pending, drain_backlog, destroy_at, unix_sock_create, unix_sock_destroy,
  leave_peer,
}
use blackmount.UnixSocket.Connect.{accepted_socket, join_client, accept_at, enqueue}
use blackmount.UnixSocket.Transfer.{deliver}
use blackmount.UnixSocket.IsValid.{
  IsValid, cleared-IsSocket, at-IsSocket, put-IsValid, touch-IsValid, unblock_pid-IsValid,
  wake_reader-IsValid, leave_peer-IsValid, drop_pending-IsSocket,
}

-- What a looked-up socket is.
pub unix_sock_get-some :
    (net : Net) (id : ℤ) (i : ℕ)
    → unix_sock_get net id ≡ some i
    → (id ≡ pos i) × (i < max_unix_sockets) × ((at net i).in_use ≡ true)
unfolding unix_sock_get
unix_sock_get-some net (negsuc n) i e = absurd (ground (arith, e))
unix_sock_get-some net (pos k) i e = elim (Bool-cases (leb max_unix_sockets k)) [
  | inl far ↦ absurd (ground (arith, far, e))
  | inr near ↦ elim (Bool-cases (at net k).in_use) [
    | inl used ↦
        let same : k ≡ i = ground (arith, near, used, e) in
        (ap pos same, ground (arith, near), rw (sym same) used)
    | inr unused ↦ absurd (ground (arith, near, unused, e))
  ]
]

pub at-put :
    (net : Net) (i : ℕ) (s : Socket) → IsValid net → i < max_unix_sockets → at (put net i s) i ≡ s
at-put net i s v near = get_or-set_self net.sock_table i s cleared (omega (arith, v.slots))

pub at-unblock_pid : (pid : ℤ) (net : Net) (i : ℕ) → at (unblock_pid pid net) i ≡ at net i
at-unblock_pid pid net i = elim (Bool-cases (is_negative pid)) [
  | inl n ↦ rw n refl
  | inr p ↦ rw p refl
]

pub drain_backlog-IsValid :
    (n : ℕ) (net : Net) (i : ℕ)
    → IsValid net
    → i < max_unix_sockets
    → n ≤ (at net i).backlog_count
    → IsValid (drain_backlog n net i)
unfolding drain_backlog
drain_backlog-IsValid zero net i v near le = v
drain_backlog-IsValid (suc n) net i v near le =
    let popped : Net = put net i (drop_pending (at net i)) in
    let w : IsValid popped =
      put-IsValid net v i (drop_pending (at net i))
        (drop_pending-IsSocket (at net i) (at-IsSocket net v i) (omega arith)) in
    let here : (at (unblock_pid (first_pending (at net i)).client_pid popped) i).backlog_count
        ≡ (at net i).backlog_count - 1 =
      ap (λ (s : Socket). s.backlog_count)
        (at-unblock_pid (first_pending (at net i)).client_pid popped i
          ∙ at-put net i (drop_pending (at net i)) v near) in
    drain_backlog-IsValid n (unblock_pid (first_pending (at net i)).client_pid popped) i
      (unblock_pid-IsValid popped w (first_pending (at net i)).client_pid) near
      (omega (arith, here))

pub destroy_at-IsValid :
    (net : Net) (i : ℕ) → IsValid net → i < max_unix_sockets → IsValid (destroy_at net i)
unfolding destroy_at
destroy_at-IsValid net i v near =
    let woken = wake_reader-IsValid net v i in
    let left = leave_peer-IsValid (wake_reader net i) woken i in
    let l : Net = leave_peer (wake_reader net i) i in
    let drained = drain_backlog-IsValid (at l i).backlog_count l i left near (omega arith) in
    let d : Net = drain_backlog (at l i).backlog_count l i in
    touch-IsValid d drained i (record (at d i) { state = us_closed; in_use = false }) refl refl refl
      refl refl

pub unix_sock_destroy-IsValid :
    (net : Net) (id : ℤ) → IsValid net → IsValid (unix_sock_destroy net id)
unfolding unix_sock_destroy
unix_sock_destroy-IsValid net id v = elim (Option-cases (unix_sock_get net id)) [
  | inl gone ↦ rw (gone, unix_sock_destroy) v
  | inr (i, here) ↦
      rw (here, unix_sock_destroy) (destroy_at-IsValid net i v (unix_sock_get-some net id i here).1)
]

pub unix_sock_create-IsValid :
    (net : Net) (kind : ℕ) → IsValid net → IsValid (unix_sock_create net kind).1
unfolding unix_sock_create
unix_sock_create-IsValid net kind v =
    elim (Bool-cases (not (kind == sock_stream) && not (kind == sock_dgram))) [
      | inl other ↦ rw other v
      | inr known ↦ elim (Option-cases (find_unused net)) [
        | inl full ↦ rw (known, full) v
        | inr (i, free) ↦
            let c = cleared-IsSocket in
            rw (known, free)
              (put-IsValid net v i
                (record cleared {
                  in_use = true;
                  state = us_created;
                  kind = kind;
                  owner_pid = net.current_pid;
                })
                (record {
                  buffer = c.buffer;
                  eight = c.eight;
                  head_in = c.head_in;
                  count_in = c.count_in;
                  tail_at = c.tail_at;
                }))
      ]
    ]

-- A change of the receive buffer.
pub fill-IsValid :
    (net : Net) (v : IsValid net) (i : ℕ) (r : Ring)
    → Fifo.IsValid r
    → IsValid (put net i (record (at net i) { rx = r }))
fill-IsValid net v i r h =
    let o = at-IsSocket net v i in
    put-IsValid net v i (record (at net i) { rx = r })
      (record {
        buffer = h;
        eight = o.eight;
        head_in = o.head_in;
        count_in = o.count_in;
        tail_at = o.tail_at;
      })

pub deliver-IsValid :
    (net : Net) (j : ℕ) (bytes : List ℕ)
    → IsValid net
    → length bytes < 2 ^ 31
    → IsValid (deliver net j bytes)
unfolding deliver
deliver-IsValid net j bytes v short =
    let (ok, same, count, r) =
      rb_write_lem (at net j).rx bytes (at-IsSocket net v j).buffer short in
    wake_reader-IsValid (put net j (record (at net j) { rx = (rb_write (at net j).rx bytes).1 }))
      (fill-IsValid net v j (rb_write (at net j).rx bytes).1 r) j

pub drain-IsValid :
    (net : Net) (i count : ℕ)
    → IsValid net
    → IsValid (put net i (record (at net i) { rx = (rb_read (at net i).rx count).1 }))
drain-IsValid net i count v =
    fill-IsValid net v i (rb_read (at net i).rx count).1
      (rb_read_lem (at net i).rx count (at-IsSocket net v i).buffer).3

pub join_client-IsValid : (net : Net) (c : ℤ) (n : ℕ) → IsValid net → IsValid (join_client net c n)
unfolding join_client
join_client-IsValid net c n v = elim (Option-cases (unix_sock_get net c)) [
  | inl gone ↦ rw (gone, join_client) v
  | inr (i, here) ↦
      rw (here, join_client)
        (touch-IsValid net v i (record (at net i) { state = us_connected; peer_id = pos n }) refl
          refl refl refl refl)
]

-- The server's end of a connection takes its slot.
pub accepted_socket-IsValid :
    (net : Net) (v : IsValid net) (n i : ℕ) (client_id : ℤ)
    → IsValid (put net n (accepted_socket net i client_id))
accepted_socket-IsValid net v n i client_id =
    let c = cleared-IsSocket in
    put-IsValid net v n (accepted_socket net i client_id) (record {
      buffer = c.buffer;
      eight = c.eight;
      head_in = c.head_in;
      count_in = c.count_in;
      tail_at = c.tail_at;
    })

pub accept_at-IsValid :
    (net : Net) (i : ℕ) → IsValid net → 0 < (at net i).backlog_count → IsValid (accept_at net i).1
unfolding accept_at
accept_at-IsValid net i v waiting =
    let e : Pending = first_pending (at net i) in
    let popped : Net = put net i (drop_pending (at net i)) in
    let w =
      put-IsValid net v i (drop_pending (at net i))
        (drop_pending-IsSocket (at net i) (at-IsSocket net v i) waiting) in
    elim (Option-cases (find_unused popped)) [
      | inl full ↦ rw (full, accept_at) (unblock_pid-IsValid popped w e.client_pid)
      | inr (n, free) ↦
          let s : Socket = accepted_socket popped i e.client_sock_id in
          let p = accepted_socket-IsValid popped w n i e.client_sock_id in
          rw (free, accept_at)
            (unblock_pid-IsValid (join_client (put popped n s) e.client_sock_id n)
              (join_client-IsValid (put popped n s) e.client_sock_id n p) e.client_pid)
    ]

-- A waiting client joins the backlog.
pub enqueue-IsValid :
    (net : Net) (j : ℕ) (id : ℤ)
    → IsValid net
    → (at net j).backlog_count < unix_backlog_max
    → IsValid (enqueue net j id)
unfolding enqueue
enqueue-IsValid net j id v room =
    let o = at-IsSocket net v j in
    put-IsValid net v j _ (record {
      buffer = o.buffer;
      eight = length-set (at net j).backlog (at net j).backlog_tail _ ∙ o.eight;
      head_in = o.head_in;
      count_in = omega arith;
      tail_at = omega (arith, o.tail_at, o.head_in);
    })
