-- ===== src/UnixSocket/IsValid.antt =====
-- The invariant of the socket table, and that the building blocks of the operations keep it.
use blackmount.Common.{
  ℕ, ◌+◌, ◌%◌, ◌≤◌, ◌<◌, ◌≡◌, refl, ◌∙◌, length, length-set, length-replicate, All, All-get_or,
  All-set, All-replicate, inl, inr, Bool-cases, Option-cases, arith,
}
use blackmount.Common.Int.{ℤ, minus_one, is_negative}
use blackmount.UnixSocket.Fifo
use blackmount.UnixSocket.Fifo.{rb_write_lem, rb_read_lem, empty_ring-IsValid}
use blackmount.UnixSocket.{
  Net, Socket, ProcCall, us_closed, max_unix_sockets, unix_backlog_max, cleared, unix_sock_init, at,
  put, call, unblock_pid, unix_sock_get, wake_reader, close_peer, leave_peer, drop_pending,
}
use blackmount.UnixSocket.Connect.{wait_on}

-- The receive buffer is a queue, and the backlog is a ring of at most eight entries.
pub record IsSocket (s : Socket) : Type 0 where
  pub buffer : Fifo.IsValid s.rx
  pub eight : length s.backlog ≡ unix_backlog_max
  pub head_in : s.backlog_head < unix_backlog_max
  pub count_in : s.backlog_count ≤ unix_backlog_max
  pub tail_at : s.backlog_tail ≡ (s.backlog_head + s.backlog_count) % unix_backlog_max

pub record IsValid (net : Net) : Type 0 where
  pub slots : length net.sock_table ≡ max_unix_sockets
  pub sockets : All IsSocket net.sock_table

pub cleared-IsSocket : IsSocket cleared
cleared-IsSocket = record {
  buffer = empty_ring-IsValid;
  eight = refl;
  head_in = omega arith;
  count_in = omega arith;
  tail_at = omega arith;
}

pub unix_sock_init-IsValid : (net : Net) → IsValid (unix_sock_init net)
unfolding unix_sock_init
unix_sock_init-IsValid net = record {
  slots = length-replicate {A = Socket} max_unix_sockets cleared;
  sockets = All-replicate IsSocket max_unix_sockets cleared cleared-IsSocket;
}

module _ (net : Net) (v : IsValid net) where
  pub at-IsSocket : (i : ℕ) → IsSocket (at net i)
  at-IsSocket i = All-get_or IsSocket net.sock_table i cleared v.sockets cleared-IsSocket

  pub put-IsValid : (i : ℕ) (s : Socket) → IsSocket s → IsValid (put net i s)
  put-IsValid i s h = record {
    slots = length-set net.sock_table i s ∙ v.slots;
    sockets = All-set IsSocket net.sock_table i s v.sockets h;
  }

  -- A change of other fields than the buffer and the backlog.
  pub touch-IsValid :
      (i : ℕ) (s : Socket)
      → s.rx ≡ (at net i).rx
      → s.backlog ≡ (at net i).backlog
      → s.backlog_head ≡ (at net i).backlog_head
      → s.backlog_tail ≡ (at net i).backlog_tail
      → s.backlog_count ≡ (at net i).backlog_count
      → IsValid (put net i s)
  touch-IsValid i s rx b h t c =
      let o = at-IsSocket i in
      put-IsValid i s (record {
        buffer = rw rx o.buffer;
        eight = rw b o.eight;
        head_in = rw h o.head_in;
        count_in = rw c o.count_in;
        tail_at = rw (t, h, c) o.tail_at;
      })

  pub unblock_pid-IsValid : (pid : ℤ) → IsValid (unblock_pid pid net)
  unblock_pid-IsValid pid = ground arith

  pub call-IsValid : (c : ProcCall) → IsValid (call c net)
  call-IsValid c = record { slots = v.slots; sockets = v.sockets }

  pub wait_on-IsValid : (i : ℕ) → IsValid (wait_on net i)
  unfolding wait_on
  wait_on-IsValid i =
      let o = at-IsSocket i in
      let w : IsValid (put net i (record (at net i) { blocked_reader_pid = net.current_pid })) =
        touch-IsValid i (record (at net i) { blocked_reader_pid = net.current_pid }) refl refl refl
          refl refl in
      record { slots = w.slots; sockets = w.sockets }

  pub wake_reader-IsValid : (i : ℕ) → IsValid (wake_reader net i)
  unfolding wake_reader
  wake_reader-IsValid i = elim (Bool-cases (is_negative (at net i).blocked_reader_pid)) [
    | inl idle ↦ rw idle v
    | inr waits ↦
        let w : IsValid (put net i (record (at net i) { blocked_reader_pid = minus_one })) =
          touch-IsValid i (record (at net i) { blocked_reader_pid = minus_one }) refl refl refl refl
            refl in
        rw waits (record { slots = w.slots; sockets = w.sockets })
  ]

pub close_peer-IsValid : (net : Net) (v : IsValid net) (j : ℕ) → IsValid (close_peer net j)
unfolding close_peer
close_peer-IsValid net v j =
    wake_reader-IsValid (put net j (record (at net j) { state = us_closed; peer_id = minus_one }))
      (touch-IsValid net v j (record (at net j) { state = us_closed; peer_id = minus_one }) refl
        refl refl refl refl)
      j

pub leave_peer-IsValid : (net : Net) (v : IsValid net) (i : ℕ) → IsValid (leave_peer net i)
unfolding leave_peer
leave_peer-IsValid net v i = elim (Bool-cases (is_negative (at net i).peer_id)) [
  | inl alone ↦ rw alone v
  | inr joined ↦ elim (Option-cases (unix_sock_get net (at net i).peer_id)) [
    | inl gone ↦
        rw (joined, gone)
          (touch-IsValid net v i (record (at net i) { peer_id = minus_one }) refl refl refl refl
            refl)
    | inr (j, here) ↦
        let told = close_peer-IsValid net v j in
        rw (joined, here)
          (touch-IsValid (close_peer net j) told i
            (record (at (close_peer net j) i) { peer_id = minus_one }) refl refl refl refl refl)
  ]
]

-- The oldest entry leaves the backlog.
pub drop_pending-IsSocket :
    (s : Socket) → IsSocket s → 0 < s.backlog_count → IsSocket (drop_pending s)
drop_pending-IsSocket s o some_wait = record {
  buffer = o.buffer;
  eight = o.eight;
  head_in = omega arith;
  count_in = omega (arith, o.count_in);
  tail_at = omega (arith, o.tail_at, o.count_in, o.head_in);
}
