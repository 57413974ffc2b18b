-- ===== src/UnixSocket/Calls.antt =====
-- The calls that bind, listen, accept, connect and send, and the invariant.
use blackmount.Common.{
  ℕ, ◌-◌, ◌^◌, ◌<◌, refl, List, length, take, ltb, leb, ◌==◌, ◌&&◌, not, inl, inr, Bool-cases,
  Option-cases, arith,
}
use blackmount.Common.Int.{ℤ}
use blackmount.UnixSocket.{
  Net, us_bound, us_listening, unix_backlog_max, sock_stream, sock_dgram, is_created, is_bound,
  is_listening, unix_path_max, at, block, unix_sock_get, find_bound, find_listener, wake_reader,
  bind_at, unix_sock_bind, listen_at, unix_sock_listen, starts_empty,
}
use blackmount.UnixSocket.Connect.{
  Reply, done, waits, unix_sock_accept, enqueue, connect_at, unix_sock_connect,
}
use blackmount.UnixSocket.Transfer.{space_of, send_at, unix_sock_sendto}
use blackmount.UnixSocket.IsValid.{
  IsValid, touch-IsValid, call-IsValid, wait_on-IsValid, wake_reader-IsValid,
}
use blackmount.UnixSocket.Keeps.{deliver-IsValid, accept_at-IsValid, enqueue-IsValid}

-- The table that a call leaves behind, whether it returns or waits.
abbrev pub after : Reply → Net
after (done r net) = net
after (waits net) = net

pub unix_sock_accept-IsValid :
    (net : Net) (id : ℤ) → IsValid net → IsValid (after (unix_sock_accept net id))
unfolding unix_sock_accept
unix_sock_accept-IsValid net id v = elim (Option-cases (unix_sock_get net id)) [
  | inl gone ↦ rw (gone, unix_sock_accept) v
  | inr (i, here) ↦ elim (Bool-cases (not (is_listening (at net i).state))) [
    | inl deaf ↦ rw (here, unix_sock_accept, deaf) v
    | inr listens ↦ elim (Bool-cases ((at net i).backlog_count == 0)) [
      | inl nobody ↦ rw (here, unix_sock_accept, listens, nobody) (wait_on-IsValid net v i)
      | inr somebody ↦
          rw (here, unix_sock_accept, listens, somebody)
            (accept_at-IsValid net i v (ground (arith, somebody)))
    ]
  ]
]

connect_at-IsValid :
    (net : Net) (id : ℤ) (i : ℕ) (path : List ℕ)
    → IsValid net
    → IsValid (after (connect_at net id i path))
unfolding connect_at
connect_at-IsValid net id i path v =
    elim (Bool-cases (not (is_created (at net i).state) && not (is_bound (at net i).state))) [
      | inl busy ↦ rw busy v
      | inr idle ↦ elim (Bool-cases (not ((at net i).kind == sock_stream))) [
        | inl other ↦ rw (idle, other) v
        | inr stream ↦ elim (Option-cases (find_listener net path)) [
          | inl nobody ↦ rw (idle, stream, nobody) v
          | inr (j, there) ↦ elim (Bool-cases (leb unix_backlog_max (at net j).backlog_count)) [
            | inl full ↦ rw (idle, stream, there, full) v
            | inr room ↦
                rw (idle, stream, there, room)
                  (call-IsValid (wake_reader (enqueue net j id) j)
                    (wake_reader-IsValid (enqueue net j id)
                      (enqueue-IsValid net j id v (ground (arith, room))) j)
                    (block net.current_pid))
          ]
        ]
      ]
    ]

pub unix_sock_connect-IsValid :
    (net : Net) (id : ℤ) (path : List ℕ)
    → IsValid net
    → IsValid (after (unix_sock_connect net id path))
unfolding unix_sock_connect
unix_sock_connect-IsValid net id path v = elim (Option-cases (unix_sock_get net id)) [
  | inl gone ↦ rw (gone, unix_sock_connect) v
  | inr (i, here) ↦ rw (here, unix_sock_connect) (connect_at-IsValid net id i path v)
]

pub unix_sock_bind-IsValid :
    (net : Net) (id : ℤ) (path : List ℕ) → IsValid net → IsValid (unix_sock_bind net id path).1
unfolding unix_sock_bind bind_at
unix_sock_bind-IsValid net id path v = elim (Option-cases (unix_sock_get net id)) [
  | inl gone ↦ rw (gone, unix_sock_bind) v
  | inr (i, here) ↦ elim (Bool-cases (not (is_created (at net i).state))) [
    | inl busy ↦ rw (here, unix_sock_bind, busy) v
    | inr fresh ↦ elim (Bool-cases (starts_empty path)) [
      | inl no_path ↦ rw (here, unix_sock_bind, fresh, no_path) v
      | inr a_path ↦ elim (Option-cases (find_bound net path)) [
        | inl free ↦
            rw (here, unix_sock_bind, fresh, a_path, free)
              (touch-IsValid net v i
                (record (at net i) { path = take (unix_path_max - 1) path; state = us_bound }) refl
                refl refl refl refl)
        | inr (j, taken) ↦ rw (here, unix_sock_bind, fresh, a_path, taken) v
      ]
    ]
  ]
]

pub unix_sock_listen-IsValid :
    (net : Net) (id : ℤ) → IsValid net → IsValid (unix_sock_listen net id).1
unfolding unix_sock_listen listen_at
unix_sock_listen-IsValid net id v = elim (Option-cases (unix_sock_get net id)) [
  | inl gone ↦ rw (gone, unix_sock_listen) v
  | inr (i, here) ↦ elim (Bool-cases (not ((at net i).kind == sock_stream))) [
    | inl other ↦ rw (here, unix_sock_listen, other) v
    | inr stream ↦ elim (Bool-cases (not (is_bound (at net i).state))) [
      | inl unbound ↦ rw (here, unix_sock_listen, stream, unbound) v
      | inr bound ↦
          rw (here, unix_sock_listen, stream, bound)
            (touch-IsValid net v i (record (at net i) { state = us_listening }) refl refl refl refl
              refl)
    ]
  ]
]

pub unix_sock_sendto-IsValid :
    (net : Net) (id : ℤ) (buf dest_path : List ℕ)
    → IsValid net
    → length buf < 2 ^ 31
    → IsValid (unix_sock_sendto net id buf dest_path).1
unfolding unix_sock_sendto send_at
unix_sock_sendto-IsValid net id buf dest_path v short = elim (Option-cases (unix_sock_get net id)) [
  | inl gone ↦ rw (gone, unix_sock_sendto) v
  | inr (i, here) ↦ elim (Bool-cases (not ((at net i).kind == sock_dgram))) [
    | inl other ↦ rw (here, unix_sock_sendto, other) v
    | inr dgram ↦ elim (Option-cases (find_bound net dest_path)) [
      | inl nobody ↦ rw (here, unix_sock_sendto, dgram, send_at, nobody) v
      | inr (j, there) ↦ elim (Bool-cases (ltb (space_of net j) (length buf))) [
        | inl full ↦ rw (here, unix_sock_sendto, dgram, send_at, there, full) v
        | inr room ↦
            rw (here, unix_sock_sendto, dgram, send_at, there, room)
              (deliver-IsValid net j buf v short)
      ]
    ]
  ]
]
