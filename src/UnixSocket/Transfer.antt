-- ===== src/UnixSocket/Transfer.antt =====
-- `unix_sock_write`, `unix_sock_read`, `unix_sock_sendto` and `unix_sock_recvfrom`. A source buffer
-- is the list of its bytes, fewer than 2^32; a read returns the bytes that it copies out.
use blackmount.Common.{
  ℕ, zero, suc, ◌+◌, ◌-◌, Bool, true, false, List, [], ◌∷◌, Option, none, some, length, take, drop,
  ltb, ◌==◌, ◌&&◌, ◌||◌, not, if◌then◌else◌,
}
use blackmount.Common.Int.{ℤ, pos, minus_one}
use blackmount.UnixSocket.RingBuffer.{unix_buf_size, rb_write, rb_read}
use blackmount.UnixSocket.{
  Net, is_connected, is_closed, sock_dgram, at, put, unix_sock_get, find_bound, wake_reader,
}
use blackmount.UnixSocket.Connect.{wait_on}

-- A write ends with the number of bytes written, or stops in `proc_yield` with the rest to write.
pub data Progress : Type 0 where
  wrote : ℕ → Net → Progress
  yields : ℕ → List ℕ → Net → Progress

-- `rb_write(&peer->rx, ...); wake_reader(peer);`
unfoldable pub deliver : Net → ℕ → List ℕ → Net
deliver net j bytes =
    wake_reader (put net j (record (at net j) { rx = (rb_write (at net j).rx bytes).1 })) j

abbrev pub space_of : Net → ℕ → ℕ
space_of net j = unix_buf_size - (at net j).rx.count

-- The loop of `unix_sock_write` by the socket at `i`. Each round writes at least one byte, so the
-- number of bytes bounds the rounds; `none` is a loop that ran out of fuel.
unfoldable pub write_loop : ℕ → Net → ℕ → ℕ → List ℕ → Option Progress
write_loop zero net i written rest = none
write_loop (suc fuel) net i written [] = some (wrote written net)
write_loop (suc fuel) net i written (b ∷ bs) = elim (unix_sock_get net (at net i).peer_id) [
  | none ↦ some (wrote written net)
  | some j ↦ elim (is_closed (at net j).state) [
    | true ↦ some (wrote written net)
    | false ↦ elim (space_of net j == 0) [
      | true ↦ some (yields written (b ∷ bs) net)
      | false ↦
          let n : ℕ =
            if ltb (space_of net j) (suc (length bs)) then space_of net j else suc (length bs) in
          write_loop fuel (deliver net j (take n (b ∷ bs))) i (written + n) (drop n (b ∷ bs))
    ]
  ]
]

pub data WriteReply : Type 0 where
  refused : WriteReply
  started : Option Progress → WriteReply

unfoldable pub unix_sock_write : ℕ → Net → ℤ → List ℕ → WriteReply
unix_sock_write fuel net id buf = elim (unix_sock_get net id) [
  | none ↦ refused
  | some i ↦
      if is_connected (at net i).state then started (write_loop fuel net i 0 buf) else refused
]

-- A read fails, ends with some bytes, or waits.
pub data ReadReply : Type 0 where
  fails : ReadReply
  reads : List ℕ → Net → ReadReply
  blocks : Net → ReadReply

unfoldable pub take_bytes : Net → ℕ → ℕ → ReadReply
take_bytes net i count =
    let s = at net i in
    reads (rb_read s.rx count).0 (put net i (record s { rx = (rb_read s.rx count).1 }))

-- `s->peer_id < 0 || !sock_table[s->peer_id].in_use || sock_table[s->peer_id].state == US_CLOSED`
unfoldable pub peer_gone : Net → ℤ → Bool
peer_gone net (ℤ.negsuc n) = true
peer_gone net (ℤ.pos j) = not (at net j).in_use || is_closed (at net j).state

-- The test of the loop of `unix_sock_read`.
unfoldable pub read_at : Net → ℕ → ℕ → ReadReply
read_at net i count =
    if (at net i).rx.count == 0
    then if peer_gone net (at net i).peer_id then reads [] net else blocks (wait_on net i)
    else take_bytes net i count

unfoldable pub unix_sock_read : Net → ℤ → ℕ → ReadReply
unix_sock_read net id count = elim (unix_sock_get net id) [
  | none ↦ fails
  | some i ↦
      if not (is_connected (at net i).state) && not (is_closed (at net i).state)
      then fails
      else read_at net i count
]

-- After a wait: the state is not looked at again.
unfoldable pub read_resumed : Net → ℤ → ℕ → ReadReply
read_resumed net id count = elim (unix_sock_get net id) [
  | none ↦ fails
  | some i ↦ read_at net i count
]

unfoldable pub send_at : Net → List ℕ → List ℕ → ℤ × Net
send_at net buf dest_path = elim (find_bound net dest_path) [
  | none ↦ (minus_one, net)
  | some j ↦
      if ltb (space_of net j) (length buf)
      then (minus_one, net)
      else (pos (length buf), deliver net j buf)
]

unfoldable pub unix_sock_sendto : Net → ℤ → List ℕ → List ℕ → ℤ × Net
unix_sock_sendto net id buf dest_path = elim (unix_sock_get net id) [
  | none ↦ (minus_one, net)
  | some i ↦
      if not ((at net i).kind == sock_dgram) then (minus_one, net) else send_at net buf dest_path
]

unfoldable pub recv_at : Net → ℕ → ℕ → ReadReply
recv_at net i count =
    if (at net i).rx.count == 0 then blocks (wait_on net i) else take_bytes net i count

-- `src_path_out` is always set to the empty path.
unfoldable pub unix_sock_recvfrom : Net → ℤ → ℕ → ReadReply
unix_sock_recvfrom net id count = elim (unix_sock_get net id) [
  | none ↦ fails
  | some i ↦ if not ((at net i).kind == sock_dgram) then fails else recv_at net i count
]

unfoldable pub recv_resumed : Net → ℤ → ℕ → ReadReply
recv_resumed net id count = elim (unix_sock_get net id) [
  | none ↦ fails
  | some i ↦ recv_at net i count
]
