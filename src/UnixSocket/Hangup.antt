-- ===== src/UnixSocket/Hangup.antt =====
-- `unix_sock_destroy`, and the socket at the other end.
use blackmount.Common.{
  ℕ, zero, suc, ◌<◌, ◌≡◌, ◌≢◌, refl, ap, ◌∙◌, true, false, List, [], none, some, get_or-set_ne,
  ◌==◌, arith,
}
use blackmount.Common.Int.{pos, minus_one, is_negative}
use blackmount.UnixSocket.RingBuffer.{Ring}
use blackmount.UnixSocket.{
  Net, Socket, max_unix_sockets, cleared, us_closed, is_connected, is_closed, at, put, unblock_pid,
  unix_sock_get, first_pending, drop_pending, wake_reader, close_peer, leave_peer, drain_backlog,
  retire, destroy_at, unix_sock_destroy,
}
use blackmount.UnixSocket.Transfer.{
  reads, peer_gone, read_at, unix_sock_read, refused, unix_sock_write,
}
use blackmount.UnixSocket.IsValid.{IsValid, wake_reader-IsValid, leave_peer-IsValid, touch-IsValid}
use blackmount.UnixSocket.Keeps.{unix_sock_get-some, at-put, at-unblock_pid, drain_backlog-IsValid}
use blackmount.UnixSocket.Stream.{at-wake_reader, at-wake_reader_ne, unix_sock_get-pos}

at-drain_backlog_ne :
    (n : ℕ) (net : Net) (i j : ℕ) → i ≢ j → at (drain_backlog n net i) j ≡ at net j
unfolding drain_backlog
at-drain_backlog_ne zero net i j ne = refl
at-drain_backlog_ne (suc n) net i j ne =
    let popped : Net = put net i (drop_pending (at net i)) in
    at-drain_backlog_ne n (unblock_pid (first_pending (at net i)).client_pid popped) i j ne
    ∙ at-unblock_pid (first_pending (at net i)).client_pid popped j
    ∙ get_or-set_ne net.sock_table i j (drop_pending (at net i)) cleared ne

-- The end of a stream whose other end is destroyed.
record Hung (s t : Socket) : Type 0 where
  pub rx : s.rx ≡ t.rx
  pub used : s.in_use ≡ t.in_use
  pub state : s.state ≡ us_closed
  pub peer : s.peer_id ≡ minus_one

close_peer-Hung :
    (net : Net) (j : ℕ)
    → IsValid net
    → j < max_unix_sockets
    → Hung (at (close_peer net j) j) (at net j)
unfolding close_peer
close_peer-Hung net j v near =
    let s : Socket = record (at net j) { state = us_closed; peer_id = minus_one } in
    let now = at-put net j s v near in
    let woken =
      at-wake_reader (put net j s) j (touch-IsValid net v j s refl refl refl refl refl) near in
    record {
      rx = woken.rx ∙ ap (λ (t : Socket). t.rx) now;
      used = woken.used ∙ ap (λ (t : Socket). t.in_use) now;
      state = woken.state ∙ ap (λ (t : Socket). t.state) now;
      peer = woken.peer ∙ ap (λ (t : Socket). t.peer_id) now;
    }

leave_peer-Hung :
    (net : Net) (i j : ℕ)
    → IsValid net
    → (at net i).peer_id ≡ pos j
    → unix_sock_get net (pos j) ≡ some j
    → i ≢ j
    → Hung (at (leave_peer net i) j) (at net j)
unfolding leave_peer
leave_peer-Hung net i j v peer here ne =
    let (same, near, used) = unix_sock_get-some net (pos j) j here in
    let joined : is_negative (at net i).peer_id ≡ false = ap is_negative peer in
    let told : unix_sock_get net (at net i).peer_id ≡ some j = ap (unix_sock_get net) peer ∙ here in
    let n : Net = close_peer net j in
    let kept : at (leave_peer net i) j ≡ at n j =
      rw (joined, told, leave_peer)
        (get_or-set_ne n.sock_table i j (record (at n i) { peer_id = minus_one }) cleared ne) in
    rw kept (close_peer-Hung net j v near)

destroy_at-Hung :
    (net : Net) (i j : ℕ)
    → IsValid net
    → i < max_unix_sockets
    → (at net i).peer_id ≡ pos j
    → unix_sock_get net (pos j) ≡ some j
    → i ≢ j
    → Hung (at (destroy_at net i) j) (at net j)
unfolding destroy_at
destroy_at-Hung net i j v i_near peer here ne =
    let (same, near, used) = unix_sock_get-some net (pos j) j here in
    let woken : Net = wake_reader net i in
    let other : at woken j ≡ at net j = at-wake_reader_ne net i j ne in
    let h =
      leave_peer-Hung woken i j (wake_reader-IsValid net v i)
        ((at-wake_reader net i v i_near).peer ∙ peer)
        (unix_sock_get-pos woken j near (ap (λ (s : Socket). s.in_use) other ∙ used)) ne in
    let l : Net = leave_peer woken i in
    let d : Net = drain_backlog (at l i).backlog_count l i in
    let kept : at (retire d i) j ≡ at l j =
      get_or-set_ne d.sock_table i j (record (at d i) { state = us_closed; in_use = false }) cleared
        ne
      ∙ at-drain_backlog_ne (at l i).backlog_count l i j ne in
    rw kept (record {
      rx = h.rx ∙ ap (λ (s : Socket). s.rx) other;
      used = h.used ∙ ap (λ (s : Socket). s.in_use) other;
      state = h.state;
      peer = h.peer;
    })

-- The slot of a destroyed socket is free.
destroy_at_free :
    (net : Net) (i : ℕ)
    → IsValid net
    → i < max_unix_sockets
    → (at (destroy_at net i) i).in_use ≡ false
unfolding destroy_at
destroy_at_free net i v near =
    let l : Net = leave_peer (wake_reader net i) i in
    let left = leave_peer-IsValid (wake_reader net i) (wake_reader-IsValid net v i) i in
    let drained = drain_backlog-IsValid (at l i).backlog_count l i left near (omega arith) in
    let d : Net = drain_backlog (at l i).backlog_count l i in
    ap (λ (s : Socket). s.in_use)
      (at-put d i (record (at d i) { state = us_closed; in_use = false }) drained near)

unix_sock_get_free :
    (net : Net) (i : ℕ) → (at net i).in_use ≡ false → unix_sock_get net (pos i) ≡ none
unfolding unix_sock_get
unix_sock_get_free net i free = ground (arith, free)

module _ (net : Net) (j : ℕ) (here : unix_sock_get net (pos j) ≡ some j)
    (closed : (at net j).state ≡ us_closed) where
  write_closed : (fuel : ℕ) (buf : List ℕ) → unix_sock_write fuel net (pos j) buf ≡ refused
  unfolding unix_sock_write
  write_closed fuel buf = rw (here, unix_sock_write, ap is_connected closed) refl

  read_closed :
      (count : ℕ)
      → (at net j).peer_id ≡ minus_one
      → (at net j).rx.count ≡ 0
      → unix_sock_read net (pos j) count ≡ reads [] net
  unfolding unix_sock_read read_at peer_gone
  read_closed count alone none_left =
      let test : ((at net j).rx.count == 0) ≡ true = ground (arith, none_left) in
      let gone : peer_gone net (at net j).peer_id ≡ true = ap (peer_gone net) alone in
      rw (here, unix_sock_read, ap is_connected closed, ap is_closed closed, read_at, test, gone)
        refl

-- Destroying a socket that is connected to the socket at `j` frees its slot and closes the one at
-- `j`, whose received bytes stay: its writes are refused from then on, and, when there are no bytes
-- left, its reads return the end of the stream.
pub unix_sock_destroy_lem :
    (net : Net) (i j : ℕ)
    → IsValid net
    → unix_sock_get net (pos i) ≡ some i
    → (at net i).peer_id ≡ pos j
    → unix_sock_get net (pos j) ≡ some j
    → i ≢ j
    → let left = unix_sock_destroy net (pos i) in
      (unix_sock_get left (pos i) ≡ none)
      × ((at left j).rx ≡ (at net j).rx)
      × ((fuel : ℕ) (buf : List ℕ) → unix_sock_write fuel left (pos j) buf ≡ refused)
      × ((count : ℕ) → (at net j).rx.count ≡ 0 → unix_sock_read left (pos j) count ≡ reads [] left)
unfolding unix_sock_destroy
unix_sock_destroy_lem net i j v here peer j_here ne =
    let (same, i_near, i_used) = unix_sock_get-some net (pos i) i here in
    let (j_same, j_near, j_used) = unix_sock_get-some net (pos j) j j_here in
    let left : Net = destroy_at net i in
    let destroyed : unix_sock_destroy net (pos i) ≡ left = rw (here, unix_sock_destroy) refl in
    let h = destroy_at-Hung net i j v i_near peer j_here ne in
    let j_get = unix_sock_get-pos left j j_near (h.used ∙ j_used) in
    rw destroyed (
      unix_sock_get_free left i (destroy_at_free net i v i_near),
      h.rx,
      λ fuel buf. write_closed left j j_get h.state fuel buf,
      λ count none_left.
          read_closed left j j_get h.state count h.peer
            (ap (λ (r : Ring). r.count) h.rx ∙ none_left),
    )
