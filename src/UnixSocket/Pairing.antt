-- ===== src/UnixSocket/Pairing.antt =====
-- `unix_sock_accept`, and the two ends that it connects.
use blackmount.Common.{
  ℕ, zero, suc, ◌+◌, ◌<◌, ◌≡◌, ◌≢◌, refl, sym, ap, subst, ◌∙◌, Bool, true, false, List, [], ◌∷◌,
  some, length, get_or, get_or-set_ne, set, ◌==◌, not, inl, inr, Bool-cases, arith,
}
use blackmount.Common.Int.{ℤ, pos, is_negative}
use blackmount.UnixSocket.{
  Net, Socket, Pending, max_unix_sockets, cleared, us_connected, is_listening, at, put, unblock_pid,
  unix_sock_get, find_slot, find_unused, first_pending, drop_pending,
}
use blackmount.UnixSocket.Connect.{
  Reply, done, accepted_socket, join_client, accept_at, unix_sock_accept,
}
use blackmount.UnixSocket.IsValid.{IsValid, put-IsValid, at-IsSocket, drop_pending-IsSocket}
use blackmount.UnixSocket.Keeps.{
  accepted_socket-IsValid, unix_sock_get-some, at-put, at-unblock_pid,
}
use blackmount.UnixSocket.Calls.{after, unix_sock_accept-IsValid}
use blackmount.UnixSocket.Stream.{Joined, unix_sock_get-pos}

-- A search looks at each slot only through its test.
find_slot-set :
    (test : Socket → Bool) (ss : List Socket) (i k : ℕ) (s : Socket)
    → i < length ss
    → test s ≡ test (get_or ss i cleared)
    → find_slot test (set ss i s) k ≡ find_slot test ss k
unfolding find_slot
find_slot-set test [] i k s near e = refl
find_slot-set test (t ∷ ss) zero k s near e = rw e refl
find_slot-set test (t ∷ ss) (suc i) k s near e = elim (Bool-cases (test t)) [
  | inl fits ↦ rw fits refl
  | inr other ↦ rw other (find_slot-set test ss i (k + 1) s (omega arith) e)
]

-- The slot that a search finds passes the test.
pub find_slot_found :
    (test : Socket → Bool) (ss : List Socket) (k n : ℕ)
    → find_slot test ss k ≡ some n
    → (m : ℕ) × (n ≡ k + m) × (m < length ss) × (test (get_or ss m cleared) ≡ true)
unfolding find_slot
find_slot_found test [] k n e = absurd (ground (arith, e))
find_slot_found test (t ∷ ss) k n e = elim (Bool-cases (test t)) [
  | inl fits ↦ (0, ground (arith, fits, e), omega arith, fits)
  | inr other ↦
      let found : find_slot test ss (k + 1) ≡ some n = ground (arith, other, e) in
      let (m, at_m, near, passes) = find_slot_found test ss (k + 1) n found in
      (suc m, omega (arith, at_m), omega (arith, near), passes)
]

pub find_unused-some :
    (net : Net) (n : ℕ)
    → find_unused net ≡ some n
    → (n < length net.sock_table) × ((at net n).in_use ≡ false)
unfolding find_unused
find_unused-some net n e =
    let (m, at_m, near, passes) = find_slot_found (λ s. not s.in_use) net.sock_table 0 n e in
    let same : n ≡ m = omega (arith, at_m) in
    (omega (arith, same, near), rw same (ground (arith, passes)))

-- What accepting the client at `c` into the slot `n` leaves.
record Paired (net : Net) (c n : ℕ) : Type 0 where
  pub server : Joined net n c
  pub client : Joined net c n

-- A client joins a socket that is already its own end of the connection.
join_client-Paired :
    (net : Net) (c n : ℕ)
    → IsValid net
    → unix_sock_get net (pos c) ≡ some c
    → n < max_unix_sockets
    → n ≢ c
    → (at net n).in_use ≡ true
    → (at net n).state ≡ us_connected
    → (at net n).peer_id ≡ pos c
    → Paired (join_client net (pos c) n) c n
unfolding join_client
join_client-Paired net c n v here near apart used state peer =
    let (same, c_near, c_used) = unix_sock_get-some net (pos c) c here in
    let s : Socket = record (at net c) { state = us_connected; peer_id = pos n } in
    let c_now = at-put net c s v c_near in
    let n_now : at (put net c s) n ≡ at net n =
      get_or-set_ne net.sock_table c n s cleared (λ e. apart (sym e)) in
    rw (here, join_client)
      (record {
        server = record {
          peer = ap (λ (t : Socket). t.peer_id) n_now ∙ peer;
          here =
              unix_sock_get-pos (put net c s) c c_near
                (ap (λ (t : Socket). t.in_use) c_now ∙ c_used);
          opened = ap (λ (t : Socket). t.state) c_now;
          apart = λ e. apart (sym e);
        };
        client = record {
          peer = ap (λ (t : Socket). t.peer_id) c_now;
          here =
              unix_sock_get-pos (put net c s) n near (ap (λ (t : Socket). t.in_use) n_now ∙ used);
          opened = ap (λ (t : Socket). t.state) n_now ∙ state;
          apart = apart;
        };
      })

unblock_pid-Paired :
    (pid : ℤ) (net : Net) (c n : ℕ) → Paired net c n → Paired (unblock_pid pid net) c n
unfolding unix_sock_get
unblock_pid-Paired pid net c n p = elim (Bool-cases (is_negative pid)) [
  | inl none_waits ↦ rw none_waits p
  | inr waits ↦ rw waits (record {
    server = record {
      peer = p.server.peer;
      here = p.server.here;
      opened = p.server.opened;
      apart = p.server.apart;
    };
    client = record {
      peer = p.client.peer;
      here = p.client.here;
      opened = p.client.opened;
      apart = p.client.apart;
    };
  })
]

-- When a listening socket has a waiting client and the table has a free slot, accept takes the
-- oldest waiting entry off the backlog and returns the first free slot `n`; then the client and `n`
-- are connected to each other, if the client's socket is still in use and is not the listener.
pub unix_sock_accept_lem :
    (net : Net) (i c n : ℕ)
    → IsValid net
    → unix_sock_get net (pos i) ≡ some i
    → is_listening (at net i).state ≡ true
    → 0 < (at net i).backlog_count
    → (first_pending (at net i)).client_sock_id ≡ pos c
    → unix_sock_get net (pos c) ≡ some c
    → i ≢ c
    → find_unused net ≡ some n
    → (left : Net) × (unix_sock_accept net (pos i) ≡ done (pos n) left)
      × IsValid left
      × Joined left n c
      × Joined left c n
      × (at left i ≡ drop_pending (at net i))
unfolding unix_sock_accept accept_at join_client find_unused
unix_sock_accept_lem net i c n v here listens waiting client c_here apart free =
    let (same, i_near, i_used) = unix_sock_get-some net (pos i) i here in
    let (c_same, c_near, c_used) = unix_sock_get-some net (pos c) c c_here in
    let (n_near, n_free) = find_unused-some net n free in
    let n_c : n ≢ c = λ e. absurd (ground (arith, e, n_free, c_used)) in
    let n_i : n ≢ i = λ e. absurd (ground (arith, e, n_free, i_used)) in
    let e : Pending = first_pending (at net i) in
    let popped : Net = put net i (drop_pending (at net i)) in
    let popped_valid =
      put-IsValid net v i (drop_pending (at net i))
        (drop_pending-IsSocket (at net i) (at-IsSocket net v i) waiting) in
    let found : find_unused popped ≡ some n =
      find_slot-set (λ s. not s.in_use) net.sock_table i 0 (drop_pending (at net i))
        (omega (arith, v.slots, i_near)) refl
      ∙ free in
    let s : Socket = accepted_socket popped i (pos c) in
    let joining : Net = put popped n s in
    let left : Net = unblock_pid e.client_pid (join_client joining (pos c) n) in
    let slot : n < max_unix_sockets = omega (arith, n_near, v.slots) in
    let accepted : accept_at net i ≡ (pos n, left) = rw (found, accept_at, client) refl in
    let somebody : ((at net i).backlog_count == 0) ≡ false = ground (arith, waiting) in
    let returns : unix_sock_accept net (pos i) ≡ done (pos n) left =
      rw (here, unix_sock_accept, listens, somebody, accepted) refl in
    let n_now : at joining n ≡ s = at-put popped n s popped_valid slot in
    let c_now : at joining c ≡ at net c =
      get_or-set_ne popped.sock_table n c s cleared n_c
      ∙ get_or-set_ne net.sock_table i c (drop_pending (at net i)) cleared apart in
    let c_get : unix_sock_get joining (pos c) ≡ some c =
      unix_sock_get-pos joining c c_near (ap (λ (t : Socket). t.in_use) c_now ∙ c_used) in
    let valid : IsValid joining = accepted_socket-IsValid popped popped_valid n i (pos c) in
    let paired =
      join_client-Paired joining c n valid c_get slot n_c (ap (λ (t : Socket). t.in_use) n_now)
        (ap (λ (t : Socket). t.state) n_now) (ap (λ (t : Socket). t.peer_id) n_now) in
    let p = unblock_pid-Paired e.client_pid (join_client joining (pos c) n) c n paired in
    let i_now : at left i ≡ drop_pending (at net i) =
      at-unblock_pid e.client_pid (join_client joining (pos c) n) i
      ∙ (rw (c_get, join_client)
          (get_or-set_ne joining.sock_table c i _ cleared (λ e. apart (sym e))))
      ∙ get_or-set_ne popped.sock_table n i s cleared n_i
      ∙ at-put net i (drop_pending (at net i)) v i_near in
    (
      left,
      returns,
      subst (λ (r : Reply). IsValid (after r)) returns (unix_sock_accept-IsValid net (pos i) v),
      p.server,
      p.client,
      i_now,
    )
