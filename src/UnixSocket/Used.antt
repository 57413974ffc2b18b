-- ===== src/UnixSocket/Used.antt =====
-- Which slots of the socket table unix_sock_create and unix_sock_destroy take and free.
use blackmount.Common.{
  ◌&&◌, not, ◌⊎◌, ℕ, zero, suc, ◌≤◌, ◌≡◌, ◌≢◌, refl, sym, ap, subst, ◌∙◌, Bool, true, false, length,
  length-set, get_or-set_self, get_or-set_ne, get_or-past, ltb, ◌==◌, inl, inr, Bool-cases,
  Option-cases, arith,
}
use blackmount.Common.Int.{ℤ, pos, minus_one, is_negative}
use blackmount.UnixSocket.{
  Net, Socket, cleared, us_closed, at, put, unblock_pid, unix_sock_get, first_pending, drop_pending,
  wake_reader, close_peer, leave_peer, drain_backlog, destroy_at, unix_sock_destroy,
  unix_sock_create, find_unused, sock_stream, sock_dgram,
}
use blackmount.UnixSocket.Keeps.{unix_sock_get-some}
use blackmount.UnixSocket.Pairing.{find_unused-some}

abbrev pub used : Net → ℕ → Bool
used net j = (at net j).in_use

-- A write of a socket that is in use as before.
used-put :
    (net : Net) (k : ℕ) (s : Socket) (j : ℕ)
    → s.in_use ≡ used net k
    → used (put net k s) j ≡ used net j
used-put net k s j same = elim (Bool-cases (k == j)) [
  | inr other ↦
      ap (λ (t : Socket). t.in_use)
        (get_or-set_ne net.sock_table k j s cleared (λ e. ground (arith, other, e)))
  | inl here ↦
      let k_j : k ≡ j = ground (arith, here) in
      subst (λ i. used (put net k s) i ≡ used net i) k_j
        (elim (Bool-cases (ltb k (length net.sock_table))) [
          | inl near ↦
              ap (λ (t : Socket). t.in_use)
                (get_or-set_self net.sock_table k s cleared (ground (arith, near)))
              ∙ same
          | inr far ↦
              let past : length net.sock_table ≤ k = ground (arith, far) in
              ap (λ (t : Socket). t.in_use)
                (get_or-past (put net k s).sock_table k cleared
                    (omega (arith, past, length-set net.sock_table k s))
                  ∙ sym (get_or-past net.sock_table k cleared past))
        ])
]

used-wake_reader : (net : Net) (i j : ℕ) → used (wake_reader net i) j ≡ used net j
unfolding wake_reader
used-wake_reader net i j = elim (Bool-cases (is_negative (at net i).blocked_reader_pid)) [
  | inl idle ↦ rw idle refl
  | inr waits ↦
      rw waits (used-put net i (record (at net i) { blocked_reader_pid = minus_one }) j refl)
]

used-close_peer : (net : Net) (i j : ℕ) → used (close_peer net i) j ≡ used net j
unfolding close_peer
used-close_peer net i j =
    let s : Socket = record (at net i) { state = us_closed; peer_id = minus_one } in
    used-wake_reader (put net i s) i j ∙ used-put net i s j refl

used-leave_peer : (net : Net) (i j : ℕ) → used (leave_peer net i) j ≡ used net j
unfolding leave_peer
used-leave_peer net i j = elim (Bool-cases (is_negative (at net i).peer_id)) [
  | inl alone ↦ rw alone refl
  | inr joined ↦ elim (Option-cases (unix_sock_get net (at net i).peer_id)) [
    | inl gone ↦
        rw (joined, gone) (used-put net i (record (at net i) { peer_id = minus_one }) j refl)
    | inr (k, here) ↦
        let told = close_peer net k in
        rw (joined, here)
          (used-put told i (record (at told i) { peer_id = minus_one }) j refl
            ∙ used-close_peer net k j)
  ]
]

used-unblock_pid : (pid : ℤ) (net : Net) (j : ℕ) → used (unblock_pid pid net) j ≡ used net j
used-unblock_pid pid net j = ground arith

used-drain_backlog : (n : ℕ) (net : Net) (i j : ℕ) → used (drain_backlog n net i) j ≡ used net j
unfolding drain_backlog
used-drain_backlog zero net i j = refl
used-drain_backlog (suc n) net i j =
    let s : Socket = drop_pending (at net i) in
    let popped : Net = put net i s in
    used-drain_backlog n (unblock_pid (first_pending (at net i)).client_pid popped) i j
    ∙ used-unblock_pid (first_pending (at net i)).client_pid popped j
    ∙ used-put net i s j refl

-- Destroying a socket frees no other slot.
pub used-destroy_at : (net : Net) (i j : ℕ) → i ≢ j → used (destroy_at net i) j ≡ used net j
unfolding destroy_at
used-destroy_at net i j ne =
    let woken : Net = wake_reader net i in
    let left : Net = leave_peer woken i in
    let n = (at left i).backlog_count in
    let drained : Net = drain_backlog n left i in
    ap (λ (t : Socket). t.in_use)
      (get_or-set_ne drained.sock_table i j
        (record (at drained i) { state = us_closed; in_use = false }) cleared ne)
    ∙ used-drain_backlog n left i j
    ∙ used-leave_peer woken i j
    ∙ used-wake_reader net i j

pub used-unix_sock_destroy :
    (net : Net) (id : ℤ) (k : ℕ) → id ≢ pos k → used (unix_sock_destroy net id) k ≡ used net k
unfolding unix_sock_destroy
used-unix_sock_destroy net id k ne = elim (Option-cases (unix_sock_get net id)) [
  | inl gone ↦
      let run : unix_sock_destroy net id ≡ net = rw (gone, unix_sock_destroy) refl in
      ap (λ n. used n k) run
  | inr (i, here) ↦
      let run : unix_sock_destroy net id ≡ destroy_at net i = rw (here, unix_sock_destroy) refl in
      let (same, near, busy) = unix_sock_get-some net id i here in
      ap (λ n. used n k) run ∙ used-destroy_at net i k (λ e. ne (same ∙ ap pos e))
]

-- A new socket takes a slot that was not used, or there is none.
abbrev pub Creates : Net → ℤ × Net → Type 0
Creates net (r, net') =
    ((r ≡ minus_one) × (net' ≡ net))
    ⊎ ((i : ℕ) × (r ≡ pos i)
        × (used net i ≡ false)
        × (used net' i ≡ true)
        × ((k : ℕ) → i ≢ k → used net' k ≡ used net k))

pub unix_sock_create-Creates : (net : Net) (kind : ℕ) → Creates net (unix_sock_create net kind)
unfolding unix_sock_create
unix_sock_create-Creates net kind =
    elim (Bool-cases (not (kind == sock_stream) && not (kind == sock_dgram))) [
      | inl other ↦ rw other (inl (refl, refl))
      | inr known ↦ elim (Option-cases (find_unused net)) [
        | inl full ↦ rw (known, full) (inl (refl, refl))
        | inr (i, found) ↦
            let (near, free) = find_unused-some net i found in
            rw (known, found)
              (inr (
                i,
                refl,
                free,
                ap (λ (t : Socket). t.in_use) (get_or-set_self net.sock_table i _ cleared near),
                λ k ne.
                    ap (λ (t : Socket). t.in_use) (get_or-set_ne net.sock_table i k _ cleared ne),
              ))
      ]
    ]
