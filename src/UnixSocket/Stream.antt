-- ===== src/UnixSocket/Stream.antt =====
-- Writes and reads on a connected socket.
use blackmount.Common.{
  ℕ, zero, suc, ◌+◌, ◌-◌, ◌^◌, ◌≤◌, ◌<◌, ◌≡◌, ◌≢◌, refl, sym, ap, ◌∙◌, true, false, List, [], ◌∷◌,
  ◌++◌, append-nil, some, length, length-take, length-drop, take, drop, min, get_or-set_ne, ltb,
  leb, ◌==◌, if◌then◌else◌, inl, inr, Bool-cases, arith,
}
use blackmount.Common.Int.{pos, minus_one, is_negative}
use blackmount.UnixSocket.RingBuffer.{Ring, rb_write}
use blackmount.UnixSocket.Fifo.{contents, rb_write_lem}
use blackmount.UnixSocket.{
  Net, Socket, max_unix_sockets, cleared, us_connected, is_closed, is_connected, at, put,
  unix_sock_get, wake_reader,
}
use blackmount.UnixSocket.Transfer.{
  Progress, wrote, yields, deliver, space_of, write_loop, started, unix_sock_write,
}
use blackmount.UnixSocket.IsValid.{IsValid, at-IsSocket}
use blackmount.UnixSocket.Keeps.{unix_sock_get-some, at-put, fill-IsValid, deliver-IsValid}

-- The socket at `i` writes to the open socket at `j`.
pub record Joined (net : Net) (i j : ℕ) : Type 0 where
  pub peer : (at net i).peer_id ≡ pos j
  pub here : unix_sock_get net (pos j) ≡ some j
  pub opened : (at net j).state ≡ us_connected
  pub apart : j ≢ i

pub at-wake_reader_ne : (net : Net) (j i : ℕ) → j ≢ i → at (wake_reader net j) i ≡ at net i
unfolding wake_reader
at-wake_reader_ne net j i ne = elim (Bool-cases (is_negative (at net j).blocked_reader_pid)) [
  | inl idle ↦ rw idle refl
  | inr waits ↦ rw waits (
      get_or-set_ne net.sock_table j i (record (at net j) { blocked_reader_pid = minus_one })
        cleared ne)
]

-- What a reader's wake-up leaves as it was.
pub record Same (s t : Socket) : Type 0 where
  pub rx : s.rx ≡ t.rx
  pub used : s.in_use ≡ t.in_use
  pub state : s.state ≡ t.state
  pub peer : s.peer_id ≡ t.peer_id

pub at-wake_reader :
    (net : Net) (j : ℕ)
    → IsValid net
    → j < max_unix_sockets
    → Same (at (wake_reader net j) j) (at net j)
unfolding wake_reader
at-wake_reader net j v near = elim (Bool-cases (is_negative (at net j).blocked_reader_pid)) [
  | inl idle ↦ rw idle (record { rx = refl; used = refl; state = refl; peer = refl })
  | inr waits ↦
      let e = at-put net j (record (at net j) { blocked_reader_pid = minus_one }) v near in
      rw (waits, e) (record { rx = refl; used = refl; state = refl; peer = refl })
]

pub unix_sock_get-pos :
    (net : Net) (j : ℕ)
    → j < max_unix_sockets
    → (at net j).in_use ≡ true
    → unix_sock_get net (pos j) ≡ some j
unfolding unix_sock_get
unix_sock_get-pos net j near used = ground (arith, near, used)

-- One round of the write loop: the bytes join the peer's buffer, and the two stay joined.
deliver-Joined :
    (net : Net) (i j : ℕ) (bytes : List ℕ)
    → IsValid net
    → Joined net i j
    → length bytes ≤ space_of net j
    → length bytes < 2 ^ 31
    → let net' = deliver net j bytes in
      IsValid net'
      × Joined net' i j
      × (contents (at net' j).rx ≡ contents (at net j).rx ++ bytes)
      × (space_of net' j ≡ space_of net j - length bytes)
unfolding deliver
deliver-Joined net i j bytes v joined fits short =
    let (same, near, used) = unix_sock_get-some net (pos j) j joined.here in
    let (ok, grown, count, ring) =
      rb_write_lem (at net j).rx bytes (at-IsSocket net v j).buffer short in
    let r : Ring = (rb_write (at net j).rx bytes).1 in
    let s : Socket = record (at net j) { rx = r } in
    let done = deliver-IsValid net j bytes v short in
    let filled = fill-IsValid net v j r ring in
    let now = at-put net j s v near in
    let woken = at-wake_reader (put net j s) j filled near in
    let rx : (at (deliver net j bytes) j).rx ≡ r = woken.rx ∙ ap (λ (t : Socket). t.rx) now in
    let in_use : (at (deliver net j bytes) j).in_use ≡ true =
      woken.used ∙ ap (λ (t : Socket). t.in_use) now ∙ used in
    let yes : (rb_write (at net j).rx bytes).0 ≡ true =
      ok ∙ ground (arith, fits, (at-IsSocket net v j).buffer.count_in) in
    (
      done,
      record {
        peer =
            ap (λ (t : Socket). t.peer_id) (at-wake_reader_ne (put net j s) j i joined.apart)
            ∙ ap (λ (t : Socket). t.peer_id)
                (get_or-set_ne net.sock_table j i s cleared joined.apart)
            ∙ joined.peer;
        here = unix_sock_get-pos (deliver net j bytes) j near in_use;
        opened = woken.state ∙ ap (λ (t : Socket). t.state) now ∙ joined.opened;
        apart = joined.apart;
      },
      ap contents rx ∙ grown ∙ (rw yes refl),
      rw rx (ground (arith, count, yes)),
    )

-- How many bytes a write gets rid of before it has to wait.
abbrev pub sent : Net → ℕ → List ℕ → ℕ
sent net j rest = min (space_of net j) (length rest)

write_loop_full :
    (fuel : ℕ) (net : Net) (i j w b : ℕ) (bs : List ℕ)
    → Joined net i j
    → space_of net j ≡ 0
    → write_loop (suc fuel) net i w (b ∷ bs) ≡ some (yields w (b ∷ bs) net)
unfolding write_loop
write_loop_full fuel net i j w b bs joined full =
    let test : (space_of net j == 0) ≡ true = ground (arith, full) in
    rw
      (
        ap (unix_sock_get net) joined.peer ∙ joined.here,
        write_loop,
        ap is_closed joined.opened,
        test,
      )
      refl

round_size :
    (net : Net) (j : ℕ) (rest : List ℕ)
    → (if ltb (space_of net j) (length rest) then space_of net j else length rest) ≡ sent net j rest
round_size net j rest = ground arith

write_loop_round :
    (fuel : ℕ) (net : Net) (i j w b : ℕ) (bs : List ℕ)
    → Joined net i j
    → 0 < space_of net j
    → write_loop (suc fuel) net i w (b ∷ bs) ≡ (
        let n = sent net j (b ∷ bs) in
        write_loop fuel (deliver net j (take n (b ∷ bs))) i (w + n) (drop n (b ∷ bs)))
unfolding write_loop
write_loop_round fuel net i j w b bs joined room =
    let test : (space_of net j == 0) ≡ false = ground (arith, room) in
    rw
      (
        ap (unix_sock_get net) joined.peer ∙ joined.here,
        write_loop,
        ap is_closed joined.opened,
        test,
        round_size net j (b ∷ bs),
      )
      refl

-- A write of `rest` after `w` bytes that gets rid of `n` more.
abbrev pub outcome : ℕ → ℕ → List ℕ → Net → Progress
outcome w n rest net =
    if leb (length rest) n then wrote (w + n) net else yields (w + n) (drop n rest) net

outcome_then :
    (w n m : ℕ) (rest : List ℕ) (net : Net)
    → m ≡ 0
    → outcome (w + n) m (drop n rest) net ≡ outcome w n rest net
outcome_then w n m rest net none_more =
    let sum : w + n + 0 ≡ w + n = omega arith in
    let test : leb (length rest - n) 0 ≡ leb (length rest) n = ground arith in
    rw (none_more, sum, length-drop n rest, test) refl

record Written (net : Net) (i j : ℕ) (fuel w : ℕ) (rest : List ℕ) : Type 0 where
  left : Net
  ends : write_loop fuel net i w rest ≡ some (outcome w (sent net j rest) rest left)
  valid : IsValid left
  grown : contents (at left j).rx ≡ contents (at net j).rx ++ take (sent net j rest) rest
  joined : Joined left i j

write_loop-Written :
    (fuel : ℕ) (net : Net) (i j w : ℕ) (rest : List ℕ)
    → IsValid net
    → Joined net i j
    → length rest < 2 ^ 31
    → length rest < fuel
    → Written net i j fuel w rest
unfolding write_loop
write_loop-Written zero net i j w rest v joined short enough = absurd (omega arith)
write_loop-Written (suc fuel) net i j w [] v joined short enough =
    let zero_sent : sent net j [] ≡ 0 = omega arith in
    let sum : w + 0 ≡ w = omega arith in
    record {
      left = net;
      ends = rw (zero_sent, sum) refl;
      valid = v;
      grown = rw zero_sent (sym (append-nil (contents (at net j).rx)));
      joined = joined;
    }
write_loop-Written (suc fuel) net i j w (b ∷ bs) v joined short enough =
    elim (Bool-cases (space_of net j == 0)) [
      | inl full ↦
          let zero_sent : sent net j (b ∷ bs) ≡ 0 = ground (arith, full) in
          let sum : w + 0 ≡ w = omega arith in
          let test : leb (suc (length bs)) 0 ≡ false = ground arith in
          record {
            left = net;
            ends =
                write_loop_full fuel net i j w b bs joined (ground (arith, full))
                ∙ (rw (zero_sent, sum, test) refl);
            valid = v;
            grown = rw zero_sent (sym (append-nil (contents (at net j).rx)));
            joined = joined;
          }
      | inr room ↦
          let n : ℕ = sent net j (b ∷ bs) in
          let front : List ℕ = take n (b ∷ bs) in
          let len : length front ≡ n = length-take n (b ∷ bs) ∙ omega arith in
          let (v', joined', grown, space) =
            deliver-Joined net i j front v joined (omega (arith, len)) (omega (arith, len)) in
          let next =
            write_loop-Written fuel (deliver net j front) i j (w + n) (drop n (b ∷ bs)) v' joined'
              (omega (arith, length-drop n (b ∷ bs)))
              (ground (arith, length-drop n (b ∷ bs), room)) in
          let idle : sent (deliver net j front) j (drop n (b ∷ bs)) ≡ 0 =
            omega (arith, space, len, length-drop n (b ∷ bs)) in
          record {
            left = next.left;
            ends =
                write_loop_round fuel net i j w b bs joined (ground (arith, room))
                ∙ next.ends
                ∙ ap (λ (p : Progress). some p)
                    (outcome_then w n (sent (deliver net j front) j (drop n (b ∷ bs))) (b ∷ bs)
                      next.left idle);
            valid = next.valid;
            grown =
                next.grown
                ∙ (rw idle (append-nil (contents (at (deliver net j front) j).rx)))
                ∙ grown;
            joined = next.joined;
          }
    ]

-- A write on a connected socket ends: it appends to its peer's buffer the first bytes of `buf`, as
-- many as there is space for, and returns their number if these are all, else waits with the rest.
pub unix_sock_write_lem :
    (fuel : ℕ) (net : Net) (i j : ℕ) (buf : List ℕ)
    → IsValid net
    → unix_sock_get net (pos i) ≡ some i
    → is_connected (at net i).state ≡ true
    → Joined net i j
    → length buf < 2 ^ 31
    → length buf < fuel
    → (left : Net) × (unix_sock_write fuel net (pos i) buf
        ≡ started (some (outcome 0 (sent net j buf) buf left)))
      × IsValid left
      × Joined left i j
      × (contents (at left j).rx ≡ contents (at net j).rx ++ take (sent net j buf) buf)
unfolding unix_sock_write
unix_sock_write_lem fuel net i j buf v here connected joined short enough =
    let w = write_loop-Written fuel net i j 0 buf v joined short enough in
    (w.left, rw (here, unix_sock_write, connected, w.ends) refl, w.valid, w.joined, w.grown)
