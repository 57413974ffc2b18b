-- ===== src/Procs/Schedule.antt =====
-- The scheduler of proc.c.
use blackmount.Common.{
  ℕ, zero, suc, ◌+◌, ◌-◌, ◌≤◌, ◌<◌, ◌≡◌, ◌≢◌, refl, sym, ap, ◌∙◌, Bool, true, false, none, some,
  length, length-set, get_or-set_self, get_or-set_ne, not, if◌then◌else◌, ◌⊎◌, inl, inr, ltb,
  Bool-cases, arith, ◌==◌,
}
use blackmount.Common.Int.{ℤ, pos}
use blackmount.Procs.{
  Procs, Pcb, Registers, proc_ready, proc_running, max_processes, is_ready, is_running, is_unused,
  unused_pcb, pcb_at, put_pcb, put_state, slot_after, find_ready, find_next, stop_current,
  switch_next, proc_schedule_interrupt,
}

-- Whether the slot at a distance from the current one is ready.
abbrev pub ready_after : Procs → ℕ → Bool
ready_after procs k = is_ready (pcb_at procs (slot_after procs.current_proc k)).state

-- The slot `idx` stands at the first distance from `i` on at which a slot is ready.
pub record IsTurn (procs : Procs) (i n idx : ℕ) : Type 0 where
  pub distance : ℕ
  pub from : i ≤ distance
  pub within : distance < i + n
  pub place : idx ≡ slot_after procs.current_proc distance
  pub ready : ready_after procs distance ≡ true
  pub sooner : (k : ℕ) → i ≤ k → k < distance → ready_after procs k ≡ false

-- The search stops at the first ready slot after the current one, or has seen them all.
abbrev Searched : ℕ → Procs → ℕ → Type 0
Searched n procs i =
    ((find_ready n procs i ≡ none) × ((k : ℕ) → i ≤ k → k < i + n → ready_after procs k ≡ false))
    ⊎ ((idx : ℕ) × (find_ready n procs i ≡ some idx) × IsTurn procs i n idx)

find_ready_lem : (n : ℕ) (procs : Procs) (i : ℕ) → Searched n procs i
unfolding find_ready
find_ready_lem zero procs i = inl (refl, λ k h l. absurd (omega arith))
find_ready_lem (suc n) procs i = elim (Bool-cases (ready_after procs i)) [
  | inl ready ↦ inr (
    slot_after procs.current_proc i,
    rw ready refl,
    record {
      distance = i;
      from = omega arith;
      within = omega arith;
      place = refl;
      ready = ready;
      sooner = λ k h l. absurd (omega arith);
    },
  )
  | inr busy ↦ elim (find_ready_lem n procs (i + 1)) [
    | inl (none_found, busy_later) ↦ inl (
      rw busy none_found,
      λ k h l. elim (Bool-cases (k == i)) [
        | inl here ↦ let same : k ≡ i = ground (arith, here) in rw same busy
        | inr later ↦ busy_later k (ground (arith, later, h)) (omega (arith, l))
      ],
    )
    | inr (idx, found, turn) ↦ inr (
      idx,
      rw busy found,
      record {
        distance = turn.distance;
        from = omega (arith, turn.from);
        within = omega (arith, turn.within);
        place = turn.place;
        ready = turn.ready;
        sooner = λ k h l. elim (Bool-cases (k == i)) [
          | inl here ↦ let same : k ≡ i = ground (arith, here) in rw same busy
          | inr later ↦ turn.sooner k (ground (arith, later, h)) l
        ];
      },
    )
  ]
]

-- The current process, and no other, is marked as running.
pub record IsValid (procs : Procs) (c : ℕ) : Type 0 where
  pub slots : length procs.proc_table ≡ max_processes
  pub current : procs.current_proc ≡ pos c
  pub near : c < max_processes
  pub only : (i : ℕ) → i ≢ c → is_running (pcb_at procs i).state ≡ false

-- Every slot of the table stands at one distance from 1 to 64 after the current one.
slot_after_all :
    (c i : ℕ)
    → c < max_processes
    → i < max_processes
    → (k : ℕ) × (1 ≤ k) × (k < 65) × (i ≡ slot_after (pos c) k)
slot_after_all c i hc hi = elim (Bool-cases (ltb c i)) [
  | inl above ↦
      let h : c < i = ground (arith, above) in
      (i - c, omega (arith, h), omega (arith, h, hi), omega (arith, h, hi))
  | inr below ↦
      let h : i ≤ c = ground (arith, below) in
      (i + 64 - c, omega (arith, h, hc), omega (arith, h, hi), omega (arith, h, hc, hi))
]

-- After the current process is stopped none is running, and the table is as long as before.
stop_current_idle :
    (procs : Procs) (frame : Registers) (c : ℕ)
    → IsValid procs c
    → let stopped = stop_current procs frame (pos c) in
      ((i : ℕ) → is_running (pcb_at stopped i).state ≡ false)
      × (length stopped.proc_table ≡ max_processes)
      × (stopped.current_proc ≡ pos c)
unfolding stop_current
stop_current_idle procs frame c v = elim (Bool-cases (is_unused (pcb_at procs c).state)) [
  | inl unused ↦ rw unused (
    λ i. elim (Bool-cases (i == c)) [
      | inl here ↦ let same : i ≡ c = ground (arith, here) in rw same (ground (arith, unused))
      | inr other ↦ v.only i (λ e. absurd (ground (arith, e, other)))
    ],
    v.slots,
    v.current,
  )
  | inr used ↦
      let s : Pcb = record (pcb_at procs c) {
        context = frame;
        state = if is_running (pcb_at procs c).state then proc_ready else (pcb_at procs c).state;
      } in
      let now : pcb_at (put_pcb procs c s) c ≡ s =
        get_or-set_self procs.proc_table c s unused_pcb (omega (arith, v.slots, v.near)) in
      let stopped : is_running s.state ≡ false = ground arith in
      rw used (
        λ i. elim (Bool-cases (i == c)) [
          | inl here ↦
              let same : i ≡ c = ground (arith, here) in
              rw same (ap (λ (p : Pcb). is_running p.state) now ∙ stopped)
          | inr other ↦
              let ne : i ≢ c = λ e. absurd (ground (arith, e, other)) in
              ap (λ (p : Pcb). is_running p.state)
                (get_or-set_ne procs.proc_table c i s unused_pcb (λ e. ne (sym e)))
              ∙ v.only i ne
        ],
        length-set procs.proc_table c s ∙ v.slots,
        v.current,
      )
]

proc_schedule_interrupt-switch_next :
    (procs : Procs) (frame : Registers) (c : ℕ)
    → procs.scheduling_enabled ≡ true
    → procs.current_proc ≡ pos c
    → proc_schedule_interrupt procs frame ≡ switch_next frame (stop_current procs frame (pos c))
unfolding proc_schedule_interrupt
proc_schedule_interrupt-switch_next procs frame c enabled current =
    ap
      (λ (b : Bool).
        if not b
        then (frame, procs)
        else switch_next frame (stop_current procs frame procs.current_proc))
      enabled
    ∙ ap (λ (k : ℤ). switch_next frame (stop_current procs frame k)) current

switch_next-none :
    (frame : Registers) (procs : Procs)
    → find_next procs ≡ none
    → switch_next frame procs ≡ (frame, procs)
unfolding switch_next
switch_next-none frame procs e = rw (e, switch_next) refl

switch_next-some :
    (frame : Registers) (procs : Procs) (next : ℕ)
    → find_next procs ≡ some next
    → switch_next frame procs ≡ (
      (pcb_at procs next).context,
      record (put_state procs next proc_running) { current_proc = pos next },
    )
unfolding switch_next
switch_next-some frame procs next e = rw (e, switch_next) refl

turn_near : (c d idx : ℕ) → idx ≡ slot_after (pos c) d → idx < max_processes
turn_near c d idx e = omega (arith, e)

-- A timer interrupt with scheduling on and one current process: when some slot is ready once that
-- process is stopped, the first of them after the current slot, round the table, becomes the only
-- running one and its registers are returned; else no slot is ready, the table keeps its current
-- process, and the interrupted registers are returned.
pub proc_schedule_interrupt_lem :
    (procs : Procs) (frame : Registers) (c : ℕ)
    → IsValid procs c
    → procs.scheduling_enabled ≡ true
    → let stopped = stop_current procs frame (pos c) in
      let (frame', procs') = proc_schedule_interrupt procs frame in
      (((i : ℕ) → i < max_processes → is_ready (pcb_at procs' i).state ≡ false)
        × (frame' ≡ frame)
        × IsValid procs' c)
      ⊎ ((next : ℕ) × IsTurn stopped 1 max_processes next
          × (frame' ≡ (pcb_at stopped next).context)
          × ((pcb_at procs' next).state ≡ proc_running)
          × IsValid procs' next)
unfolding find_next
proc_schedule_interrupt_lem procs frame c v enabled =
    let stopped : Procs = stop_current procs frame (pos c) in
    let (idle, slots, current) = stop_current_idle procs frame c v in
    elim (find_ready_lem max_processes stopped 1) [
      | inl (none_found, busy) ↦
          rw
            (proc_schedule_interrupt-switch_next procs frame c enabled v.current
              ∙ switch_next-none frame stopped none_found)
            (inl (
              λ i near.
                  let (k, low, high, place) = slot_after_all c i v.near near in
                  let here : slot_after stopped.current_proc k ≡ i =
                    ap (λ (z : ℤ). slot_after z k) current ∙ sym place in
                  ap (λ (j : ℕ). is_ready (pcb_at stopped j).state) (sym here) ∙ busy k low high,
              refl,
              record { slots = slots; current = current; near = v.near; only = λ i ne. idle i },
            ))
      | inr (next, found, turn) ↦
          let s : Pcb = record (pcb_at stopped next) { state = proc_running } in
          let near : next < max_processes =
            turn_near c turn.distance next
              (turn.place ∙ ap (λ (z : ℤ). slot_after z turn.distance) current) in
          let now : pcb_at (put_pcb stopped next s) next ≡ s =
            get_or-set_self stopped.proc_table next s unused_pcb (omega (arith, slots, near)) in
          rw
            (proc_schedule_interrupt-switch_next procs frame c enabled v.current
              ∙ switch_next-some frame stopped next found)
            (inr (
              next,
              turn,
              refl,
              ap (λ (p : Pcb). p.state) now,
              record {
                slots = length-set stopped.proc_table next s ∙ slots;
                current = refl;
                near = near;
                only = λ i ne.
                    ap (λ (p : Pcb). is_running p.state)
                      (get_or-set_ne stopped.proc_table next i s unused_pcb (λ e. ne (sym e)))
                    ∙ idle i;
              },
            ))
    ]
