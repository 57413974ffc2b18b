-- ===== src/Procs/Kill/Sweep.antt =====
-- The loop of `proc_kill_children` of proc.c, with the calls of itself that it makes.
use blackmount.Common.{
  ℕ, zero, suc, ◌+◌, ◌≤◌, ◌<◌, ◌≡◌, refl, ap, subst, get_or-past, ◌∙◌, true, false, Option, some,
  ltb, ◌==◌, ◌&&◌, ◌⊎◌, inl, inr, Bool-cases, arith,
}
use blackmount.Procs.{Pcb, Procs, unused_pcb, pcb_at}
use blackmount.Procs.Exit.{is_live, is_child, clear_slot, kill_slots, proc_kill_children}
use blackmount.Procs.Kill.{
  pid_at, live_at, IsOrdered, Descends, Shrinks, Gone, Killed, Shrinks-refl, Shrinks-trans,
  Shrinks-live, live_of_child, Shrinks-child, Shrinks-no_child, Shrinks-Descends, Shrinks-IsOrdered,
  Gone-split, pcb_at-clear_slot_ne, pcb_at-clear_slot_self, clear_slot-Shrinks, live-near,
  Descends-lt, child, below,
}

-- Where a round of the loop stands: the slots under `i` hold no child any more.
record Swept (a p : Procs) (q i : ℕ) : Type 0 where
  shrinks : Shrinks a p
  only : (k : ℕ) → Gone a p k → Descends a k q
  done : (j : ℕ) → j < i → is_child p q j ≡ false
  orphans : (k : ℕ) → Gone a p k → (j : ℕ) → is_child p (pid_at a k) j ≡ false

-- One round that ends a child: its descendants first, then it.
module _ (bound : ℕ) (a p rest : Procs) (q i : ℕ) (h : IsOrdered bound a) (w : Swept a p q i)
    (is : is_child p q i ≡ true) (killed : Killed p rest (pid_at p i)) where
  round-IsOrdered : IsOrdered bound p
  round-IsOrdered = Shrinks-IsOrdered bound a p w.shrinks h

  -- The child itself is still there.
  round_same : pcb_at rest i ≡ pcb_at p i
  round_same = elim (killed.shrinks.each i) [
    | inl same ↦ same
    | inr (was, cleared) ↦
        let gone : live_at rest i ≡ false = ap (λ (x : Pcb). is_live x.state) cleared in
        let younger =
          Descends-lt bound p i round-IsOrdered (pid_at p i) (killed.only i (was, gone)) in
        absurd (omega (arith, younger))
  ]

  round_live : live_at rest i ≡ true
  round_live = ap (λ (x : Pcb). is_live x.state) round_same ∙ live_of_child p q i is

  last_step : Shrinks rest (clear_slot rest i)
  last_step = clear_slot-Shrinks rest i (live-near rest i round_live) round_live

  steps : Shrinks p (clear_slot rest i)
  steps = Shrinks-trans p rest (clear_slot rest i) killed.shrinks last_step

  same_pid : pid_at p i ≡ pid_at a i
  same_pid = ap (λ (x : Pcb). x.proc.pid) (Shrinks-live a p i w.shrinks (live_of_child p q i is))

  Gone-last : (k : ℕ) → Gone rest (clear_slot rest i) k → i ≡ k
  Gone-last k (was, gone) = elim (Bool-cases (i == k)) [
    | inl e ↦ ground (arith, e)
    | inr e ↦
        let kept = pcb_at-clear_slot_ne rest i k (λ same. ground (arith, e, same)) in
        absurd (ground (arith, was, gone, ap (λ (x : Pcb). is_live x.state) kept))
  ]

  -- What the round ends.
  round-Gone :
      (k : ℕ)
      → Gone a (clear_slot rest i) k
      → Gone a p k ⊎ (((live_at p k ≡ true) × Gone p rest k) ⊎ (i ≡ k))
  round-Gone k gone = elim (Gone-split a p (clear_slot rest i) k gone) [
    | inl before ↦ inl before
    | inr now ↦ elim (Gone-split p rest (clear_slot rest i) k now) [
      | inl by_call ↦ inr (inl (now.0, by_call))
      | inr by_clear ↦ inr (inr (Gone-last k by_clear))
    ]
  ]

  round_only : (k : ℕ) → Gone a (clear_slot rest i) k → Descends a k q
  round_only k gone = elim (round-Gone k gone) [
    | inl before ↦ w.only k before
    | inr (inl (live, by_call)) ↦ below q i (Shrinks-child a p q i w.shrinks is) (
        subst (Descends a k) same_pid
          (Shrinks-Descends a p k w.shrinks (pid_at p i) (killed.only k by_call)))
    | inr (inr same) ↦
        subst (λ j. Descends a j q) same (child q (Shrinks-child a p q i w.shrinks is))
  ]

  round_orphans :
      (k : ℕ)
      → Gone a (clear_slot rest i) k
      → (j : ℕ) → is_child (clear_slot rest i) (pid_at a k) j ≡ false
  round_orphans k gone j = elim (round-Gone k gone) [
    | inl before ↦
        Shrinks-no_child p (clear_slot rest i) (pid_at a k) j steps (w.orphans k before j)
    | inr (inl (live, by_call)) ↦
        let same : pid_at p k ≡ pid_at a k =
          ap (λ (x : Pcb). x.proc.pid) (Shrinks-live a p k w.shrinks live) in
        subst (λ r. is_child (clear_slot rest i) r j ≡ false) same
          (Shrinks-no_child rest (clear_slot rest i) (pid_at p k) j last_step
            (killed.orphans k by_call j))
    | inr (inr same) ↦
        subst (λ r. is_child (clear_slot rest i) r j ≡ false) (same_pid ∙ ap (pid_at a) same)
          (Shrinks-no_child rest (clear_slot rest i) (pid_at p i) j last_step (killed.none_left j))
  ]

  round_done : (j : ℕ) → j < i + 1 → is_child (clear_slot rest i) q j ≡ false
  round_done j near = elim (Bool-cases (j == i)) [
    | inl e ↦
        let same : i ≡ j = ground (arith, e) in
        subst (λ x. is_child (clear_slot rest i) q x ≡ false) same
          (ap (λ (x : Pcb). is_live x.state && x.proc.ppid == q)
            (pcb_at-clear_slot_self rest i (live-near rest i round_live)))
    | inr e ↦ Shrinks-no_child p (clear_slot rest i) q j steps (w.done j (ground (arith, e, near)))
  ]

  Swept-round : Swept a (clear_slot rest i) q (i + 1)
  Swept-round = record {
    shrinks = Shrinks-trans a p (clear_slot rest i) w.shrinks steps;
    only = round_only;
    done = round_done;
    orphans = round_orphans;
  }

-- A round over a slot that holds no child.
Swept-skip : (a p : Procs) (q i : ℕ) → Swept a p q i → is_child p q i ≡ false → Swept a p q (i + 1)
Swept-skip a p q i w not_one = record {
  shrinks = w.shrinks;
  only = w.only;
  done = λ j near. elim (Bool-cases (j == i)) [
    | inl e ↦ subst (λ x. is_child p q x ≡ false) (ground (arith, e)) not_one
    | inr e ↦ w.done j (ground (arith, e, near))
  ];
  orphans = w.orphans;
}

-- After all slots.
Swept-Killed : (bound : ℕ) (a p : Procs) (q : ℕ) → IsOrdered bound a → Swept a p q 64 → Killed a p q
Swept-Killed bound a p q h w = record {
  shrinks = w.shrinks;
  only = w.only;
  orphans = w.orphans;
  none_left = λ i. elim (Bool-cases (ltb i 64)) [
    | inl e ↦ w.done i (ground (arith, e))
    | inr e ↦
        let far : 64 ≤ i = ground (arith, e) in
        let past : pcb_at p i ≡ unused_pcb =
          get_or-past p.proc_table i unused_pcb (omega (arith, w.shrinks.slots, h.slots, far)) in
        ap (λ (x : Pcb). is_live x.state && x.proc.ppid == q) past
  ];
}

-- One round of the loop.
kill_slots_child :
    (kill : Procs → ℕ → Option Procs) (n i : ℕ) (p rest : Procs) (q : ℕ)
    → is_child p q i ≡ true
    → kill p (pid_at p i) ≡ some rest
    → kill_slots kill (suc n) i p q ≡ kill_slots kill n (i + 1) (clear_slot rest i) q
unfolding kill_slots
kill_slots_child kill n i p rest q is called = rw (is, kill_slots, called)

kill_slots_other :
    (kill : Procs → ℕ → Option Procs) (n i : ℕ) (p : Procs) (q : ℕ)
    → is_child p q i ≡ false
    → kill_slots kill (suc n) i p q ≡ kill_slots kill n (i + 1) p q
unfolding kill_slots
kill_slots_other kill n i p q not_one = rw (not_one, kill_slots)

-- The whole loop, with the call that it makes of the function given.
module _ (kill : Procs → ℕ → Option Procs) (bound : ℕ) (a : Procs) (q : ℕ) (h : IsOrdered bound a)
    (calls : (p : Procs) (r : ℕ)
      → IsOrdered bound p
      → q < r
      → r < bound
      → (b : Procs) × (kill p r ≡ some b) × Killed p b r) where
  kill_slots-Killed :
      (n i : ℕ) (p : Procs)
      → n + i ≡ 64
      → Swept a p q i
      → (b : Procs) × (kill_slots kill n i p q ≡ some b) × Killed a b q
  unfolding kill_slots
  kill_slots-Killed zero i p e w =
      (p, refl, Swept-Killed bound a p q h (subst (Swept a p q) (omega (arith, e)) w))
  kill_slots-Killed (suc n) i p e w = elim (Bool-cases (is_child p q i)) [
    | inl is ↦
        let ordered = Shrinks-IsOrdered bound a p w.shrinks h in
        let live = live_of_child p q i is in
        let parent : (pcb_at p i).proc.ppid ≡ q = ground (arith, is) in
        let (rest, called, killed) =
          calls p (pid_at p i) ordered (omega (arith, ordered.older i live, parent))
            (ordered.bounded i live) in
        let (b, ran, end) =
          kill_slots-Killed n (i + 1) (clear_slot rest i) (omega arith)
            (Swept-round bound a p rest q i h w is killed) in
        (b, kill_slots_child kill n i p rest q is called ∙ ran, end)
    | inr not_one ↦
        let (b, ran, end) =
          kill_slots-Killed n (i + 1) p (omega arith) (Swept-skip a p q i w not_one) in
        (b, kill_slots_other kill n i p q not_one ∙ ran, end)
  ]

-- `proc_kill_children` comes to an end where a live process is younger than its parent: fuel for
-- the process numbers above the parent is enough. It frees slots of live descendants of the
-- parent only, changes no other slot, and leaves no live child of the parent or of a process that
-- it ended.
pub proc_kill_children-Killed :
    (fuel bound : ℕ) (a : Procs) (parent : ℕ)
    → IsOrdered bound a
    → parent < bound
    → bound ≤ fuel + parent
    → (b : Procs) × (proc_kill_children fuel a parent ≡ some b) × Killed a b parent
unfolding proc_kill_children
proc_kill_children-Killed zero bound a parent h near enough = absurd (omega (arith, near, enough))
proc_kill_children-Killed (suc fuel) bound a parent h near enough =
    kill_slots-Killed (proc_kill_children fuel) bound a parent h
      (λ p r ordered above below_bound.
        proc_kill_children-Killed fuel bound p r ordered below_bound (omega (arith, above, enough)))
      64 0 a (omega arith)
      (record {
        shrinks = Shrinks-refl a;
        only = λ k gone. absurd (ground (arith, gone.0, gone.1));
        done = λ j none_yet. absurd (omega (arith, none_yet));
        orphans = λ k gone. absurd (ground (arith, gone.0, gone.1));
      })
