-- ===== src/Procs/Kill.antt =====
-- `proc_kill_children` of proc.c: what it may end, and what a table that it works on keeps.
pub mod Sweep
use blackmount.Common.{
  ℕ, zero, suc, ◌+◌, ◌-◌, ◌≤◌, ◌<◌, ◌≡◌, ◌≢◌, refl, sym, ap, subst, get_or-past, ◌∙◌, Bool, true,
  false, List, [], ◌∷◌, Option, none, some, length, length-set, get_or, get_or-set_self,
  get_or-set_ne, ltb, leb, ◌==◌, ◌&&◌, ◌||◌, not, if◌then◌else◌, ◌⊎◌, inl, inr, Bool-cases, arith,
}
use blackmount.Procs.{
  Proc, Pcb, Procs, State, proc_unused, max_processes, is_unused, unused_pcb, pcb_at, put_pcb,
}
use blackmount.Procs.Exit.{
  is_zombie, is_live, is_child, clear_pcb, clear_slot, destroy_space, kill_slots,
  proc_kill_children,
}

abbrev pub pid_at : Procs → ℕ → ℕ
pid_at a i = (pcb_at a i).proc.pid

abbrev pub live_at : Procs → ℕ → Bool
live_at a i = is_live (pcb_at a i).state

-- The table is full size, and a live process is younger than its parent.
pub record IsOrdered (bound : ℕ) (a : Procs) : Type 0 where
  pub slots : length a.proc_table ≡ max_processes
  pub older : (i : ℕ) → live_at a i ≡ true → (pcb_at a i).proc.ppid < pid_at a i
  pub bounded : (i : ℕ) → live_at a i ≡ true → pid_at a i < bound

-- The process in a slot is a child of `q`, or a child of such a one, and so on.
pub data Descends (a : Procs) (i : ℕ) : ℕ → Type 0 where
  child : (q : ℕ) → is_child a q i ≡ true → Descends a i q
  below : (q k : ℕ) → is_child a q k ≡ true → Descends a i (pid_at a k) → Descends a i q

-- Some live processes are cleared, and nothing else happens to the table.
pub record Shrinks (a b : Procs) : Type 0 where
  pub slots : length b.proc_table ≡ length a.proc_table
  pub each :
      (i : ℕ)
      → (pcb_at b i ≡ pcb_at a i) ⊎ ((live_at a i ≡ true) × (pcb_at b i ≡ clear_pcb (pcb_at a i)))

abbrev pub Gone : Procs → Procs → ℕ → Type 0
Gone a b k = (live_at a k ≡ true) × (live_at b k ≡ false)

pub record Killed (a b : Procs) (q : ℕ) : Type 0 where
  pub shrinks : Shrinks a b
  pub only : (k : ℕ) → Gone a b k → Descends a k q
  pub none_left : (i : ℕ) → is_child b q i ≡ false
  pub orphans : (k : ℕ) → Gone a b k → (i : ℕ) → is_child b (pid_at a k) i ≡ false

pub Shrinks-refl : (a : Procs) → Shrinks a a
Shrinks-refl a = record { slots = refl; each = λ i. inl refl }

pub Shrinks-trans : (a b c : Procs) → Shrinks a b → Shrinks b c → Shrinks a c
Shrinks-trans a b c s t = record {
  slots = t.slots ∙ s.slots;
  each = λ i. elim (t.each i) [
    | inl same ↦ elim (s.each i) [
      | inl before ↦ inl (same ∙ before)
      | inr (live, cleared) ↦ inr (live, same ∙ cleared)
    ]
    | inr (live, cleared) ↦ elim (s.each i) [
      | inl before ↦
          inr (ap (λ (p : Pcb). is_live p.state) (sym before) ∙ live, cleared ∙ ap clear_pcb before)
      | inr (live_a, gone) ↦ inr (live_a, cleared ∙ ap clear_pcb gone)
    ]
  ];
}

-- What is live was live, and is the same process.
pub Shrinks-live :
    (a b : Procs) (i : ℕ) → Shrinks a b → live_at b i ≡ true → pcb_at b i ≡ pcb_at a i
Shrinks-live a b i s live = elim (s.each i) [
  | inl same ↦ same
  | inr (was, cleared) ↦
      let dead : live_at b i ≡ false = ap (λ (p : Pcb). is_live p.state) cleared in
      absurd (ground (arith, dead, live))
]

pub live_of_child : (a : Procs) (q i : ℕ) → is_child a q i ≡ true → live_at a i ≡ true
live_of_child a q i e = ground (arith, e)

pub Shrinks-child :
    (a b : Procs) (q i : ℕ) → Shrinks a b → is_child b q i ≡ true → is_child a q i ≡ true
Shrinks-child a b q i s e =
    ap (λ (p : Pcb). is_live p.state && p.proc.ppid == q)
      (sym (Shrinks-live a b i s (live_of_child b q i e)))
    ∙ e

pub Shrinks-no_child :
    (a b : Procs) (q i : ℕ) → Shrinks a b → is_child a q i ≡ false → is_child b q i ≡ false
Shrinks-no_child a b q i s e = elim (Bool-cases (is_child b q i)) [
  | inl is ↦ absurd (ground (arith, e, Shrinks-child a b q i s is))
  | inr not_one ↦ not_one
]

pub Shrinks-Descends :
    (a b : Procs) (i : ℕ) → Shrinks a b → (q : ℕ) → Descends b i q → Descends a i q
Shrinks-Descends a b i s _ (child q e) = child q (Shrinks-child a b q i s e)
Shrinks-Descends a b i s _ (below q k e d) =
    let same : pid_at b k ≡ pid_at a k =
      ap (λ (p : Pcb). p.proc.pid) (Shrinks-live a b k s (live_of_child b q k e)) in
    below q k (Shrinks-child a b q k s e)
      (subst (Descends a i) same (Shrinks-Descends a b i s (pid_at b k) d))

pub Shrinks-IsOrdered :
    (bound : ℕ) (a b : Procs) → Shrinks a b → IsOrdered bound a → IsOrdered bound b
Shrinks-IsOrdered bound a b s h = record {
  slots = s.slots ∙ h.slots;
  older = λ i live.
      let same = Shrinks-live a b i s live in
      subst (λ (p : Pcb). p.proc.ppid < p.proc.pid) (sym same)
        (h.older i (ap (λ (p : Pcb). is_live p.state) (sym same) ∙ live));
  bounded = λ i live.
      let same = Shrinks-live a b i s live in
      subst (λ (p : Pcb). p.proc.pid < bound) (sym same)
        (h.bounded i (ap (λ (p : Pcb). is_live p.state) (sym same) ∙ live));
}

-- A process that is gone in the end went in one of two steps.
pub Gone-split : (a b c : Procs) (k : ℕ) → Gone a c k → Gone a b k ⊎ Gone b c k
Gone-split a b c k (was, gone) = elim (Bool-cases (live_at b k)) [
  | inl still ↦ inr (still, gone)
  | inr already ↦ inl (was, already)
]

-- What a write of a slot leaves elsewhere, and in the slot.
pub pcb_at-clear_slot_ne : (a : Procs) (i j : ℕ) → i ≢ j → pcb_at (clear_slot a i) j ≡ pcb_at a j
pcb_at-clear_slot_ne a i j other = elim (Bool-cases ((pcb_at a i).address_space == 0)) [
  | inl e ↦ rw e (get_or-set_ne a.proc_table i j _ _ other)
  | inr e ↦ rw e (get_or-set_ne a.proc_table i j _ _ other)
]

pub pcb_at-clear_slot_self :
    (a : Procs) (i : ℕ)
    → i < length a.proc_table
    → pcb_at (clear_slot a i) i ≡ clear_pcb (pcb_at a i)
pcb_at-clear_slot_self a i near = elim (Bool-cases ((pcb_at a i).address_space == 0)) [
  | inl e ↦ rw e (get_or-set_self a.proc_table i _ _ near)
  | inr e ↦ rw e (get_or-set_self a.proc_table i _ _ near)
]

length-clear_slot : (a : Procs) (i : ℕ) → length (clear_slot a i).proc_table ≡ length a.proc_table
length-clear_slot a i = elim (Bool-cases ((pcb_at a i).address_space == 0)) [
  | inl e ↦ rw e (length-set a.proc_table i _)
  | inr e ↦ rw e (length-set a.proc_table i _)
]

-- One live process is cleared.
pub clear_slot-Shrinks :
    (a : Procs) (i : ℕ) → i < length a.proc_table → live_at a i ≡ true → Shrinks a (clear_slot a i)
clear_slot-Shrinks a i near live = record {
  slots = length-clear_slot a i;
  each = λ j. elim (Bool-cases (i == j)) [
    | inl e ↦
        let same : i ≡ j = ground (arith, e) in
        inr (
          subst (λ k. live_at a k ≡ true) same live,
          subst (λ k. pcb_at (clear_slot a i) k ≡ clear_pcb (pcb_at a k)) same
              (pcb_at-clear_slot_self a i near),
        )
    | inr e ↦ inl (pcb_at-clear_slot_ne a i j (λ same. ground (arith, e, same)))
  ];
}

-- A live process stands in the table.
pub live-near : (a : Procs) (i : ℕ) → live_at a i ≡ true → i < length a.proc_table
live-near a i live = elim (Bool-cases (ltb i (length a.proc_table))) [
  | inl e ↦ ground (arith, e)
  | inr e ↦
      let past : pcb_at a i ≡ unused_pcb =
        get_or-past a.proc_table i unused_pcb (ground (arith, e)) in
      absurd (ground (arith, live, ap (λ (p : Pcb). is_live p.state) past))
]

-- A descendant is younger.
pub Descends-lt :
    (bound : ℕ) (a : Procs) (k : ℕ) → IsOrdered bound a → (q : ℕ) → Descends a k q → q < pid_at a k
Descends-lt bound a k h _ (child q e) =
    let parent : (pcb_at a k).proc.ppid ≡ q = ground (arith, e) in
    ground (arith, h.older k (live_of_child a q k e), parent)
Descends-lt bound a k h _ (below q j e d) =
    let parent : (pcb_at a j).proc.ppid ≡ q = ground (arith, e) in
    let rest = Descends-lt bound a k h (pid_at a j) d in
    ground (arith, h.older j (live_of_child a q j e), parent, rest)
