-- ===== src/Vfs/Resolve.antt =====
-- `resolve_fs` of vfs.c finds the longest mount point that covers a path.
use blackmount.Common.{
  ℕ, suc, ◌≤◌, ◌<◌, ◌≡◌, refl, sym, ap, subst, ◌∙◌, Bool, true, List, [], ◌∷◌, length, get_or, All,
  leb, ◌&&◌, ◌⊎◌, inl, inr, Bool-cases, arith,
}
use blackmount.Vfs.{
  Vfs, Mount, Best, zero_mount, mount_at, covers, rest_of, resolve_step, resolve_from, resolve_fs,
}

-- Does an active mount's point cover the path?
abbrev pub serves : Mount → List ℕ → Bool
serves m path = m.active && covers m path

-- No mount that serves the path has a point longer than `n`.
abbrev pub NoneLonger : List ℕ → ℕ → List Mount → Type 0
NoneLonger path n ms = All (λ m. serves m path ≡ true → length m.mountpoint ≤ n) ms

-- The best is that of a mount in the list.
abbrev pub IsOf : List ℕ → Best → Mount → Type 0
IsOf path b m =
    (serves m path ≡ true)
    × (b.fs ≡ m.fs)
    × (b.rel ≡ rest_of m path)
    × (b.len ≡ length m.mountpoint)

step_best :
    (path : List ℕ) (best : Best) (m : Mount)
    → ((resolve_step path best m ≡ best) × (serves m path ≡ true → length m.mountpoint ≤ best.len))
      ⊎ (IsOf path (resolve_step path best m) m × (best.len < length m.mountpoint))
unfolding resolve_step
step_best path best m = elim (Bool-cases m.active) [
  | inr off ↦ inl (rw off refl, λ on. absurd (ground (arith, off, on)))
  | inl on ↦ elim (Bool-cases (leb (length m.mountpoint) best.len)) [
    | inl short ↦ inl (rw (on, short) refl, λ e. ground (arith, short))
    | inr long ↦ elim (Bool-cases (covers m path)) [
      | inl here ↦ inr (rw (on, long, here) (refl, refl, refl, refl), ground (arith, long))
      | inr past ↦ inl (rw (on, long, past) refl, λ e. absurd (ground (arith, on, past, e)))
    ]
  ]
]

NoneLonger-weaken :
    (path : List ℕ) (n k : ℕ) (ms : List Mount)
    → n ≤ k
    → NoneLonger path n ms
    → NoneLonger path k ms
NoneLonger-weaken path n k [] le h = tt
NoneLonger-weaken path n k (m ∷ ms) le h =
    (λ e. omega (arith, le, h.0 e), NoneLonger-weaken path n k ms le h.1)

-- What the loop ends with, for mounts of which none serves the path with a longer point than the
-- best so far.
abbrev Ends : List ℕ → Best → List Mount → Best → Type 0
Ends path best ms b =
    ((b ≡ best) ⊎ ((i : ℕ) × (i < length ms) × IsOf path b (get_or ms i zero_mount)))
    × (best.len ≤ b.len)
    × NoneLonger path b.len ms

resolve_from-Ends :
    (path : List ℕ) (best : Best) (ms : List Mount) → Ends path best ms (resolve_from path best ms)
unfolding resolve_from
resolve_from-Ends path best [] = (inl refl, omega arith, tt)
resolve_from-Ends path best (m ∷ ms) =
    let next = resolve_step path best m in
    let (from, longer, others) = resolve_from-Ends path next ms in
    let last = resolve_from path next ms in
    elim (step_best path best m) [
      | inl (same, short) ↦
          let len : next.len ≡ best.len = ap (λ (b : Best). b.len) same in
          (
            elim from [
              | inl e ↦ inl (e ∙ same)
              | inr (i, near, is) ↦ inr (suc i, omega (arith, near), is)
            ],
            omega (arith, longer, len),
            (λ e. omega (arith, short e, longer, len), others),
          )
      | inr (is, more) ↦ (
        elim from [
          | inl e ↦ inr (0, omega arith, subst (λ b. IsOf path b m) (sym e) is)
          | inr (i, near, found) ↦ inr (suc i, omega (arith, near), found)
        ],
        omega (arith, longer, more, is.3),
        (λ e. omega (arith, longer, is.3), others),
      )
    ]

-- A path is resolved to the file system of an active mount whose point covers the path, with the rest
-- of the path, or to the root with the whole path; and no active mount that covers the path has a
-- longer point than the one chosen, where the root counts as a point of length 0.
pub resolve_fs_lem :
    (vfs : Vfs) (path : List ℕ)
    → let b = resolve_fs vfs path in
      ((b ≡ record { fs = vfs.root_fs; rel = path; len = 0 })
        ⊎ ((i : ℕ) × (i < length vfs.mount_table) × IsOf path b (mount_at vfs i)))
      × NoneLonger path b.len vfs.mount_table
unfolding resolve_fs
resolve_fs_lem vfs path =
    let root : Best = record { fs = vfs.root_fs; rel = path; len = 0 } in
    let (from, longer, others) = resolve_from-Ends path root vfs.mount_table in (from, others)
