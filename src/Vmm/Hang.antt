-- ===== src/Vmm/Hang.antt =====
-- A step of `vmm_get_next_level` in vmm.c that adds a table to the tree.
use blackmount.Common.{
  ℕ, zero, suc, ◌+◌, ◌*◌, ◌/◌, ◌<◌, ◌≡◌, ◌≢◌, refl, sym, ap, subst, ◌∙◌, true, false, List, [], ◌∷◌,
  Option, none, some, length, ◌==◌, ◌&&◌, if◌then◌else◌, inl, inr, Bool-cases, Option-cases, All,
  arith,
}
use blackmount.Pmm.{page_size}
use blackmount.Pmm.IsValid.{IsValid, is_used}
use blackmount.Vmm.{Vmm, page_of}
use blackmount.Vmm.Tables.{child, find, Place, IsTree}
use blackmount.Vmm.Grow.{Grows}

-- The place that an entry of a table at a place leads to.
abbrev next_place : ℕ → Option Place → Option Place
next_place i (some (suc l, p)) = some (l, p * 512 + i)
next_place i (some (zero, p)) = none
next_place i none = none

-- A step that hangs an empty table `u` into the entry `i` of the table `t`.
module _ (s s' : Vmm) (root t i u l0 p0 : ℕ) (place : ℕ → Option Place) (h : IsTree s root place)
    (at : place t ≡ some (suc (suc l0), p0)) (fresh : place u ≡ none) (absent : child s t i ≡ none)
    (hung : child s' t i ≡ some u) (empty : (j : ℕ) → child s' u j ≡ none)
    (others : (x j : ℕ) → x ≢ u → (x == t && j == i) ≡ false → child s' x j ≡ child s x j) where
  placed_other : (x : ℕ) (at : Place) → place x ≡ some at → x ≢ u
  placed_other x at e same = ground (arith, e, fresh, ap place same)

  same_level : (x m p : ℕ) → x ≡ t → place x ≡ some (suc m, p) → m ≡ suc l0
  same_level x m p same e = ground (arith, e, at, ap place same)

  -- There was nothing below the entry, and there is nothing below it now.
  hang-here :
      (x j : ℕ) (is : List ℕ)
      → (x == t && j == i) ≡ true
      → length is ≡ suc l0
      → find s' x (j ∷ is) ≡ find s x (j ∷ is)
  hang-here x j [] here len = absurd (omega (arith, len))
  hang-here x j (k ∷ is) here len =
      let a : x ≡ t = ground (arith, here) in
      let b : j ≡ i = ground (arith, here) in rw (a, b, hung, absent, empty k) refl

  hang-found :
      (x l p : ℕ) (is : List ℕ)
      → place x ≡ some (l, p)
      → length is ≡ l
      → All (λ i. i < 512) is
      → find s' x is ≡ find s x is
  hang-found x l p [] e len small = refl
  hang-found x zero p (j ∷ is) e len small = absurd (omega (arith, len))
  hang-found x (suc zero) p (j ∷ []) e len small = elim (Bool-cases (x == t && j == i)) [
    | inl here ↦ absurd (omega (arith, same_level x 0 p (ground (arith, here)) e))
    | inr there ↦ rw (others x j (placed_other x (1, p) e) there) refl
  ]
  hang-found x (suc zero) p (j ∷ k ∷ is) e len small = absurd (omega (arith, len))
  hang-found x (suc (suc m)) p (j ∷ is) e len small = elim (Bool-cases (x == t && j == i)) [
    | inl here ↦
        hang-here x j is here (omega (arith, len, same_level x (suc m) p (ground (arith, here)) e))
    | inr there ↦
        rw (others x j (placed_other x (suc (suc m), p) e) there)
          (elim (Option-cases (child s x j)) [
            | inl none_there ↦ rw none_there refl
            | inr (y, ey) ↦ rw ey (
                hang-found y (suc m) (p * 512 + j) is (h.below x m p j y e small.0 ey)
                  (omega (arith, len)) small.1)
          ])
  ]

  pub hung_place : ℕ → Option Place
  hung_place x = if x == u then some (suc l0, p0 * 512 + i) else place x

  pub hung_place_u : hung_place u ≡ some (suc l0, p0 * 512 + i)
  unfolding hung_place
  hung_place_u = ground arith

  hung_place_kept : (x : ℕ) (to : Place) → place x ≡ some to → hung_place x ≡ some to
  unfolding hung_place
  hung_place_kept x to e =
      let other : (x == u) ≡ false = ground (arith, placed_other x to e) in rw other e

  hung_place_other : (x : ℕ) → (x == u) ≡ false → hung_place x ≡ place x
  unfolding hung_place
  hung_place_other x e = rw e refl

  hang-below :
      (x l p j v : ℕ)
      → hung_place x ≡ some (suc (suc l), p)
      → j < 512
      → child s' x j ≡ some v
      → hung_place v ≡ some (suc l, p * 512 + j)
  hang-below x l p j v e near c = elim (Bool-cases (x == u)) [
    | inl is_u ↦
        let same : x ≡ u = ground (arith, is_u) in
        absurd (ground (arith, empty j, c, ap (λ y. child s' y j) same))
    | inr not_u ↦
        let before : place x ≡ some (suc (suc l), p) = sym (hung_place_other x not_u) ∙ e in
        elim (Bool-cases (x == t && j == i)) [
          | inl here ↦
              let a : x ≡ t = ground (arith, here) in
              let b : j ≡ i = ground (arith, here) in
              let to_u : v ≡ u =
                ground (arith, hung, c, ap (λ y. child s' y j) a, ap (child s' t) b) in
              let level : some (suc l0, p0 * 512 + i) ≡ some (suc l, p * 512 + j) =
                ap (λ k. some (suc l0, p0 * 512 + k)) (sym b)
                ∙ ap (next_place j) (sym at ∙ ap place (sym a) ∙ before) in
              ap hung_place to_u ∙ hung_place_u ∙ level
          | inr there ↦
              hung_place_kept v (suc l, p * 512 + j)
                (h.below x l p j v before near
                  (sym (others x j (λ same. ground (arith, not_u, same)) there) ∙ c))
        ]
  ]

  pub hang-Grows :
      s'.spaces ≡ s.spaces → s'.kernel_pml4 ≡ s.kernel_pml4 → Grows s s' place hung_place
  hang-Grows spaces kernel = record {
    kept = hung_place_kept;
    found = hang-found;
    child_kept = λ x to j v e c. elim (Bool-cases (x == t && j == i)) [
      | inl here ↦
          let a : x ≡ t = ground (arith, here) in
          let b : j ≡ i = ground (arith, here) in
          absurd (ground (arith, absent, c, ap (λ y. child s y j) a, ap (child s t) b))
      | inr there ↦ others x j (placed_other x to e) there ∙ c
    ];
    same_spaces = spaces;
    same_kernel = kernel;
  }

  pub hang-IsTree :
      ((q : ℕ) → is_used s.pmm q ≡ true → is_used s'.pmm q ≡ true)
      → u ≡ page_of u
      → is_used s'.pmm (u / page_size) ≡ true
      → IsValid s'.pmm
      → IsTree s' root hung_place
  hang-IsTree still whole now valid = record {
    top = hung_place_kept root (4, 0) h.top;
    below = hang-below;
    used = λ x to e. elim (Bool-cases (x == u)) [
      | inl is_u ↦
          let same : u ≡ x = ground (arith, is_u) in
          subst (λ y. (y ≡ page_of y) × (is_used s'.pmm (y / page_size) ≡ true)) same (whole, now)
      | inr not_u ↦
          let (page, busy) = h.used x to (sym (hung_place_other x not_u) ∙ e) in
          (page, still (x / page_size) busy)
    ];
    pages = valid;
  }
