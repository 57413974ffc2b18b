-- ===== src/Vmm/Grow.antt =====
-- What the steps of `vmm_get_next_level` and the writes of entries leave of the tree of tables.
use blackmount.Common.{
  ℕ, ◌/◌, ◌%◌, ◌<◌, ◌≡◌, refl, sym, ap, fun_ext, ◌∙◌, true, false, List, [], ◌∷◌, Option, none,
  some, length, bit_or, ◌==◌, ◌&&◌, if◌then◌else◌, inl, inr, Bool-cases, All, arith,
}
use blackmount.Common.Bits.{bit_or-mod, bit_or-page}
use blackmount.Vmm.{Vmm, page_of, is_present, pte_create, put_entry}
use blackmount.Vmm.Tables.{child, bind, find, Place, IsTree}

abbrev pub read_entry : ℕ → Option ℕ
read_entry e = if is_present e then some (page_of e) else none

-- The write of an entry, seen by `child`.
pub child-put_entry_self : (s : Vmm) (t i e : ℕ) → child (put_entry s t i e) t i ≡ read_entry e
unfolding child
child-put_entry_self s t i e = let here : (t == t && i == i) ≡ true = ground arith in rw here refl

pub child-put_entry_ne :
    (s : Vmm) (t i e x j : ℕ)
    → (x == t && j == i) ≡ false
    → child (put_entry s t i e) x j ≡ child s x j
unfolding child
child-put_entry_ne s t i e x j there = rw there refl

-- The flags that a walk adds to an entry change neither the page nor the presence.
read_entry-bit_or : (e : ℕ) → read_entry (bit_or e 6) ≡ read_entry e
read_entry-bit_or e =
    let page : bit_or e 6 / 4096 ≡ e / 4096 = bit_or-page e 6 (omega arith) in
    let last : bit_or e 6 % 2 ≡ e % 2 = omega (arith, bit_or-mod e 6) in rw (page, last) refl

pub read_entry-pte_create :
    (addr flags : ℕ)
    → flags < 4096
    → read_entry (pte_create addr (bit_or flags 1)) ≡ some (page_of addr)
read_entry-pte_create addr flags small =
    let all_small : bit_or flags 1 < 4096 =
      omega (arith, bit_or-page flags 1 (omega arith), small) in
    let page : bit_or (page_of addr) (bit_or flags 1) / 4096 ≡ addr / 4096 =
      omega (arith, bit_or-page (page_of addr) (bit_or flags 1) all_small) in
    let last : bit_or (page_of addr) (bit_or flags 1) % 2 ≡ 1 =
      omega (arith, bit_or-mod (page_of addr) (bit_or flags 1), bit_or-mod flags 1) in
    rw (page, last) refl

pub child-flags :
    (s : Vmm) (t i x j : ℕ) → child (put_entry s t i (bit_or (s.entries t i) 6)) x j ≡ child s x j
unfolding child
child-flags s t i x j = elim (Bool-cases (x == t && j == i)) [
  | inl here ↦
      let a : x ≡ t = ground (arith, here) in
      let b : j ≡ i = ground (arith, here) in rw (here, a, b) (read_entry-bit_or (s.entries t i))
  | inr there ↦ rw there refl
]

-- Where the children are the same, so is what indices lead to, and the tree.
pub find-congr :
    (s s' : Vmm)
    → ((x j : ℕ) → child s' x j ≡ child s x j)
    → (x : ℕ) (is : List ℕ) → find s' x is ≡ find s x is
find-congr s s' same x [] = refl
find-congr s s' same x (j ∷ is) =
    rw (same x j) (ap (bind (child s x j)) (fun_ext (λ u. find-congr s s' same u is)))

-- `s'` has the tables of `s` with what they map, and perhaps empty tables more.
pub record Grows (s s' : Vmm) (place place' : ℕ → Option Place) : Type 0 where
  pub kept : (x : ℕ) (at : Place) → place x ≡ some at → place' x ≡ some at
  pub found :
      (x l p : ℕ) (is : List ℕ)
      → place x ≡ some (l, p)
      → length is ≡ l
      → All (λ i. i < 512) is
      → find s' x is ≡ find s x is
  pub child_kept :
      (x : ℕ) (at : Place) (j u : ℕ)
      → place x ≡ some at
      → child s x j ≡ some u
      → child s' x j ≡ some u
  pub same_spaces : s'.spaces ≡ s.spaces
  pub same_kernel : s'.kernel_pml4 ≡ s.kernel_pml4

pub Grows-trans :
    (a b c : Vmm) (p q r : ℕ → Option Place) → Grows a b p q → Grows b c q r → Grows a c p r
Grows-trans a b c p q r g h = record {
  kept = λ x at e. h.kept x at (g.kept x at e);
  found = λ x l n is e len small.
      h.found x l n is (g.kept x (l, n) e) len small ∙ g.found x l n is e len small;
  child_kept = λ x at j u e is. h.child_kept x at j u (g.kept x at e) (g.child_kept x at j u e is);
  same_spaces = h.same_spaces ∙ g.same_spaces;
  same_kernel = h.same_kernel ∙ g.same_kernel;
}

-- A step that only sets flags.
pub flags-IsTree :
    (s : Vmm) (root t i : ℕ) (place : ℕ → Option Place)
    → IsTree s root place
    → IsTree (put_entry s t i (bit_or (s.entries t i) 6)) root place
flags-IsTree s root t i place h = record {
  top = h.top;
  below = λ x l p j u at near e. h.below x l p j u at near (sym (child-flags s t i x j) ∙ e);
  used = h.used;
  pages = h.pages;
}

pub flags-Grows :
    (s : Vmm) (t i : ℕ) (place : ℕ → Option Place)
    → Grows s (put_entry s t i (bit_or (s.entries t i) 6)) place place
flags-Grows s t i place =
    let s' = put_entry s t i (bit_or (s.entries t i) 6) in
    record {
      kept = λ x at e. e;
      found = λ x l p is e len small. find-congr s s' (child-flags s t i) x is;
      child_kept = λ x at j u e is. child-flags s t i x j ∙ is;
      same_spaces = refl;
      same_kernel = refl;
    }
