-- ===== src/Vmm/Tables.antt =====
-- What the page tables map, as a function of the indices, and when they form a tree.
use blackmount.Common.{
  ℕ, suc, ◌+◌, ◌*◌, ◌/◌, ◌%◌, ◌^◌, ◌<◌, ◌≡◌, refl, sym, ap, fun_ext, ◌∙◌, true, false, List, [],
  ◌∷◌, ◌++◌, Option, none, some, if◌then◌else◌, inl, inr, Bool-cases, arith,
}
use blackmount.Common.Bits.{bit_or-zero, bit_or-offset}
use blackmount.Pmm.{page_size}
use blackmount.Pmm.IsValid.{IsValid, is_used}
use blackmount.Vmm.{
  Vmm, page_of, is_present, put_entry, pml4_index, pdpt_index, pd_index, pt_index,
  vmm_get_next_level, walk, and_then, Space, pml4_of, vmm_get_physical, read_page,
}

-- The table, or the page, that an entry leads to.
unfoldable pub child : Vmm → ℕ → ℕ → Option ℕ
child s t i = if is_present (s.entries t i) then some (page_of (s.entries t i)) else none

abbrev pub bind : Option ℕ → (ℕ → Option ℕ) → Option ℕ
bind none f = none
bind (some u) f = f u

-- Follows the indices from a table on.
abbrev pub find : Vmm → ℕ → List ℕ → Option ℕ
find s t [] = some t
find s t (i ∷ is) = bind (child s t i) (λ u. find s u is)

-- Where a table stands: its level above the pages, and the indices on the way to it as one number.
abbrev pub Place : Type 0
Place = ℕ × ℕ

abbrev pub path : ℕ → List ℕ → ℕ
path p [] = p
path p (i ∷ is) = path (p * 512 + i) is

-- Tables form a tree from the top table `root`: `place` gives each table one place, an entry of it
-- that is present leads to the table at the place below, and tables are pages in use.
pub record IsTree (s : Vmm) (root : ℕ) (place : ℕ → Option Place) : Type 0 where
  pub top : place root ≡ some (4, 0)
  pub below :
      (t l p i u : ℕ)
      → place t ≡ some (suc (suc l), p)
      → i < 512
      → child s t i ≡ some u
      → place u ≡ some (suc l, p * 512 + i)
  pub used :
      (t : ℕ) (at : Place)
      → place t ≡ some at
      → (t ≡ page_of t) × (is_used s.pmm (t / page_size) ≡ true)
  pub pages : IsValid s.pmm

-- The indices of an address, to the last table and to the page.
abbrev pub upper : ℕ → List ℕ
upper v = pml4_index v ∷ pdpt_index v ∷ pd_index v ∷ []

abbrev pub indices : ℕ → List ℕ
indices v = pml4_index v ∷ pdpt_index v ∷ pd_index v ∷ pt_index v ∷ []

-- The page that the entries on the way of an address lead to as `PTE_GET_ADDR` reads them, which keeps
-- bits 52 to 63 of an entry: the page's physical address for entries without these bits.
abbrev pub mapping : Vmm → ℕ → ℕ → Option ℕ
mapping s root v = find s root (indices v)

-- The number of a page, of 36 binary digits.
abbrev pub page_number : ℕ → ℕ
page_number v = v / page_size % 2 ^ 36

pub path-indices : (v : ℕ) → path 0 (indices v) ≡ page_number v
path-indices v = omega arith

pub indices-page_of : (v : ℕ) → indices (page_of v) ≡ indices v
indices-page_of v =
    let a : pml4_index (page_of v) ≡ pml4_index v = omega arith in
    let b : pdpt_index (page_of v) ≡ pdpt_index v = omega arith in
    let c : pd_index (page_of v) ≡ pd_index v = omega arith in
    let d : pt_index (page_of v) ≡ pt_index v = omega arith in rw (a, b, c, d) refl

put_entry-same : (s : Vmm) (t i : ℕ) → put_entry s t i (s.entries t i) ≡ s
put_entry-same s t i =
    ap (λ (e : ℕ → ℕ → ℕ). record s { entries = e }) (fun_ext (λ x. fun_ext (λ j. ground arith)))

-- Without leave to create, a walk only looks up.
next_level_lookup : (s : Vmm) (t i : ℕ) → vmm_get_next_level s t i false 0 ≡ (child s t i, s)
unfolding vmm_get_next_level child
next_level_lookup s t i = elim (Bool-cases (is_present (s.entries t i))) [
  | inl there ↦
      rw (there, bit_or-zero (s.entries t i))
        (ap (λ r. (some (page_of (s.entries t i)), r)) (put_entry-same s t i))
  | inr absent ↦ rw absent refl
]

-- A step that changes nothing, then steps that change nothing.
and_then_lookup :
    (s : Vmm) (o : Option ℕ) (f : ℕ → Vmm → Option ℕ × Vmm) (g : ℕ → Option ℕ)
    → ((u : ℕ) → f u s ≡ (g u, s))
    → and_then (o, s) f ≡ (bind o g, s)
and_then_lookup s none f g h = refl
and_then_lookup s (some u) f g h = h u

bind-some : (o : Option ℕ) → bind o some ≡ o
bind-some none = refl
bind-some (some u) = refl

pub walk_lookup : (s : Vmm) (t v : ℕ) → walk s t v false 0 ≡ (find s t (upper v), s)
unfolding walk
walk_lookup s t v = rw (next_level_lookup s t (pml4_index v)) (
    and_then_lookup s (child s t (pml4_index v)) _ (λ a. find s a (pdpt_index v ∷ pd_index v ∷ []))
      (λ a. rw (next_level_lookup s a (pdpt_index v)) (
        and_then_lookup s (child s a (pdpt_index v)) _ (λ b. find s b (pd_index v ∷ []))
          (λ b.
            next_level_lookup s b (pd_index v)
            ∙ ap (λ o. (o, s)) (sym (bind-some (child s b (pd_index v))))))))

-- What is read for an address with such a page: the page with the offset.
abbrev pub reads : ℕ → Option ℕ → ℕ
reads v none = 0
reads v (some page) = page + v % page_size

bind_assoc : (o : Option ℕ) (f g : ℕ → Option ℕ) → bind o (λ u. bind (f u) g) ≡ bind (bind o f) g
bind_assoc none f g = refl
bind_assoc (some u) f g = refl

-- The last index is looked up in the table that the others lead to.
pub find-append :
    (s : Vmm) (t i : ℕ) (is : List ℕ)
    → find s t (is ++ (i ∷ [])) ≡ bind (find s t is) (λ u. child s u i)
find-append s t i [] = bind-some (child s t i)
find-append s t i (j ∷ is) =
    ap (bind (child s t j)) (fun_ext (λ u. find-append s u i is))
    ∙ bind_assoc (child s t j) (λ u. find s u is) (λ u. child s u i)

read_page_lem :
    (s : Vmm) (v : ℕ) (o : Option ℕ)
    → read_page v (o, s) ≡ (reads v (bind o (λ u. child s u (pt_index v))), s)
unfolding child
read_page_lem s v none = refl
read_page_lem s v (some pt) =
    let e : ℕ = s.entries pt (pt_index v) in
    elim (Bool-cases (is_present e)) [
      | inl there ↦
          rw there
            (ap (λ (a : ℕ). (a, s)) (bit_or-offset (e / page_size) (v % page_size) (omega arith)))
      | inr absent ↦ rw absent refl
    ]

pub get_physical_lem :
    (s : Vmm) (space : Space) (v : ℕ)
    → vmm_get_physical s space v ≡ (reads v (mapping s (pml4_of s space) v), s)
unfolding vmm_get_physical
get_physical_lem s space v =
    ap (read_page v) (walk_lookup s (pml4_of s space) v)
    ∙ read_page_lem s v (find s (pml4_of s space) (upper v))
    ∙ ap (λ o. (reads v o, s)) (sym (find-append s (pml4_of s space) (pt_index v) (upper v)))
