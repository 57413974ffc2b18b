-- ===== src/Vmm/Walk.antt =====
-- The walks of `vmm_map` in vmm.c from the top table to the last one, over a tree of tables.
use blackmount.Common.{
  ℕ, ◌+◌, ◌*◌, ◌<◌, ◌≡◌, refl, true, List, [], ◌∷◌, Option, none, some, ◌⊎◌, inl, inr, arith,
}
use blackmount.Vmm.{Vmm, pml4_index, pdpt_index, pd_index, vmm_get_next_level, and_then, walk}
use blackmount.Vmm.Tables.{find, Place, path, IsTree, upper}
use blackmount.Vmm.Grow.{Grows, Grows-trans}
use blackmount.Vmm.Step.{Stepped, next_level_lem}

and_then-none :
    (r : Option ℕ × Vmm) (f : ℕ → Vmm → Option ℕ × Vmm) → r.0 ≡ none → and_then r f ≡ (none, r.1)
and_then-none (o, s) f e = rw e refl

and_then-some :
    (r : Option ℕ × Vmm) (f : ℕ → Vmm → Option ℕ × Vmm) (u : ℕ)
    → r.0 ≡ some u
    → and_then r f ≡ f u r.1
and_then-some (o, s) f u e = rw e refl

-- A walk along indices keeps the tree, and ends at the table that the indices lead to.
pub record Walked (s : Vmm) (root : ℕ) (place : ℕ → Option Place) (t l p : ℕ) (is : List ℕ)
    (r : Option ℕ × Vmm) : Type 0 where
  pub place' : ℕ → Option Place
  pub tree : IsTree r.1 root place'
  pub grows : Grows s r.1 place place'
  pub ends :
      (r.0 ≡ none)
      ⊎ ((u : ℕ) × (r.0 ≡ some u) × (find r.1 t is ≡ some u) × (place' u ≡ some (l, path p is)))

last_step :
    (s : Vmm) (root t l p i : ℕ) (place : ℕ → Option Place) (r : Option ℕ × Vmm)
    → Stepped s root place t l p i r
    → Walked s root place t l p (i ∷ []) r
last_step s root t l p i place r h = record {
  place' = h.place';
  tree = h.tree;
  grows = h.grows;
  ends = elim h.ends [ inl e ↦ inl e | inr (u, e, c, at) ↦ inr (u, e, rw c refl, at) ];
}

-- One step, then a walk from the table that it ends at.
step_then :
    (s : Vmm) (root t l m p i : ℕ) (is : List ℕ) (place : ℕ → Option Place) (r : Option ℕ × Vmm)
    (at : Place) (f : ℕ → Vmm → Option ℕ × Vmm)
    → place t ≡ some at
    → (h : Stepped s root place t l p i r)
    → ((u : ℕ)
        → h.place' u ≡ some (l, p * 512 + i)
        → Walked r.1 root h.place' u m (p * 512 + i) is (f u r.1))
    → Walked s root place t m p (i ∷ is) (and_then r f)
step_then s root t l m p i is place r at f here h rest = elim h.ends [
  | inl e ↦
      rw (and_then-none r f e)
        (record { place' = h.place'; tree = h.tree; grows = h.grows; ends = inl refl })
  | inr (u, e, c, to) ↦
      let w = rest u to in
      rw (and_then-some r f u e) (record {
        place' = w.place';
        tree = w.tree;
        grows = Grows-trans s r.1 (f u r.1).1 place h.place' w.place' h.grows w.grows;
        ends = elim w.ends [
          | inl none_there ↦ inl none_there
          | inr (v, ev, found, at_v) ↦
              let still = w.grows.child_kept t at i u (h.grows.kept t at here) c in
              inr (v, ev, rw still found, at_v)
        ];
      })
]

walk_two :
    (s : Vmm) (root a p j k : ℕ) (place : ℕ → Option Place)
    → IsTree s root place
    → place a ≡ some (3, p)
    → j < 512
    → k < 512
    → Walked s root place a 1 p
        (j ∷ k ∷ [])
        (and_then (vmm_get_next_level s a j true 6) (λ pd s2. vmm_get_next_level s2 pd k true 6))
walk_two s root a p j k place h at_a near_j near_k =
    let st = next_level_lem s root a 1 p j place h at_a near_j in
    step_then s root a 2 1 p j (k ∷ []) place (vmm_get_next_level s a j true 6) (3, p)
      (λ pd s2. vmm_get_next_level s2 pd k true 6) at_a st
      (λ b at_b.
        last_step (vmm_get_next_level s a j true 6).1 root b 1 (p * 512 + j) k st.place'
          (vmm_get_next_level (vmm_get_next_level s a j true 6).1 b k true 6)
          (next_level_lem (vmm_get_next_level s a j true 6).1 root b 0 (p * 512 + j) k st.place'
            st.tree at_b near_k))

pub walk_lem :
    (s : Vmm) (root v : ℕ) (place : ℕ → Option Place)
    → IsTree s root place
    → Walked s root place root 1 0 (upper v) (walk s root v true 6)
unfolding walk
walk_lem s root v place h =
    let i = pml4_index v in
    let st = next_level_lem s root root 2 0 i place h h.top (omega arith) in
    step_then s root root 3 1 0 i (pdpt_index v ∷ pd_index v ∷ []) place
      (vmm_get_next_level s root i true 6) (4, 0) _ h.top st
      (λ a at_a.
        walk_two (vmm_get_next_level s root i true 6).1 root a (0 * 512 + i) (pdpt_index v)
          (pd_index v) st.place' st.tree at_a (omega arith) (omega arith))
