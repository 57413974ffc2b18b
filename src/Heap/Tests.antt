-- ===== src/Heap/Tests.antt =====
-- Runs of heap.c, and its theorems at an input.
use blackmount.Common.{
  ℕ, ◌-◌, ◌^◌, ◌<◌, ◌≡◌, refl, inr, Bool, true, false, List, [], ◌∷◌, Option, none, some, ◌==◌,
  if◌then◌else◌, arith,
}
use blackmount.Heap.{
  Block, Heap, HeapStats, block_magic, default_heap_size, align, init_heap, kmalloc, malloc_walk,
  with_store, kfree, get_heap_stats, defrag_heap,
}
use blackmount.Heap.Chain.{allocation}
use blackmount.Heap.Malloc.{
  IsValid, allocated, Allocates, Outcome, kmalloc_lem, kmalloc_wraps, init_heap-IsValid,
}
use blackmount.Heap.Free.{Frees, kfree_lem, kfree_twice}
use blackmount.Heap.Defrag.{IsMerged, defrag_heap_lem}
use blackmount.Heap.Totals.{Reports, get_heap_stats_lem}

abbrev header : ℕ → Bool → ℕ → Block
header n free next = record { magic = block_magic; size = n; is_free = free; next = next }

-- 16 bytes in use at 64, then 96 free ones.
abbrev busy : Heap
busy = record {
  free_list = 64;
  heap_initialized = true;
  heap_start = 64;
  heap_size = 176;
  store = λ q. if q == 64 then header 16 false 112 else header 96 true 0;
}

abbrev cold : Heap
cold = record {
  free_list = 0;
  heap_initialized = false;
  heap_start = 0;
  heap_size = 0;
  store = λ q. header 0 false 0;
}

busy-IsValid : IsValid busy (112 ∷ [])
busy-IsValid = record {
  started = refl;
  first = refl;
  small = omega arith;
  high = omega arith;
  chain = (omega arith, refl, refl, refl, (omega arith, refl, refl, refl));
}

busy_allocation : allocated busy (112 ∷ []) 96 ≡ some 16
unfolding allocation
busy_allocation = refl

address : Option (ℕ × Heap) → ℕ
address none = 1
address (some (p, h)) = p

kmalloc_runs : address (kmalloc 8 true busy 20) ≡ 144
unfolding address kmalloc malloc_walk with_store align
kmalloc_runs = refl

init_heap-IsValid_example :
    IsValid (init_heap true cold) []
    × ((p : ℕ) → allocated (init_heap true cold) [] p ≡ none)
    × ((init_heap true cold).heap_size ≡ default_heap_size)
init_heap-IsValid_example = init_heap-IsValid cold refl

kmalloc_lem_example : Outcome busy (112 ∷ []) 20 (align 20) (kmalloc 8 true busy 20)
kmalloc_lem_example =
    kmalloc_lem busy (112 ∷ []) busy-IsValid 8 (omega arith) true 20 (omega arith) (omega arith)

kmalloc_wraps_example :
    (p : ℕ) × (h' : Heap) × (a : Allocates busy (112 ∷ []) 0 p h') × (kmalloc 8 true busy
        (2 ^ 64 - 8)
      ≡ some (p, h'))
    × (a.bytes < 2 ^ 64 - 8)
kmalloc_wraps_example =
    kmalloc_wraps busy (112 ∷ []) busy-IsValid 8 (omega arith) true (2 ^ 64 - 8) 112 (omega arith)
      (omega arith) (inr refl) refl

kfree_lem_example : (h' : Heap) × (kfree 8 busy 96 ≡ some h') × Frees busy (112 ∷ []) 96 h'
kfree_lem_example =
    kfree_lem busy (112 ∷ []) busy-IsValid 8 (omega arith) 96 16 busy_allocation (omega arith)

kfree_twice_example : (h' : Heap) × (kfree 8 busy 96 ≡ some h') × (kfree 8 h' 96 ≡ some h')
kfree_twice_example =
    kfree_twice busy (112 ∷ []) 96 16 8 8 busy-IsValid (omega arith) busy_allocation (omega arith)

defrag_heap_lem_example :
    (h' : Heap) × (cs : List ℕ) × (defrag_heap 8 busy ≡ some h')
    × IsValid h' cs
    × IsMerged h'.store h'.heap_start cs
    × ((p : ℕ) → allocated h' cs p ≡ allocated busy (112 ∷ []) p)
defrag_heap_lem_example = defrag_heap_lem busy (112 ∷ []) 8 busy-IsValid (omega arith)

abbrev no_stats : HeapStats
no_stats = record {
  total_size = 0;
  used_size = 0;
  free_size = 0;
  num_blocks = 0;
  num_free_blocks = 0;
}

get_heap_stats_lem_example :
    (u : HeapStats) × (get_heap_stats 8 busy no_stats ≡ some u) × Reports busy 64 (112 ∷ []) u
get_heap_stats_lem_example =
    get_heap_stats_lem busy (112 ∷ []) 8 no_stats busy-IsValid (omega arith)
