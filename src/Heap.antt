-- ===== src/Heap.antt =====
-- src/kernel/heap.c: the kernel heap, a chain of blocks laid out one behind the other.
-- The store gives the block header that is read at each address, so that a pointer is a number and
-- headers are shared through it; a null pointer is 0. Payload bytes are not in the store. Each loop
-- along the chain takes fuel, and `none` is a loop that ran out of it.
pub mod Chain
pub mod Walk
pub mod Carve
pub mod Absorb
pub mod Malloc
pub mod Free
pub mod Defrag
pub mod Totals
mod Tests
use blackmount.Common.{
  ℕ, zero, suc, ◌+◌, ◌-◌, ◌*◌, ◌/◌, ◌%◌, ◌^◌, Bool, true, false, Option, none, some, ltb, leb, ◌==◌,
  ◌&&◌, ◌||◌, not, if◌then◌else◌,
}

-- `struct Block`
pub record Block : Type 0 where
  pub magic : ℕ
  pub size : ℕ
  pub is_free : Bool
  pub next : ℕ

abbrev pub Store : Type 0
Store = ℕ → Block

abbrev pub block_magic : ℕ
block_magic = 0xDEADBEEF

-- `sizeof(Block)`: two padded 4-byte fields, an 8-byte size and a pointer.
abbrev pub block_header : ℕ
block_header = 32

abbrev pub u64_mod : ℕ
u64_mod = 2 ^ 64

abbrev pub heap_virtual_base : ℕ
heap_virtual_base = 0xFFFF_FFFF_9000_0000

abbrev pub default_heap_size : ℕ
default_heap_size = 16 * 1024 * 1024

-- The static variables, and the headers in memory.
pub record Heap : Type 0 where
  pub free_list : ℕ
  pub heap_initialized : Bool
  pub heap_start : ℕ
  pub heap_size : ℕ
  pub store : Store

abbrev pub put : Store → ℕ → Block → Store
put s p b q = if p == q then b else s q

-- `(size + 15) & ~15` on a `uint64_t`.
pub align : ℕ → ℕ
align size = (size + 15) % u64_mod / 16 * 16

-- `mapped`: did `vmm_alloc_pages` map the pages of the heap?
pub init_heap : Bool → Heap → Heap
init_heap mapped h =
    if h.heap_initialized
    then h
    else if mapped
    then record h {
      free_list = heap_virtual_base;
      heap_initialized = true;
      heap_start = heap_virtual_base;
      heap_size = default_heap_size;
      store = put h.store heap_virtual_base (record {
        magic = block_magic;
        size = default_heap_size - block_header;
        is_free = true;
        next = 0;
      });
    }
    else record h { heap_start = heap_virtual_base; heap_size = default_heap_size }

-- The block at `x` keeps `n` bytes, and a free block takes the rest behind it.
pub split : Store → ℕ → ℕ → Store
split s x n =
    let new : ℕ = x + block_header + n in
    put
      (put s new (record {
        magic = block_magic;
        size = (s x).size - n - block_header;
        is_free = true;
        next = (s x).next;
      }))
      x (record (s x) { size = n; next = new })

pub set_free : Store → ℕ → Bool → Store
set_free s x free = put s x (record (s x) { is_free = free })

-- What `kmalloc` does with the first block that fits.
pub carve : Store → ℕ → ℕ → Store
carve s x n =
    set_free (if leb ((n + block_header + 16) % u64_mod) (s x).size then split s x n else s) x false

-- The loop of `kmalloc` from the block at `current` on: the pointer returned, and the headers.
pub malloc_walk : ℕ → Store → ℕ → ℕ → Option (ℕ × Store)
malloc_walk zero s current n = none
malloc_walk (suc fuel) s current n =
    let rest = malloc_walk fuel s (s current).next n in
    if current == 0
    then some (0, s)
    else if not ((s current).magic == block_magic)
    then some (0, s)
    else if (s current).is_free && leb n (s current).size
    then some (current + block_header, carve s current n)
    else rest

pub with_store : Heap → Option (ℕ × Store) → Option (ℕ × Heap)
with_store h none = none
with_store h (some (p, s)) = some (p, record h { store = s })

pub kmalloc : ℕ → Bool → Heap → ℕ → Option (ℕ × Heap)
kmalloc fuel mapped h0 size =
    let h : Heap = if h0.heap_initialized then h0 else init_heap mapped h0 in
    if not h.heap_initialized
    then some (0, h)
    else if size == 0
    then some (0, h)
    else with_store h (malloc_walk fuel h.store h.free_list (align size))

-- `b->size += sizeof(Block) + b->next->size; b->next = b->next->next;`
pub absorb : Store → ℕ → Store
absorb s x =
    let b = s x in
    let c = s b.next in
    put s x (record b { size = (b.size + block_header + c.size) % u64_mod; next = c.next })

abbrev pub next_is_free : Store → ℕ → Bool
next_is_free s x = not ((s x).next == 0) && (s (s x).next).is_free

-- `while (current && current->next != block) current = current->next;`
pub find_previous : ℕ → Store → ℕ → ℕ → Option ℕ
find_previous zero s current block = none
find_previous (suc fuel) s current block =
    let rest = find_previous fuel s (s current).next block in
    if current == 0 then some 0 else if (s current).next == block then some current else rest

-- `if (current && current->is_free) { ... }`: the block before takes over the freed one.
pub join_previous : Store → Option ℕ → Option Store
join_previous s none = none
join_previous s (some current) =
    some (if not (current == 0) && (s current).is_free then absorb s current else s)

-- `kfree` behind its guards: the block is freed and joined with its free neighbours.
pub release : ℕ → Store → ℕ → ℕ → Option Store
release fuel s first block =
    let freed = set_free s block true in
    let joined = if next_is_free freed block then absorb freed block else freed in
    join_previous joined (find_previous fuel joined first block)

pub replace_store : Heap → Option Store → Option Heap
replace_store h none = none
replace_store h (some s) = some (record h { store = s })

pub kfree : ℕ → Heap → ℕ → Option Heap
kfree fuel h ptr =
    if ptr == 0
    then some h
    else if not h.heap_initialized
    then some h
    else if ltb ptr h.heap_start || leb ((h.heap_start + h.heap_size) % u64_mod) ptr
    then some h
    else if not ((h.store (ptr - block_header)).magic == block_magic)
    then some h
    else if (h.store (ptr - block_header)).is_free
    then some h
    else replace_store h (release fuel h.store h.free_list (ptr - block_header))

pub record HeapStats : Type 0 where
  pub total_size : ℕ
  pub used_size : ℕ
  pub free_size : ℕ
  pub num_blocks : ℕ
  pub num_free_blocks : ℕ

pub count_block : HeapStats → Block → HeapStats
count_block t b =
    if b.is_free
    then record t {
      num_blocks = t.num_blocks + 1;
      num_free_blocks = t.num_free_blocks + 1;
      free_size = (t.free_size + b.size) % u64_mod;
    }
    else record t { num_blocks = t.num_blocks + 1; used_size = (t.used_size + b.size) % u64_mod }

pub stats_walk : ℕ → Store → ℕ → HeapStats → Option HeapStats
stats_walk zero s current t = none
stats_walk (suc fuel) s current t =
    let rest = stats_walk fuel s (s current).next (count_block t (s current)) in
    if current == 0 then some t else rest

-- The record behind `stats` before the call is `t`, where it is not null.
pub get_heap_stats : ℕ → Heap → HeapStats → Option HeapStats
get_heap_stats fuel h t =
    if not h.heap_initialized
    then some t
    else stats_walk fuel h.store h.free_list (record {
      total_size = h.heap_size;
      used_size = 0;
      free_size = 0;
      num_blocks = 0;
      num_free_blocks = 0;
    })

pub defrag_walk : ℕ → Store → ℕ → Option Store
defrag_walk zero s current = none
defrag_walk (suc fuel) s current =
    let merged = defrag_walk fuel (absorb s current) current in
    let passed = defrag_walk fuel s (s current).next in
    if current == 0
    then some s
    else if (s current).is_free && next_is_free s current
    then merged
    else passed

pub defrag_heap : ℕ → Heap → Option Heap
defrag_heap fuel h =
    if not h.heap_initialized
    then some h
    else replace_store h (defrag_walk fuel h.store h.free_list)
