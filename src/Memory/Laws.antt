-- ===== src/Memory/Laws.antt =====
-- What the loops of memory.c leave in memory.
use blackmount.Common.{
  ℕ, zero, suc, ◌+◌, ◌-◌, ◌%◌, ◌≤◌, ◌<◌, ◌≡◌, refl, ◌⊎◌, inl, inr, ◌↔◌, ◌&&◌, Bool, ltb, leb,
  if◌then◌else◌, arith,
}
use blackmount.Memory.{
  Mem, write, memcpy_from, memcpy, memset_from, memset, memcmp_from, memcmp, move_up, move_down,
  memmove,
}

-- Is `a` one of the `n` addresses from `p` on?
abbrev pub within : ℕ → ℕ → ℕ → Bool
within p n a = leb p a && ltb a (p + n)

memset_from_lem :
    (n : ℕ) (m : Mem) (ptr value i a : ℕ)
    → memset_from m ptr value i n a ≡ (if within (ptr + i) n a then value % 256 else m a)
unfolding memset_from
memset_from_lem zero m ptr value i a = ground arith
memset_from_lem (suc n) m ptr value i a =
    ground (arith, memset_from_lem n (write m (ptr + i) (value % 256)) ptr value (i + 1) a)

-- `memset` writes the low byte of `value` to the `num` bytes from `ptr` on and to no other.
pub memset_lem :
    (m : Mem) (ptr value num a : ℕ)
    → memset m ptr value num a ≡ (if within ptr num a then value % 256 else m a)
unfolding memset
memset_lem m ptr value num a = ground (arith, memset_from_lem num m ptr value 0 a)

move_up_lem :
    (n : ℕ) (m : Mem) (d s a : ℕ)
    → d ≤ s
    → move_up m d s n a ≡ (if within d n a then m (s + (a - d)) else m a)
unfolding move_up
move_up_lem zero m d s a h = ground arith
move_up_lem (suc n) m d s a h = ground (arith, move_up_lem n (write m d (m s)) (d + 1) (s + 1) a)

move_down_lem :
    (n : ℕ) (m : Mem) (d s a : ℕ)
    → s ≤ d
    → move_down m d s n a ≡ (if within d n a then m (s + (a - d)) else m a)
unfolding move_down
move_down_lem zero m d s a h = ground arith
move_down_lem (suc n) m d s a h =
    ground (arith, move_down_lem n (write m (d + n) (m (s + n))) d s a)

-- `memmove` leaves at the destination what stood at the source before the call, also where the two
-- buffers overlap, and changes nothing else.
pub memmove_lem :
    (m : Mem) (dst src num a : ℕ)
    → memmove m dst src num a ≡ (if within dst num a then m (src + (a - dst)) else m a)
unfolding memmove
memmove_lem m dst src num a =
    ground (arith, move_up_lem num m dst src a, move_down_lem num m dst src a)

memcpy_from-eq-move_up :
    (n : ℕ) (m : Mem) (dst src i d s : ℕ)
    → d ≡ dst + i
    → s ≡ src + i
    → memcpy_from m dst src i n ≡ move_up m d s n
unfolding memcpy_from move_up
memcpy_from-eq-move_up zero m dst src i d s hd hs = refl
memcpy_from-eq-move_up (suc n) m dst src i d s hd hs =
    rw (hd, hs)
      (memcpy_from-eq-move_up n (write m (dst + i) (m (src + i))) dst src (i + 1) (dst + i + 1)
        (src + i + 1) (omega arith) (omega arith))

memcpy_from_apart :
    (n : ℕ) (m : Mem) (dst src i a : ℕ)
    → (dst + i + n ≤ src + i) ⊎ (src + i + n ≤ dst + i)
    → memcpy_from m dst src i n a
      ≡ (if within (dst + i) n a then m (src + i + (a - (dst + i))) else m a)
unfolding memcpy_from
memcpy_from_apart zero m dst src i a h = ground arith
memcpy_from_apart (suc n) m dst src i a h =
    ground (arith, memcpy_from_apart n (write m (dst + i) (m (src + i))) dst src (i + 1) a)

-- `memcpy` leaves the same memory as `memmove` when it copies downwards, the buffers overlapping or
-- not, and when it copies upwards past the end of its source.
pub memcpy-eq-memmove :
    (m : Mem) (dst src num a : ℕ)
    → (dst ≤ src) ⊎ (src + num ≤ dst)
    → memcpy m dst src num a ≡ memmove m dst src num a
unfolding memcpy
memcpy-eq-memmove m dst src num a (inl h) = ground (
  arith,
  memcpy_from-eq-move_up num m dst src 0 dst src (omega arith) (omega arith),
  move_up_lem num m dst src a h,
  memmove_lem m dst src num a,
)
memcpy-eq-memmove m dst src num a (inr h) =
    ground (arith, memcpy_from_apart num m dst src 0 a, memmove_lem m dst src num a)

abbrev pub SameBytes : Mem → ℕ → ℕ → ℕ → Type 0
SameBytes m p1 p2 num = (k : ℕ) → k < num → m (p1 + k) ≡ m (p2 + k)

memcmp_from_sound :
    (n : ℕ) (m : Mem) (p1 p2 i k : ℕ)
    → memcmp_from m p1 p2 i n ≡ 0
    → i ≤ k
    → k < i + n
    → m (p1 + k) ≡ m (p2 + k)
unfolding memcmp_from
memcmp_from_sound zero m p1 p2 i k h lo hi = absurd (omega arith)
memcmp_from_sound (suc n) m p1 p2 i k h lo hi =
    ground (arith, memcmp_from_sound n m p1 p2 (i + 1) k)

memcmp_from_complete :
    (n : ℕ) (m : Mem) (p1 p2 i : ℕ)
    → ((k : ℕ) → k < i + n → m (p1 + k) ≡ m (p2 + k))
    → memcmp_from m p1 p2 i n ≡ 0
unfolding memcmp_from
memcmp_from_complete zero m p1 p2 i same = refl
memcmp_from_complete (suc n) m p1 p2 i same = ground (
  arith,
  same i (omega arith),
  memcmp_from_complete n m p1 p2 (i + 1) (λ k h. same k (omega arith)),
)

-- `memcmp` returns 0 exactly when the `num` bytes of the two buffers agree.
pub memcmp_iff : (m : Mem) (p1 p2 num : ℕ) → (memcmp m p1 p2 num ≡ 0) ↔ SameBytes m p1 p2 num
unfolding memcmp
memcmp_iff m p1 p2 num = (
  λ h k hk. memcmp_from_sound num m p1 p2 0 k h (omega arith) (omega arith),
  λ same. memcmp_from_complete num m p1 p2 0 (λ k h. same k (omega arith)),
)
