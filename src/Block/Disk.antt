-- ===== src/Block/Disk.antt =====
-- What is written to a disk in memory is read back.
use blackmount.Common.{
  ◌^◌, sym, ltb, ◌*◌, ap, ℕ, ◌+◌, ◌-◌, ◌<◌, ◌≤◌, ◌≡◌, refl, ◌∙◌, Bool, true, false, ◌⊎◌, inl, inr,
  if◌then◌else◌, Bool-cases, arith,
}
use blackmount.Memory.{Mem, memcpy}
use blackmount.Memory.Laws.{within, memmove_lem, memcpy-eq-memmove}
use blackmount.Block.{BlockDevice, byte_count, sector_at, past_end, ramdisk_read, ramdisk_write}

-- The `n` bytes from `p` on and the `k` bytes from `q` on have no byte in common.
abbrev pub Apart : ℕ → ℕ → ℕ → ℕ → Type 0
Apart p n q k = (p + n ≤ q) ⊎ (q + k ≤ p)

copied :
    (m : Mem) (dst src n a : ℕ)
    → Apart dst n src n
    → memcpy m dst src n a ≡ (if within dst n a then m (src + (a - dst)) else m a)
copied m dst src n a apart =
    memcpy-eq-memmove m dst src n a (ground (arith, apart)) ∙ memmove_lem m dst src n a

-- Where the `count` sectors from `lba` on start in memory, and their length in bytes.
abbrev pub start_of : BlockDevice → ℕ → ℕ
start_of dev lba = dev.driver_data.base + (dev.lba_offset + lba) * dev.sector_size

abbrev pub length_of : BlockDevice → ℕ → ℕ
length_of dev count = count * dev.sector_size

-- The range of sectors ends at a number of 64 bits, and the memory up to its end has addresses.
pub record Placed (dev : BlockDevice) (lba count : ℕ) : Type 0 where
  pub no_wrap : (dev.lba_offset + lba) * dev.sector_size + count * dev.sector_size < 2 ^ 64
  pub below :
      dev.driver_data.base + (dev.lba_offset + lba) * dev.sector_size + count * dev.sector_size
      < 2 ^ 64

-- A write from `src` and a read to `dst`. The sectors end behind the disk, and both fail and change
-- nothing, or they end on the disk, both succeed, and the byte at `a` after each is the one copied
-- there, or else the one that was there.
abbrev pub Transferred : Mem → BlockDevice → ℕ → ℕ → ℕ → ℕ → ℕ → Bool × Mem → Bool × Mem → Type 0
Transferred m dev lba count src dst a (ok, m') (ok', m'') =
    ((dev.driver_data.size_bytes < (dev.lba_offset + lba) * dev.sector_size + length_of dev count)
      × (ok ≡ false)
      × (ok' ≡ false)
      × (m' ≡ m)
      × (m'' ≡ m))
    ⊎ (((dev.lba_offset + lba) * dev.sector_size + length_of dev count ≤ dev.driver_data.size_bytes)
        × (ok ≡ true)
        × (ok' ≡ true)
        × (m' a ≡ (
            if within (start_of dev lba) (length_of dev count) a
            then m (src + (a - start_of dev lba))
            else m a))
        × (m'' a ≡ (if within dst (length_of dev count) a then m (src + (a - dst)) else m' a)))

-- The model's numbers without the wrap.
plain_count :
    (dev : BlockDevice) (lba count : ℕ)
    → Placed dev lba count
    → byte_count dev count ≡ length_of dev count
plain_count dev lba count h = omega (arith, h.no_wrap)

plain_start :
    (dev : BlockDevice) (lba count : ℕ)
    → Placed dev lba count
    → sector_at dev lba ≡ start_of dev lba
plain_start dev lba count h = omega (arith, h.no_wrap, h.below)

plain_end :
    (dev : BlockDevice) (lba count : ℕ)
    → Placed dev lba count
    → past_end dev lba count
      ≡ ltb dev.driver_data.size_bytes
          ((dev.lba_offset + lba) * dev.sector_size + length_of dev count)
plain_end dev lba count h = ap (ltb dev.driver_data.size_bytes) (omega (arith, h.no_wrap))

copied_there :
    (m : Mem) (disk src dst n a : ℕ)
    → Apart disk n src n
    → Apart dst n disk n
    → memcpy (memcpy m disk src n) dst disk n a
      ≡ (if within dst n a then m (src + (a - dst)) else memcpy m disk src n a)
copied_there m disk src dst n a from to =
    copied (memcpy m disk src n) dst disk n a to
    ∙ ground (arith, copied m disk src n (disk + (a - dst)) from)

-- A write to sectors of a RAM disk from a buffer and a read of the same sectors into a buffer, where
-- the buffers lie outside the sectors and no 64-bit number wraps. If the sectors end behind the disk,
-- both fail and change nothing. Otherwise both succeed, the write puts the bytes of its buffer at the
-- sectors' place on the disk, counted from where the device starts, and changes no other byte, and the
-- read puts the bytes that were written into its buffer and changes no other byte.
pub ramdisk_read-ramdisk_write :
    (m : Mem) (dev : BlockDevice) (lba count src dst a : ℕ)
    → Placed dev lba count
    → Apart (start_of dev lba) (length_of dev count) src (length_of dev count)
    → Apart dst (length_of dev count) (start_of dev lba) (length_of dev count)
    → Transferred m dev lba count src dst a
        (ramdisk_write m dev lba count src)
        (ramdisk_read (ramdisk_write m dev lba count src).1 dev lba count dst)
unfolding ramdisk_read ramdisk_write
ramdisk_read-ramdisk_write m dev lba count src dst a h from to =
    elim (Bool-cases (past_end dev lba count)) [
      | inl past ↦
          let behind = sym (plain_end dev lba count h) ∙ past in
          rw past (inl (ground (arith, behind), refl, refl, refl, refl))
      | inr fits ↦
          let within_end = sym (plain_end dev lba count h) ∙ fits in
          rw (fits, plain_start dev lba count h, plain_count dev lba count h)
            (inr (
              ground (arith, within_end),
              refl,
              refl,
              copied m (start_of dev lba) src (length_of dev count) a from,
              copied_there m (start_of dev lba) src dst (length_of dev count) a from to,
            ))
    ]
