-- ===== src/Block.antt =====
-- src/kernel/block: the table of block devices, disks in memory (block_ramdisk.c, block_image.c) and
-- the partitions of block_mbr.c; Gpt has those of block_gpt.c. A disk and its callers' buffers are
-- addresses of one memory; a device is a value, so what freeing its structure does is left out, and
-- `kmalloc`'s answers are arguments.
pub mod Disk
pub mod Register
pub mod Gpt
mod Tests
use blackmount.Common.{
  ℕ, zero, suc, ◌+◌, ◌*◌, ◌/◌, ◌%◌, ◌^◌, Bool, true, false, ◌&&◌, ◌||◌, not, Option, none, some,
  List, [], ◌∷◌, ◌++◌, ltb, ◌==◌, if◌then◌else◌,
}
use blackmount.Memory.{Mem, memcpy, memset}
use blackmount.Users.{str_eq}

-- Where a disk lies in memory.
pub record DiskMemory : Type 0 where
  pub base : ℕ
  pub size_bytes : ℕ

-- Which file's functions the device's pointers `read` and `write` name.
pub data Driver : Type 0 where
  ramdisk : Driver
  image : Driver

pub record BlockDevice : Type 0 where
  pub name : List ℕ
  pub sector_count : ℕ
  pub sector_size : ℕ
  pub lba_offset : ℕ
  pub driver_data : DiskMemory
  pub driver : Driver

abbrev pub byte_off : BlockDevice → ℕ → ℕ
byte_off dev lba = (dev.lba_offset + lba) * dev.sector_size % 2 ^ 64

abbrev pub byte_count : BlockDevice → ℕ → ℕ
byte_count dev count = count * dev.sector_size % 2 ^ 64

-- `ctx->data + byte_off`
abbrev pub sector_at : BlockDevice → ℕ → ℕ
sector_at dev lba = (dev.driver_data.base + byte_off dev lba) % 2 ^ 64

-- `byte_off + byte_count > ctx->size_bytes`
abbrev pub past_end : BlockDevice → ℕ → ℕ → Bool
past_end dev lba count =
    ltb dev.driver_data.size_bytes ((byte_off dev lba + byte_count dev count) % 2 ^ 64)

unfoldable pub ramdisk_read : Mem → BlockDevice → ℕ → ℕ → ℕ → Bool × Mem
ramdisk_read m dev lba count buf =
    if past_end dev lba count
    then (false, m)
    else (true, memcpy m buf (sector_at dev lba) (byte_count dev count))

unfoldable pub ramdisk_write : Mem → BlockDevice → ℕ → ℕ → ℕ → Bool × Mem
ramdisk_write m dev lba count buf =
    if past_end dev lba count
    then (false, m)
    else (true, memcpy m (sector_at dev lba) buf (byte_count dev count))

unfoldable pub image_read : Mem → BlockDevice → ℕ → ℕ → ℕ → Bool × Mem
image_read m dev lba count buf =
    if past_end dev lba count
    then (false, m)
    else (true, memcpy m buf (sector_at dev lba) (byte_count dev count))

unfoldable pub image_write : Mem → BlockDevice → ℕ → ℕ → ℕ → Bool × Mem
image_write m dev lba count buf =
    if past_end dev lba count
    then (false, m)
    else (true, memcpy m (sector_at dev lba) buf (byte_count dev count))

-- `dev->read`
unfoldable pub read : Driver → Mem → BlockDevice → ℕ → ℕ → ℕ → Bool × Mem
unfolding ramdisk_read image_read
read ramdisk = ramdisk_read
read image = image_read

-- A device of 512-byte sectors over a whole disk.
abbrev pub whole_disk : List ℕ → Driver → DiskMemory → BlockDevice
whole_disk name driver disk = record {
  name = name;
  sector_count = disk.size_bytes / 512;
  sector_size = 512;
  lba_offset = 0;
  driver_data = disk;
  driver = driver;
}

-- The answers of `kmalloc` are the disk's address and whether there is room for the two structures.
unfoldable pub ramdisk_create_blockdev :
    Option ℕ → Bool → Bool → Mem → List ℕ → ℕ → Option BlockDevice × Mem
ramdisk_create_blockdev none ctx dev m name size_bytes = (none, m)
ramdisk_create_blockdev (some at_data) ctx dev m name size_bytes =
    if size_bytes == 0 || not (size_bytes % 512 == 0) then (none, m) else (
      (if ctx && dev
          then some (whole_disk name ramdisk (record { base = at_data; size_bytes = size_bytes }))
          else none),
      memset m at_data 0 size_bytes,
    )

-- The boot loader's answer for the module is its address and size, if there is one. There is room for
-- the two structures: the code does not test what `kmalloc` answers.
unfoldable pub image_create_blockdev : Option DiskMemory → List ℕ → Option BlockDevice
image_create_blockdev none name = none
image_create_blockdev (some disk) name = some (whole_disk name image disk)

-- The table, which has `MAX_BLOCK_DEVICES` = 16 places.
abbrev pub Devices : Type 0
Devices = List (Option BlockDevice)

unfoldable pub block_register : Devices → BlockDevice → Bool × Devices
block_register [] dev = (false, [])
block_register (none ∷ ds) dev = (true, some dev ∷ ds)
block_register (some d ∷ ds) dev = let rest = block_register ds dev in (rest.0, some d ∷ rest.1)

unfoldable pub block_get : Devices → List ℕ → Option BlockDevice
block_get [] name = none
block_get (none ∷ ds) name = block_get ds name
block_get (some d ∷ ds) name = if str_eq d.name name then some d else block_get ds name

-- The decimal digits of a number, before those of `acc`. Each round drops one, so `n + 1` rounds do.
pub decimal : ℕ → ℕ → List ℕ → List ℕ
decimal zero n acc = acc
decimal (suc rounds) n acc =
    let more = decimal rounds (n / 10) ((48 + n % 10) ∷ acc) in
    if n / 10 == 0 then (48 + n % 10) ∷ acc else more

unfoldable pub make_partition_name : List ℕ → ℕ → List ℕ
unfolding decimal
make_partition_name base index = base ++ (112 ∷ decimal (index + 2) (index + 1) [])

-- A little-endian word of two or four bytes.
abbrev pub word16 : Mem → ℕ → ℕ
word16 m p = m p + m (p + 1) * 2 ^ 8

abbrev pub word32 : Mem → ℕ → ℕ
word32 m p = word16 m p + word16 m (p + 2) * 2 ^ 16

-- The fields of an entry that are read.
pub record MbrPartitionEntry : Type 0 where
  pub type : ℕ
  pub lba_start : ℕ
  pub sector_count : ℕ

-- `mbr->partitions[i]` of the table read to `mbr`.
unfoldable pub entry_at : Mem → ℕ → ℕ → MbrPartitionEntry
entry_at m mbr i =
    let entry : ℕ = mbr + 446 + i * 16 in
    record {
      type = m (entry + 4);
      lba_start = word32 m (entry + 8);
      sector_count = word32 m (entry + 12);
    }

unfoldable pub partition : BlockDevice → ℕ → MbrPartitionEntry → BlockDevice
unfolding make_partition_name
partition dev i entry = record dev {
  name = make_partition_name dev.name i;
  sector_count = entry.sector_count;
  lba_offset = (dev.lba_offset + entry.lba_start) % 2 ^ 64;
}

-- Registers the entries from `i` on, and counts those that the table took.
unfoldable pub register_from : Mem → ℕ → BlockDevice → ℕ → ℕ → ℕ → Devices → ℕ × Devices
unfolding entry_at partition block_register
register_from m mbr dev i zero registered devices = (registered, devices)
register_from m mbr dev i (suc n) registered devices =
    let entry : MbrPartitionEntry = entry_at m mbr i in
    let added : Bool × Devices = block_register devices (partition dev i entry) in
    let skipped : ℕ × Devices = register_from m mbr dev (i + 1) n registered devices in
    let taken : ℕ × Devices =
      register_from m mbr dev (i + 1) n (if added.0 then registered + 1 else registered) added.1 in
    if entry.type == 0 || entry.sector_count == 0 then skipped else taken

-- `mbr` is the buffer that `kmalloc` gives.
unfoldable pub mbr_register_partitions : ℕ → Mem → Devices → BlockDevice → Bool × Mem × Devices
unfolding register_from read
mbr_register_partitions mbr m devices dev =
    let (ok, m') = read dev.driver m dev 0 1 mbr in
    if not ok
    then (false, m', devices)
    else if not (word16 m' (mbr + 510) == 0xAA55)
    then (false, m', devices)
    else let registered : ℕ × Devices = register_from m' mbr dev 0 4 0 devices in
      (ltb 0 registered.0, m', registered.1)
