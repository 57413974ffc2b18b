-- ===== src/Block/Tests.antt =====
-- Runs of the block devices, and their theorems at an input.
use blackmount.Common.{
  ◌-◌, ◌≡◌, refl, ◌⊎◌, inr, Bool, true, none, some, [], ◌∷◌, replicate, ◌+◌, ◌^◌, ◌==◌,
  if◌then◌else◌, arith,
}
use blackmount.Memory.{Mem, memcpy}
use blackmount.Users.{str_eq}
use blackmount.Block.{
  BlockDevice, Devices, ramdisk, whole_disk, ramdisk_read, ramdisk_write, block_register, block_get,
  make_partition_name, decimal, read, partition, mbr_register_partitions, register_from, entry_at,
}
use blackmount.Block.Gpt.{gpt_register_partitions, header_at, table_sectors}
use blackmount.Block.Disk.{Placed, Transferred, ramdisk_read-ramdisk_write}
use blackmount.Block.Register.{Full, Entered, block_get-block_register}

-- A disk of two sectors at the address 4096.
abbrev disk : BlockDevice
disk = whole_disk (100 ∷ []) ramdisk (record { base = 4096; size_bytes = 1024 })

abbrev bytes : Mem
bytes a = 7

disk-Placed : Placed disk 1 1
disk-Placed = record { no_wrap = omega arith; below = omega arith }

ramdisk_read-ramdisk_write_example :
    Transferred bytes disk 1 1 0 8192 8195
      (ramdisk_write bytes disk 1 1 0)
      (ramdisk_read (ramdisk_write bytes disk 1 1 0).1 disk 1 1 8192)
ramdisk_read-ramdisk_write_example =
    ramdisk_read-ramdisk_write bytes disk 1 1 0 8192 8195 disk-Placed (inr (omega arith))
      (inr (omega arith))

abbrev no_devices : Devices
no_devices = replicate 16 none

block_get-block_register_example :
    Full no_devices (block_register no_devices disk)
    ⊎ Entered no_devices disk (100 ∷ []) (block_register no_devices disk)
unfolding block_get
block_get-block_register_example = block_get-block_register no_devices disk (100 ∷ []) refl

-- The eleventh partition of `d` is `dp11`.
eleventh_name : make_partition_name (100 ∷ []) 10 ≡ 100 ∷ 112 ∷ 49 ∷ 49 ∷ []
unfolding make_partition_name decimal
eleventh_name = refl

-- The sector number 2^55 wraps round to the first sector.
wraps : (ramdisk_read bytes disk (2 ^ 55) 1 8192).0 ≡ true
unfolding ramdisk_read
wraps = refl

-- A partition of one sector reads the sector behind it.
behind :
    (ramdisk_read bytes
      (partition disk 0 (record { type = 131; lba_start = 0; sector_count = 1 }))
      1
      1
      8192).0
    ≡ true
unfolding ramdisk_read partition make_partition_name decimal
behind = refl

-- A boot sector on the disk with one entry: type 131, 5 sectors from sector 1 on.
abbrev boot_sector : Mem
boot_sector a =
    if a == 4096 + 510
    then 0x55
    else if a == 4096 + 511
    then 0xAA
    else if a == 4096 + 450
    then 131
    else if a == 4096 + 454
    then 1
    else if a == 4096 + 458
    then 5
    else 0

abbrev partitioned : Bool × Mem × Devices
partitioned = mbr_register_partitions 512 boot_sector no_devices disk

one_partition : partitioned.0 ≡ true
unfolding mbr_register_partitions register_from entry_at partition make_partition_name decimal
    block_register read ramdisk_read memcpy
one_partition = refl

first_partition :
    block_get partitioned.2 (100 ∷ 112 ∷ 49 ∷ [])
    ≡ some (record disk { name = 100 ∷ 112 ∷ 49 ∷ []; lba_offset = 1; sector_count = 5 })
unfolding mbr_register_partitions register_from entry_at partition make_partition_name decimal
    block_register read ramdisk_read memcpy block_get str_eq
first_partition = refl

-- A GPT header that says its entries have 1,024 bytes.
abbrev large_entries : Mem
large_entries a =
    if a == 4096 + 512
    then 0x45
    else if a == 4096 + 513
    then 0x46
    else if a == 4096 + 514
    then 0x49
    else if a == 4096 + 515
    then 0x20
    else if a == 4096 + 516
    then 0x50
    else if a == 4096 + 517
    then 0x41
    else if a == 4096 + 518
    then 0x52
    else if a == 4096 + 519
    then 0x54
    else if a == 4096 + 597
    then 4
    else 0

-- With these the division faults.
faults : gpt_register_partitions 8192 16384 large_entries no_devices disk ≡ none
unfolding gpt_register_partitions header_at read ramdisk_read memcpy
faults = refl

-- A header with 2^32 - 1 entries has a table of no sectors.
no_sectors :
    table_sectors
      (record {
        signature = 0;
        partition_entry_lba = 2;
        partition_entry_count = 2 ^ 32 - 1;
        partition_entry_size = 128;
      })
      4
    ≡ 0
unfolding table_sectors
no_sectors = refl
