-- ===== src/Block/Gpt.antt =====
-- src/kernel/block/block_gpt.c: the partitions of a GPT table. Its function for names is that of
-- block_mbr.c.
use blackmount.Common.{
  ℕ, zero, suc, ◌+◌, ◌-◌, ◌*◌, ◌/◌, ◌%◌, ◌^◌, Bool, true, false, ◌||◌, not, Option, none, some, ltb,
  ◌==◌, if◌then◌else◌,
}
use blackmount.Memory.{Mem}
use blackmount.Block.{BlockDevice, Devices, read, word32, block_register, make_partition_name}

abbrev word64 : Mem → ℕ → ℕ
word64 m p = word32 m p + word32 m (p + 4) * 2 ^ 32

-- Are the `n` bytes from `p` on zero?
abbrev guid_is_zero : Mem → ℕ → ℕ → Bool
guid_is_zero m p zero = true
guid_is_zero m p (suc n) =
    let rest : Bool = guid_is_zero m (p + 1) n in if not (m p == 0) then false else rest

-- The fields of the header that are read.
pub record GptHeader : Type 0 where
  pub signature : ℕ
  pub partition_entry_lba : ℕ
  pub partition_entry_count : ℕ
  pub partition_entry_size : ℕ

unfoldable pub header_at : Mem → ℕ → GptHeader
header_at m sector = record {
  signature = word64 m sector;
  partition_entry_lba = word64 m (sector + 72);
  partition_entry_count = word32 m (sector + 80);
  partition_entry_size = word32 m (sector + 84);
}

-- The fields of an entry that are read.
pub record GptPartitionEntry : Type 0 where
  pub unused : Bool
  pub start_lba : ℕ
  pub end_lba : ℕ

unfoldable pub gpt_entry_at : Mem → ℕ → GptPartitionEntry
gpt_entry_at m entry = record {
  unused = guid_is_zero m entry 16;
  start_lba = word64 m (entry + 32);
  end_lba = word64 m (entry + 40);
}

unfoldable pub gpt_partition : BlockDevice → ℕ → GptPartitionEntry → BlockDevice
gpt_partition dev i entry = record dev {
  name = make_partition_name dev.name i;
  sector_count = (entry.end_lba - entry.start_lba + 1) % 2 ^ 64;
  lba_offset = (dev.lba_offset + entry.start_lba) % 2 ^ 64;
}

-- Registers `n` entries from `i` on, and counts those that the device table took.
unfoldable pub gpt_register_from :
    Mem → ℕ → GptHeader → BlockDevice → ℕ → ℕ → ℕ → Devices → ℕ × Devices
unfolding gpt_entry_at gpt_partition
gpt_register_from m table header dev i zero registered devices = (registered, devices)
gpt_register_from m table header dev i (suc n) registered devices =
    let entry : GptPartitionEntry =
      gpt_entry_at m (table + i * header.partition_entry_size % 2 ^ 32) in
    let added : Bool × Devices = block_register devices (gpt_partition dev i entry) in
    let skipped : ℕ × Devices = gpt_register_from m table header dev (i + 1) n registered devices in
    let taken : ℕ × Devices =
      gpt_register_from m table header dev (i + 1) n
        (if added.0 then registered + 1 else registered) added.1 in
    if entry.unused
    then skipped
    else if entry.start_lba == 0 || ltb entry.end_lba entry.start_lba
    then skipped
    else taken

-- The number of sectors that hold the table.
unfoldable pub table_sectors : GptHeader → ℕ → ℕ
table_sectors header entries_per_sector =
    (header.partition_entry_count + entries_per_sector - 1) % 2 ^ 32 / entries_per_sector

-- The part behind the tests of the header, with `table` the second buffer.
unfoldable pub register_table :
    ℕ → Mem → Devices → BlockDevice → GptHeader → ℕ → Bool × Mem × Devices
unfolding table_sectors gpt_register_from
register_table table m devices dev header entries_per_sector =
    let (ok, m') =
      read dev.driver m dev header.partition_entry_lba (table_sectors header entries_per_sector)
        table in
    if not ok
    then (false, m', devices)
    else let registered : ℕ × Devices =
        gpt_register_from m' table header dev 0 header.partition_entry_count 0 devices in
      (ltb 0 registered.0, m', registered.1)

-- `sector` and `table` are the buffers that `kmalloc` gives. There is no result when the division by
-- the number of entries of a sector faults: entries that are larger than a sector.
unfoldable pub gpt_register_partitions :
    ℕ → ℕ → Mem → Devices → BlockDevice → Option (Bool × Mem × Devices)
unfolding header_at register_table
gpt_register_partitions sector table m devices dev =
    let (ok, m') = read dev.driver m dev 1 1 sector in
    let header : GptHeader = header_at m' sector in
    if not ok
    then some (false, m', devices)
    else if not (header.signature == 0x5452415020494645)
    then some (false, m', devices)
    else if ltb header.partition_entry_size 128
    then some (false, m', devices)
    else if dev.sector_size / header.partition_entry_size == 0
    then none
    else some
        (register_table table m' devices dev header (dev.sector_size / header.partition_entry_size))
