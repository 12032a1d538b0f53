-- ===== src/Disks.antt =====
-- class DisksKing of drivers/nonvolatile_storage/README.cpp: the partitions, and the requests to the
-- drivers of disks and filesystems.
--
-- What a driver answers is the driver's: `problem_ctl` and what it leaves in the memory that it is
-- given are parameters. memcpy of one structure is a store of its value. In disk_request the
-- entries of the caller's pagetree are those that vmto_entry finds; `window` is what mem_map
-- returns, `diskpos` a field of the partition that is not declared, and `files` gives the index of the file at
-- a place in the children of the disk's process. The macro `filesystem_request(a,action)` leaves out the data.
pub mod Partitions
pub mod Requests
mod Tests
use best_kernel.Base.{
  ℕ, zero, suc, ◌+◌, ◌-◌, ◌*◌, ◌/◌, ◌%◌, ◌^◌, ◌==◌, if◌then◌else◌, ltb, Option, some, none, List,
  [], ◌∷◌, ◌++◌, u32, u64,
}
use best_kernel.Paging.{get_multi_from_pagetype}
use best_kernel.Pool.{Hash, alloc}
use best_kernel.Tables.{pagetype_roundup}

-- class partition; it has 40 bytes.
pub record Partition : Type 0 where
  pub signature : ℕ
  pub disk : ℕ
  pub start : ℕ
  pub length : ℕ
  pub files_number : ℕ

-- The loop over `t` of load_partition_table: `found` is what the driver has filled in, `cells` the
-- partitions by the address of their slot.
unfoldable pub copy_partitions :
    (left t tryn : ℕ)
    → (found : ℕ → Partition) → Hash
    → (cells : ℕ → Partition) → Hash × (ℕ → Partition)
unfolding alloc
copy_partitions zero t tryn found h cells = (h, cells)
copy_partitions (suc left) t tryn found h cells =
    let (h', slot) = alloc 1 tryn h in
    let rest =
      copy_partitions left (t + 1) tryn found h' (λ a. if a == slot then found t else cells a) in
    if (found t).signature == 0 then (h, cells) else rest

-- `identify` is problem_ctl on the second sector, and `load` on the empty pages, with what it was told.
unfoldable pub load_partition_table :
    (identify : ℕ)
    → (load : ℕ → ℕ → Partition) → (tryn : ℕ) → Hash
    → (cells : ℕ → Partition) → Hash × (ℕ → Partition)
unfolding copy_partitions
load_partition_table identify load tryn h cells =
    copy_partitions (4096 * 512 / 40) 0 tryn (load identify) h cells

-- What disk_request does, in order.
pub data DiskStep : Type 0 where
  take_packet : DiskStep
  map_buffer : (destination pages : ℕ) → DiskStep
  start_thread : DiskStep
  ioctl : (fd action position buffer amount : ℕ) → DiskStep
  unmap_buffer : (buffer pages : ℕ) → DiskStep
  give_packet : DiskStep
  kill_thread : DiskStep

-- `for (1; l < repetitions; ++l){ if !(entry[g+1] == entry[g]+atom){ break;} }`
unfoldable pub streak : (left l g atom : ℕ) → (entries : ℕ → ℕ) → ℕ
streak zero l g atom entries = l
streak (suc left) l g atom entries =
    let rest = streak left (l + 1) g atom entries in
    if entries (g + 1) == u64 (entries g + atom) then rest else l

pub record Buffer : Type 0 where
  pub entries : ℕ → ℕ
  pub window : ℕ → ℕ → ℕ
  pub files : ℕ → ℕ
  pub position : ℕ
  pub base : ℕ
  pub action : ℕ

-- One pass, for `l` pages from page `g` on; the child of the driver is looked up after `g += l`.
unfoldable pub one_request : (g l atom : ℕ) → Buffer → List DiskStep
one_request g l atom b =
    let destination = u64 (b.base + u32 (g * atom)) in
    let buffer = b.window destination l in
    take_packet
    ∷ map_buffer destination l
    ∷ start_thread
    ∷ ioctl (b.files (u32 (g + l))) b.action b.position buffer atom
    ∷ unmap_buffer buffer l
    ∷ give_packet
    ∷ kill_thread
    ∷ []

-- The loop over `g`; empty where the fuel runs out.
unfoldable pub request_from :
    (fuel g repetitions atom : ℕ) → Buffer → List DiskStep → Option (List DiskStep)
unfolding streak one_request
request_from zero g repetitions atom b log = none
request_from (suc fuel) g repetitions atom b log =
    let l = streak repetitions 0 g atom b.entries in
    let rest = request_from fuel (u32 (g + l)) repetitions atom b (log ++ one_request g l atom b) in
    if ltb g repetitions then rest else some log

unfoldable pub disk_request : (fuel pagetype bytes_number : ℕ) → Buffer → Option (List DiskStep)
unfolding request_from get_multi_from_pagetype pagetype_roundup
disk_request fuel pagetype bytes_number b =
    request_from fuel 0 (u32 (pagetype_roundup bytes_number pagetype))
      (get_multi_from_pagetype pagetype) b []

-- The numbers that a filesystem's driver gives its methods, and the macros that call them.
abbrev pub filesystems : ℕ
filesystems = 3

abbrev pub load_method : ℕ
load_method = 10

abbrev pub filesync : ℕ
filesync = 9

abbrev pub create : ℕ
create = 5

abbrev pub remove : ℕ
remove = 6

-- `problem_ctl problem signature method` on a file, with the file that the driver leaves. `empty` is
-- a file of zeros.
module _ {File : Type 0} (problem_ctl : (problem signature method : ℕ) → File → File) where
  unfoldable pub load_file :
      (partitions : ℕ → Partition) → (partition diskpos : ℕ) → (empty : File) → File
  load_file partitions partition diskpos empty =
      problem_ctl filesystems (partitions partition).signature load_method empty

  unfoldable pub filesystem_request :
      (partitions : ℕ → Partition) → (partition action : ℕ) → File → File
  filesystem_request partitions partition action proto =
      problem_ctl 2 (partitions partition).signature action proto

  unfoldable pub mkfile : (partitions : ℕ → Partition) → (partition : ℕ) → File → File
  unfolding filesystem_request
  mkfile partitions partition proto = filesystem_request partitions partition create proto

  unfoldable pub rmfile : (partitions : ℕ → Partition) → (partition : ℕ) → File → File
  unfolding filesystem_request
  rmfile partitions partition proto = filesystem_request partitions partition remove proto

  unfoldable pub mkdir : (partitions : ℕ → Partition) → (partition : ℕ) → File → File
  unfolding filesystem_request
  mkdir partitions partition proto = filesystem_request partitions partition (remove + 2) proto

  unfoldable pub rmdir : (partitions : ℕ → Partition) → (partition : ℕ) → File → File
  unfolding filesystem_request
  rmdir partitions partition proto = filesystem_request partitions partition (remove + 2) proto

  unfoldable pub disk_sync : (partitions : ℕ → Partition) → (partition : ℕ) → File → File
  unfolding filesystem_request
  disk_sync partitions partition proto = filesystem_request partitions partition filesync proto
