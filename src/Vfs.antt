-- ===== src/Vfs.antt =====
-- The virtual filesystem of runtime/vfs/core.h: files, and reading, writing and loading them.
--
-- What a disk does is its driver's: a call that goes to the DisksKing, and some others of which only
-- the order matters here, are kept as requests in a log.
pub mod Transfer
pub mod Paths
pub mod Lookup
pub mod Writeback
mod Tests
use best_kernel.Base.{
  ℕ, zero, suc, ◌+◌, ◌*◌, ◌/◌, ◌%◌, ◌^◌, ◌==◌, if◌then◌else◌, ltb, List, [], ◌∷◌, ◌++◌, get_or, set,
  u32,
}
use best_kernel.Paging.{get_multi_from_pagetype}

pub data FileType : Type 0 where
  directory storage device connection : FileType

-- class meta
pub record Meta : Type 0 where
  pub name : List ℕ
  pub type : FileType
  pub mode : ℕ
  pub partition : ℕ
  pub relpos : ℕ
  pub length : ℕ

-- The pages of a file in memory, 0 where a page is not loaded, and their page type.
pub record MemFile : Type 0 where
  pub pool : List ℕ
  pub length : ℕ
  pub mapped_pagetype : ℕ

-- class File, as far as reading, writing and the system calls use it. `children` is the number of
-- entries in use of a directory.
pub record File : Type 0 where
  pub meta : Meta
  pub parent : ℕ
  pub double_link : ℕ
  pub children : ℕ
  pub mem : MemFile

-- enum permissions
abbrev pub read_permission : ℕ
read_permission = 1

abbrev pub write_permission : ℕ
write_permission = 2

-- The calls that leave the modelled state: those of the DisksKing, those that give back a slot of
-- a directory's pool or of the filesystem's, that unmap pages, and that set the clock.
pub data Request : Type 0 where
  disk_read : (partition position buffer amount : ℕ) → Request
  disk_write : (partition position buffer amount : ℕ) → Request
  rmfile : (findex : ℕ) → Request
  rmdir : (findex : ℕ) → Request
  disk_sync : (findex : ℕ) → Request
  free_child : (parent double_link : ℕ) → Request
  free_file : (findex : ℕ) → Request
  mem_free : (vm pages_number pagetype : ℕ) → Request
  set_timespec : (pointer : ℕ) → Request

-- The switch on the file's type, with `request` for what is neither a directory nor a device.
unfoldable pub transfer : FileType → Request → List Request → List Request × ℕ
transfer directory request log = (log, 1)
transfer device request log = (log, 2)
transfer storage request log = (log ++ request ∷ [], 0)
transfer connection request log = (log ++ request ∷ [], 0)

unfoldable pub read : File → ℕ → ℕ → ℕ → List Request → List Request × ℕ
unfolding transfer
read file buf amount offset log =
    if ltb file.meta.length offset
    then (log, 3)
    else transfer file.meta.type
        (disk_read file.meta.partition (file.meta.relpos + offset) buf amount) log

unfoldable pub write : File → ℕ → ℕ → ℕ → List Request → List Request × ℕ
unfolding transfer
write file buf amount offset log =
    if ltb file.meta.length offset
    then (log, 4)
    else transfer file.meta.type
        (disk_write file.meta.partition (file.meta.relpos + offset) buf amount) log

-- load_page: the disk is asked for 1 page. `fresh` is what malloc returns, 0 if there is no memory.
unfoldable pub load_page : File → ℕ → ℕ → List Request → File × List Request × ℕ
load_page file page fresh log =
    if ltb file.mem.length page
    then (file, log, 1)
    else if get_or file.mem.pool page 0 == 0
    then if fresh == 0 then (file, log, 0) else (
      record file { mem = record (file.mem) { pool = set file.mem.pool page fresh } },
      log
          ++ disk_read file.meta.partition
              (u32 (page * get_multi_from_pagetype file.mem.mapped_pagetype)) fresh 1
            ∷ [],
      fresh,
    )
    else (file, log, get_or file.mem.pool page 0)
