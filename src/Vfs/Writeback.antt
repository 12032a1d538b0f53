-- ===== src/Vfs/Writeback.antt =====
-- writeback_cycle of runtime/vfs/core.h: the pages that nobody listens to go back to the disk.
--
-- A file is taken with what the cycle reads of it. `file->disk` and `diskpos` are not declared, and
-- neither is `pages_count`: they are fields here. `dking->sync` is disk_sync. What `free` is given,
-- `file->mem->pool[i]<<5>>18<<1`, stands in the log, `i` being the slot of the file.
pub mod Pages
pub mod Memory
mod Tests
use best_kernel.Base.{
  ℕ, zero, suc, ◌+◌, ◌-◌, ◌*◌, ◌/◌, ◌%◌, ◌^◌, ◌==◌, ◌!=◌, ◌&&◌, if◌then◌else◌, List, [], ◌∷◌, ◌++◌,
  get_or, u32, u64, shl64, shr,
}
use best_kernel.Paging.{get_multi_from_pagetype}

pub record Cached : Type 0 where
  pub disk : ℕ
  pub diskpos : ℕ
  pub pool : List ℕ
  pub listeners : List ℕ
  pub mapped_pagetype : ℕ
  pub pages_count : ℕ
  pub pending_sync : ℕ

pub data Backward : Type 0 where
  write_page : (disk position buffer amount : ℕ) → Backward
  free_page : (physical pagetype : ℕ) → Backward
  sync_file : (findex : ℕ) → Backward

-- What the cycle changes: the pages in use, and what it has asked for.
pub record Cycle : Type 0 where
  pub used_memory : ℕ
  pub log : List Backward

-- One pass for a page that nobody listens to.
unfoldable pub give_page : (i h : ℕ) → Cached → Cycle → Cycle
unfolding get_multi_from_pagetype
give_page i h file s =
    let filemulti = get_multi_from_pagetype file.mapped_pagetype in
    record {
      used_memory = u64 (s.used_memory + 2 ^ 64 - filemulti / 4096);
      log =
          s.log
          ++ (write_page file.disk (u64 (file.diskpos + u32 (filemulti * h))) (get_or file.pool h 0)
                filemulti
              ∷ free_page (u64 (shr (shl64 (get_or file.pool i 0) 5) 18 * 2)) file.mapped_pagetype
              ∷ []);
    }

-- The loop over `h`, with the count `closedyet`.
unfoldable pub give_pages : (left i h closedyet : ℕ) → Cached → Cycle → Cycle × ℕ
unfolding give_page
give_pages zero i h closedyet file s = (s, closedyet)
give_pages (suc left) i h closedyet file s =
    let silent = get_or file.listeners h 0 == 0 in
    give_pages left i (h + 1) (if silent then closedyet else u32 (closedyet + 1)) file
      (if silent then give_page i h file s else s)

unfoldable pub write_back : (i : ℕ) → Cached → Cycle → Cycle
unfolding give_pages
write_back i file s =
    let (s', closedyet) = give_pages file.pages_count i 0 0 file s in
    if closedyet == file.pages_count && file.pending_sync != 0
    then record s' { log = s'.log ++ (sync_file i ∷ []) }
    else s'

-- `if (this->ckarray[i]){ … }`
unfoldable pub visit : (taken i : ℕ) → Cached → Cycle → Cycle
unfolding write_back
visit taken i file s = if taken != 0 then write_back i file s else s

-- The slots from `i` on: a check byte, and the file.
unfoldable pub writeback_from : (i : ℕ) → List (ℕ × Cached) → Cycle → Cycle
unfolding visit
writeback_from i [] s = s
writeback_from i ((taken, file) ∷ rest) s = writeback_from (i + 1) rest (visit taken i file s)

unfoldable pub writeback_cycle : List (ℕ × Cached) → Cycle → Cycle
unfolding writeback_from
writeback_cycle slots s = writeback_from 0 slots s
