-- ===== src/Vfs/Writeback/Memory.antt =====
-- What the cycle takes off the count of the pages in use.
use best_kernel.Base.{
  ℕ, suc, zero, ◌+◌, ◌/◌, ◌%◌, ◌^◌, ◌≤◌, ◌≡◌, arith, ◌==◌, ◌!=◌, if◌then◌else◌, List, [], ◌∷◌,
  get_or, u32,
}
use best_kernel.Paging.{get_multi_from_pagetype}
use best_kernel.Vfs.Writeback.{
  Cached, Cycle, give_page, give_pages, write_back, visit, writeback_from, writeback_cycle,
}

-- The small pages that one page of the file has.
unfoldable pub small_pages_of : Cached → ℕ
small_pages_of file = get_multi_from_pagetype file.mapped_pagetype / 4096

small_pages_of-le : (file : Cached) → small_pages_of file ≤ 2 ^ 18
unfolding small_pages_of get_multi_from_pagetype
small_pages_of-le file = ground arith

-- The small pages of the pages from `h` on that nobody listens to.
unfoldable pub silent : (left h : ℕ) → Cached → ℕ
silent zero h file = 0
silent (suc left) h file =
    (if get_or file.listeners h 0 == 0 then small_pages_of file else 0) + silent left (h + 1) file

unfoldable pub silent_files : List (ℕ × Cached) → ℕ
unfolding silent
silent_files [] = 0
silent_files ((taken, file) ∷ rest) =
    (if taken != 0 then silent file.pages_count 0 file else 0) + silent_files rest

give_page-used :
    (i h : ℕ) (file : Cached) (s : Cycle)
    → ((give_page i h file s).used_memory + small_pages_of file) % 2 ^ 64 ≡ s.used_memory % 2 ^ 64
unfolding give_page small_pages_of
give_page-used i h file s = omega (arith, small_pages_of-le file)

give_pages-used :
    (left i h closedyet : ℕ) (file : Cached) (s : Cycle)
    → ((give_pages left i h closedyet file s).0.used_memory + silent left h file) % 2 ^ 64
      ≡ s.used_memory % 2 ^ 64
unfolding give_pages silent
give_pages-used zero i h closedyet file s = omega arith
give_pages-used (suc left) i h closedyet file s = ground (
  arith,
  give_pages-used left i (h + 1) closedyet file (give_page i h file s),
  give_pages-used left i (h + 1) (u32 (closedyet + 1)) file s,
  give_page-used i h file s,
)

visit-used :
    (taken i : ℕ) (file : Cached) (s : Cycle)
    → ((visit taken i file s).used_memory
          + (if taken != 0 then silent file.pages_count 0 file else 0))
        % 2 ^ 64
      ≡ s.used_memory % 2 ^ 64
unfolding visit write_back
visit-used taken i file s = ground (arith, give_pages-used file.pages_count i 0 0 file s)

writeback_from-used :
    (i : ℕ) (slots : List (ℕ × Cached)) (s : Cycle)
    → ((writeback_from i slots s).used_memory + silent_files slots) % 2 ^ 64
      ≡ s.used_memory % 2 ^ 64
unfolding writeback_from silent_files
writeback_from-used i [] s = omega arith
writeback_from-used i ((taken, file) ∷ rest) s =
    omega
      (arith, writeback_from-used (i + 1) rest (visit taken i file s), visit-used taken i file s)

-- A cycle takes off `used_memory`, as 64 digits, the small pages of the pages without a listener of
-- all files in use. It takes them off again in each cycle, since it leaves the pages in the files.
pub writeback_cycle-used :
    (slots : List (ℕ × Cached)) (s : Cycle)
    → ((writeback_cycle slots (writeback_cycle slots s)).used_memory
          + silent_files slots
          + silent_files slots)
        % 2 ^ 64
      ≡ s.used_memory % 2 ^ 64
unfolding writeback_cycle
writeback_cycle-used slots s =
    omega
      (arith, writeback_from-used 0 slots s, writeback_from-used 0 slots (writeback_from 0 slots s))
