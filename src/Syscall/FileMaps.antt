-- ===== src/Syscall/FileMaps.antt =====
-- File mappings: 020_SYSFMAP.cpp and 021_SYS_FUNMAP.cpp.
--
-- `maps` are the bytes that the descriptor keeps of its mapped pages, empty while the pointer is
-- null; kptralloc gives cleared memory. vmtree_fetch takes the page type and the number of pages in
-- the other order than it is given them, and so does pagetype_roundup in fmap. vmto_entry is
-- a parameter: `at` is the entry of the new region, or of the region to unmap with its page type.
use best_kernel.Base.{
  ℕ, zero, suc, ◌+◌, ◌/◌, ◌^◌, bit_or, ◌==◌, ◌!=◌, if◌then◌else◌, Bool, true, false, Option, some,
  none, get_or, ltb, u8, shl32, shl64, shr,
}
use best_kernel.Paging.{
  Process, get_multi_from_pagetype, memreq_template, mapped, writeback, mem_unmap, vmto_entry,
}
use best_kernel.Regions.{vmtree_fetch}
use best_kernel.Tables.{pagetype_roundup}
use best_kernel.Tasks.{sigkill}
use best_kernel.Vfs.{File}
use best_kernel.Syscall.{Kernel, Context, minus, sysret, file_of, bad_descriptor, forbidden}

-- What a mapping changes: the entries of the process, the counts of the file's pages, and the
-- descriptor's map.
pub record Mapping : Type 0 where
  pub process : Process
  pub counts : ℕ → ℕ
  pub maps : Option (ℕ → ℕ)

-- The loop of fmap, from page `g` of the file at entry `at`.
unfoldable pub map_pages : (left at g desc pagetype : ℕ) → Mapping → Mapping
map_pages zero at g desc pagetype s = s
map_pages (suc left) at g desc pagetype s =
    map_pages left (at + 1) (g + 1) desc pagetype (record s {
      process = record (s.process) {
        entries = λ a.
            if a == at
            then bit_or (bit_or (shl32 desc 13) (shl64 g 46))
                (memreq_template pagetype mapped writeback 0)
            else s.process.entries a;
      };
      counts = λ i. if i == g then u8 (s.counts i + 1) else s.counts i;
    })

-- The address that fmap returns, and the state.
unfoldable pub fmap :
    (signed : ℕ → Bool) (entry_of : ℕ → ℕ) (file : File) (desc amount offset : ℕ)
    → Mapping
    → ℕ × Mapping
unfolding map_pages vmtree_fetch pagetype_roundup
fmap signed entry_of file desc amount offset s =
    let pagetype = file.mem.mapped_pagetype in
    let pages_number = pagetype_roundup pagetype amount in
    let fetched = vmtree_fetch pagetype pages_number signed s.process in
    let s' = record s { process = fetched.1 } in
    let first = offset / get_multi_from_pagetype pagetype in
    if fetched.0 == 0 then (0, s') else (
      fetched.0,
      map_pages pages_number (entry_of fetched.0) first desc pagetype
          (record s' { process = vmto_entry (entry_of fetched.0) fetched.1 }),
    )

-- The loop of SYS_FMAP: the signals of the process, and the map.
unfoldable pub mark_maps : (left g : ℕ) → ℕ × (ℕ → ℕ) → ℕ × (ℕ → ℕ)
mark_maps zero g s = s
mark_maps (suc left) g s =
    mark_maps left (g + 1)
      (if s.1 g == 1 then bit_or s.0 sigkill else s.0, λ i. if i == g then 1 else s.1 i)

unfoldable pub sys_fmap :
    (write : ℕ) (signed : ℕ → Bool) (entry_of : ℕ → ℕ) (desc amount offset : ℕ)
    → Context
    → Kernel
    → Mapping
    → Kernel × Mapping
unfolding fmap mark_maps bad_descriptor forbidden
sys_fmap write signed entry_of desc amount offset c k s =
    let file = file_of k desc in
    let pagetype = file.mem.mapped_pagetype in
    let bytes : ℕ → ℕ = elim s.maps [ none ↦ λ i. 0 | some m ↦ m ] in
    let marked =
      mark_maps (pagetype_roundup amount pagetype) (offset / get_multi_from_pagetype pagetype)
        (k.process.sigset, bytes) in
    let k' = record k { process = record (k.process) { sigset = marked.0 } } in
    let done = fmap signed entry_of file desc amount offset (record s { maps = some marked.1 }) in
    if ltb (2 ^ 14) desc
    then (sysret (minus 3) k, s)
    else if bad_descriptor k desc
    then (sysret (minus 1) k, s)
    else if forbidden c k desc write
    then (sysret (minus 2) k, s)
    else (sysret done.0 k', done.1)

-- The loop that looks for the starting page: `if !(phys < file->mem->pool[i]){ break}`
unfoldable pub start_page : (left i phys : ℕ) → File → ℕ
start_page zero i phys file = i
start_page (suc left) i phys file =
    let rest = start_page left (i + 1) phys file in
    if ltb phys (get_or file.mem.pool i 0) then rest else i

-- Is one of the pages from `k` on not mapped?
unfoldable pub some_unmapped : (left k : ℕ) → (ℕ → ℕ) → Bool
some_unmapped zero k maps = false
some_unmapped (suc left) k maps =
    let rest = some_unmapped left (k + 1) maps in if maps k == 0 then true else rest

-- `for (k = i; k < i+keyse; ++k){ --file->mem->listeners[k];}`
unfoldable pub drop_listeners : (left k : ℕ) → (ℕ → ℕ) → ℕ → ℕ
drop_listeners zero k counts = counts
drop_listeners (suc left) k counts =
    drop_listeners left (k + 1) (λ i. if i == k then u8 (counts i + 255) else counts i)

unfoldable pub sys_funmap : (segv at pagetype amount : ℕ) → Kernel → Mapping → Kernel × Mapping
unfolding start_page some_unmapped drop_listeners mem_unmap
sys_funmap segv at pagetype amount k s =
    let s' = record s { process = vmto_entry at s.process } in
    let entry = s'.process.entries at in
    let multi = get_multi_from_pagetype pagetype in
    let file = file_of k (shr (shl64 entry 16) 48) in
    let phys = shr (shl64 entry 16) 29 / multi in
    let i = start_page file.mem.length 0 phys file in
    let keyse = amount / multi in
    let bytes : ℕ → ℕ = elim s.maps [ none ↦ λ j. 0 | some m ↦ m ] in
    let unmapped = mem_unmap segv at (amount / multi) pagetype s'.process in
    if ltb file.mem.length i
    then (sysret 1 k, s')
    else if keyse != 0
    then (sysret 2 k, s')
    else if some_unmapped keyse i bytes
    then (
      record k { process = record (k.process) { sigset = bit_or k.process.sigset sigkill } },
      s',
    )
    else (
      sysret unmapped.1 k,
      record s' { process = unmapped.0; counts = drop_listeners keyse i s.counts },
    )
