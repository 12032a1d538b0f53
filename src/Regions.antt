-- ===== src/Regions.antt =====
-- Regions of a process' address space, runtime/mem/core.h: finding one (vmtree_fetch, entryto_vm),
-- laying out an empty tree (vmtree_lay), and giving back, growing and moving one (mem_free,
-- mem_realloc, mem_remap).
--
-- vmtree_fetch starts at the offset that offset_by_depth gives, to which the pagetree is not added, so
-- that it reads the words of memory there. vmto_entry is a parameter:
-- `at` is what it finds for the caller's address, and `entry_of` what it finds for a new one. `signed` stands for the comparison of vmto_entry with the entry's own address in
-- vmtree_fetch, on a `ret` that nothing declares; `expected_usage` is not declared either. `stack`
-- is what the array `phys` holds before it is written, and `place` its address.
pub mod Fetch
pub mod Resize
pub mod Teardown
mod Tests
use best_kernel.Base.{
  ℕ, zero, suc, ◌+◌, ◌-◌, ◌*◌, ◌/◌, ◌%◌, ◌^◌, bit_and, bit_or, ◌==◌, ◌!=◌, if◌then◌else◌, Bool,
  true, false, Option, some, none, List, [], ◌∷◌, u32, u64, shl64, ltb,
}
use best_kernel.Paging.{
  Process, get_multi_from_pagetype, offset_by_depth, memreq_template, deallocate_vm, vmto_entry,
  write_entries, smallpage, bigpage, segfault, reserve, writeback,
}
use best_kernel.Frames.{Frames, clear_bits, manipulate_phys, get_free_phys}

-- A negative number as a pointer.
abbrev pub minus : ℕ → ℕ
minus n = 2 ^ 64 - n

-- The loop over `j`, on the one entry that it looks at: does it reach `pages_number`?
unfoldable pub fits : ℕ → ℕ → ℕ → Bool
fits zero iterator entry = true
fits (suc left) iterator entry =
    let rest = fits left iterator entry in
    if iterator % 512 == 0
    then false
    else if bit_and entry 1 == 0
    then false
    else if bit_and entry (2 ^ 56) != 0
    then false
    else rest

-- `vm |= (whatever/g)<<(12+9*i); whatever %= g;` from `i` down to 1.
unfoldable pub add_indices : ℕ → ℕ → ℕ → ℕ
add_indices zero whatever vm = vm
add_indices (suc i) whatever vm =
    let g = get_multi_from_pagetype (suc i) in
    add_indices i (whatever % g) (bit_or vm (shl64 (whatever / g) (12 + 9 * suc i)))

unfoldable pub entryto_vm : ℕ → ℕ
unfolding add_indices
entryto_vm entry = add_indices smallpage (u32 entry) 0

-- The difference of an entry's address and the pagetree.
abbrev pub from_tree : (pagetree entry : ℕ) → ℕ
from_tree pagetree entry = u64 (entry + (2 ^ 64 - pagetree))

-- The outer loop, on the words of memory: the address that it returns, 0 at its end.
unfoldable pub fetch_from :
    (left iterator pointer pages_number pagetree : ℕ) → (ℕ → Bool) → (ℕ → ℕ) → ℕ
unfolding fits entryto_vm
fetch_from zero iterator pointer pages_number pagetree signed words = 0
fetch_from (suc left) iterator pointer pages_number pagetree signed words =
    let rest = fetch_from left (iterator + 1) pointer pages_number pagetree signed words in
    let vm = entryto_vm (from_tree pagetree (pointer + 8 * iterator)) in
    if fits pages_number iterator (words (pointer / 8 + iterator))
    then if signed (pointer + 8 * iterator) then vm else rest
    else rest

unfoldable pub vmtree_fetch : ℕ → ℕ → (ℕ → Bool) → Process → ℕ × Process
unfolding fetch_from
vmtree_fetch pages_number pagetype signed p = (
  fetch_from (get_multi_from_pagetype pagetype / 4096) 0 (offset_by_depth 0 pagetype) pages_number
      p.pagetree signed p.words,
  record p { calendar = 0 },
)

-- `for (i = first; i < first + left; ++i){ location[i] = default_entry|((something+i*512)<<13);}`
unfoldable pub sign_directory : ℕ → ℕ → ℕ → ℕ → ℕ → (ℕ → ℕ) → ℕ → ℕ
sign_directory zero i location something templ entries = entries
sign_directory (suc left) i location something templ entries =
    sign_directory left (i + 1) location something templ (λ a.
      if a == location / 8 + i then bit_or templ (shl64 (something + i * 512) 13) else entries a)

-- The loop over the tables of level `g`.
unfoldable pub sign_level : ℕ → ℕ → ℕ → ℕ → ℕ → (ℕ → ℕ) → ℕ → ℕ
sign_level zero i g something templ entries = entries
sign_level (suc left) i g something templ entries = sign_level left (i + 1) g something templ (λ a.
    if a == something / 8 + i
    then (if g != smallpage then bit_or templ (shl64 (something + i * 512) 13) else templ)
    else entries a)

-- `for (g = 0; !(SMALLPAGE<g); ++g)`; every level starts at the same `something`.
unfoldable pub sign_levels : ℕ → ℕ → ℕ → ℕ → ℕ → (ℕ → ℕ) → ℕ → ℕ
unfolding sign_level
sign_levels zero g level_length something templ entries = entries
sign_levels (suc left) g level_length something templ entries =
    let level_length' = u32 (level_length * 512) in
    sign_levels left (g + 1) level_length' something templ
      (sign_level level_length' 0 g something templ entries)

unfoldable pub vmtree_lay : ℕ → ℕ → (ℕ → ℕ) → ℕ → ℕ
unfolding sign_directory sign_levels
vmtree_lay expected_usage location entries =
    let templ = memreq_template bigpage segfault writeback 0 in
    let something = location + 512 * 8 in
    let used = sign_directory expected_usage 0 location something templ entries in
    let rest =
      sign_directory (512 - expected_usage - expected_usage) expected_usage location something templ
        used in
    sign_levels (smallpage + 1) 0 (512 * 8) something templ rest

-- What is left of a failed deallocate_vm: the signal.
abbrev pub signal : ℕ → Process → Process
signal segv p = record p { sigset = bit_or p.sigset segv }

-- manipulate_phys is given the array, not the addresses in it.
unfoldable pub mem_free :
    (segv place : ℕ) (at : Option ℕ) (pages_number pagetype off : ℕ)
    → Process
    → Frames
    → Process × Frames
mem_free segv place at pages_number pagetype off p f =
    let given = deallocate_vm at pages_number p in
    if given.2 != 0 then (signal segv given.0, f) else (
      record (given.0) {
        entries =
            write_entries pages_number 0 off (λ h. memreq_template pagetype reserve writeback 0)
              (vmto_entry off given.0).entries;
      },
      manipulate_phys place pages_number pagetype clear_bits f,
    )

-- An array with a list written from `at` on.
unfoldable pub write_list : ℕ → List ℕ → (ℕ → ℕ) → ℕ → ℕ
write_list at [] arr = arr
write_list at (v ∷ rest) arr = write_list (at + 1) rest (λ i. if i == at then v else arr i)

-- `off[h] = templ | phys[h]<<13`
unfoldable pub write_pages : ℕ → ℕ → ℕ → (ℕ → ℕ) → Process → Process
unfolding write_entries
write_pages off pages_number pagetype phys p = record p {
  entries =
      write_entries pages_number 0 off
        (λ h. bit_or (memreq_template pagetype reserve writeback 0) (shl64 (phys h) 13))
        (vmto_entry off p).entries;
}

-- The process after deallocate_vm, signalled where that fails.
abbrev pub given_back : ℕ → Process × List ℕ × ℕ → Process
given_back segv given = if given.2 != 0 then signal segv given.0 else given.0

-- mem_realloc once get_free_phys has returned; the new pages are written from `&phys[oldpages-1]` on.
unfoldable pub finish_realloc :
    (oldpages newpages pagetype vm off : ℕ) (phys : ℕ → ℕ) → List ℕ × ℕ → Process → ℕ × Process
unfolding write_list write_pages
finish_realloc oldpages newpages pagetype vm off phys free p =
    if free.1 != 0 then (minus 3, p) else (
      vm,
      write_pages off newpages pagetype (write_list (u32 (oldpages + (2 ^ 32 - 1))) free.0 phys) p,
    )

-- Empty where the search of get_free_phys does not end within the fuel.
unfoldable pub mem_realloc :
    (fuel segv : ℕ) (at : Option ℕ) (oldpages newpages pagetype : ℕ) (signed : ℕ → Bool)
    (entry_of stack : ℕ → ℕ)
    → Process
    → Frames
    → Option (ℕ × Process)
unfolding vmtree_fetch finish_realloc
mem_realloc fuel segv at oldpages newpages pagetype signed entry_of stack p f =
    let given = deallocate_vm at oldpages p in
    let fetched = vmtree_fetch newpages pagetype signed (given_back segv given) in
    let free = get_free_phys fuel (u32 (newpages + 2 ^ 32 - oldpages)) pagetype f in
    if ltb newpages oldpages
    then some (minus 1, p)
    else if fetched.0 == minus 1
    then some (minus 2, fetched.1)
    else elim free [
      | none ↦ none
      | some pages ↦ some (
          finish_realloc oldpages newpages pagetype fetched.0 (entry_of fetched.0)
            (write_list 0 given.1 stack) pages fetched.1)
    ]

-- `off[h] = templ | (phys+addition*h)<<13`: `phys` is the array of pointers, so a step is 8 bytes.
unfoldable pub mem_remap :
    (segv place : ℕ) (at : Option ℕ) (oldpages newpages pagetype : ℕ) (signed : ℕ → Bool)
    (entry_of : ℕ → ℕ)
    → Process
    → ℕ × Process
unfolding vmtree_fetch write_pages
mem_remap segv place at oldpages newpages pagetype signed entry_of p =
    let given = deallocate_vm at oldpages p in
    let fetched = vmtree_fetch newpages pagetype signed given.0 in
    if ltb newpages oldpages
    then (minus 1, p)
    else if given.2 != 0
    then (minus 1, signal segv given.0)
    else if fetched.0 == minus 1
    then (minus 2, fetched.1)
    else (
      fetched.0,
      write_pages (entry_of fetched.0) newpages pagetype
          (λ h. place + 8 * u32 (get_multi_from_pagetype pagetype * h)) fetched.1,
    )
