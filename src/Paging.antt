-- ===== src/Paging.antt =====
-- The page entries of runtime/mem/core.h: how an entry is made, read, mapped, taken back
-- and swapped out; Paging/Handlers serves a fault.
--
-- A page tree is read as the row of its 64-bit entries; `at` is the entry that vmto_entry found for
-- an address. An argument that a call leaves out (`exec` of memreq_template) is 0. A shift whose
-- count passes 31 is a shift of a 64-bit value. SIGSEGV enters as the number `segv`,
-- and the locks are taken and given back as stores of 255 and 0 in `calendar`.
--
-- The callers' test `ret == -1` is left out: vmtree_fetch never returns -1, and what it returns on
-- failure, null, is not tested; `at` is the entry that is found for it.
pub mod Entries
pub mod Mapping
pub mod Handlers
pub mod Faults
mod Tests
use best_kernel.Base.{
  ℕ, zero, suc, ◌+◌, ◌-◌, ◌*◌, ◌/◌, ◌%◌, ◌^◌, bit_and, bit_or, ◌==◌, ◌!=◌, if◌then◌else◌, Bool,
  true, false, Option, none, some, List, [], ◌∷◌, ltb, u16, u32, u64, shl32, shl64, shr,
}

-- enum pag
abbrev pub bigpage : ℕ
bigpage = 1

abbrev pub midpage : ℕ
midpage = 2

abbrev pub smallpage : ℕ
smallpage = 3

-- The modes, digits 9 to 11 of an entry.
abbrev pub segfault : ℕ
segfault = 0

abbrev pub mapped : ℕ
mapped = 1

abbrev pub reserve : ℕ
reserve = 2

abbrev pub swapped : ℕ
swapped = 3

abbrev pub file : ℕ
file = 4

-- enum cache
abbrev pub writeback : ℕ
writeback = 2

unfoldable pub get_multi_from_pagetype : ℕ → ℕ
get_multi_from_pagetype pagetype =
    if pagetype == midpage
    then 4096 * 512
    else if pagetype == bigpage
    then 4096 * 512 * 512
    else 4096

-- `for (i = 1; i < pagetype; ++i){ ret += h; h *= 512;}`
unfoldable pub add_levels : ℕ → ℕ → ℕ → ℕ
add_levels zero ret h = u64 ret
add_levels (suc left) ret h = add_levels left (ret + h) (u32 (h * 512))

unfoldable pub offset_by_depth : ℕ → ℕ → ℕ
unfolding add_levels
offset_by_depth pagetree pagetype =
    if pagetype == 0 then pagetree else add_levels (pagetype - 1) (512 * 8) 512

-- `ror32(cache,16); (ushort_t)cache <<=5; rol32(cache,16);`: what is shifted is the upper half.
abbrev pub rotate16 : ℕ → ℕ
rotate16 x = x % 2 ^ 16 * 2 ^ 16 + x / 2 ^ 16 % 2 ^ 16

unfoldable pub place_cache : ℕ → ℕ → ℕ
place_cache pagetype cache =
    if pagetype == smallpage
    then cache
    else let turned = rotate16 cache in
      rotate16 (turned / 2 ^ 16 * 2 ^ 16 + u16 (turned % 2 ^ 16 * 2 ^ 5))

unfoldable pub memreq_template : ℕ → ℕ → ℕ → ℕ → ℕ
unfolding place_cache
memreq_template pagetype mode cache exec =
    bit_or (bit_or (bit_or (shl32 mode 9) (place_cache pagetype cache)) (shl64 exec 63)) 1

-- `entry<<5>>18`
unfoldable pub physical : ℕ → ℕ
physical entry = shr (shl64 entry 5) 18

-- `directories` are the entries that vmto_entry passes before the one that it finds, `words` the memory
-- from address 0 on, by words, and `pagetree` the address of the tree.
pub record Process : Type 0 where
  pub entries : ℕ → ℕ
  pub directories : ℕ → List ℕ
  pub words : ℕ → ℕ
  pub pagetree : ℕ
  pub sigset : ℕ
  pub calendar : ℕ

-- `ret* |= 1<<56`
unfoldable pub sign : ℕ → (ℕ → ℕ) → ℕ → ℕ
sign at entries = λ a. if a == at then bit_or (entries a) (2 ^ 56) else entries a

unfoldable pub sign_all : List ℕ → (ℕ → ℕ) → ℕ → ℕ
unfolding sign
sign_all [] entries = entries
sign_all (d ∷ ds) entries = sign_all ds (sign d entries)

-- What vmto_entry writes on its way to the entry at `at`; it leaves 0 as the page type.
unfoldable pub vmto_entry : (at : ℕ) → Process → Process
unfolding sign sign_all
vmto_entry at p = record p { entries = sign at (sign_all (p.directories at) p.entries) }

-- `for (h = 0; h < pages_number; ++h){ off[h] = value(h);}`
unfoldable pub write_entries : ℕ → ℕ → ℕ → (ℕ → ℕ) → (ℕ → ℕ) → ℕ → ℕ
write_entries zero h at value entries = entries
write_entries (suc left) h at value entries =
    write_entries left (h + 1) at value (λ a. if a == at + h then value h else entries a)

-- `off[h] = templ`, with `templ` of mode RESERVE and cache type 0.
unfoldable pub mem_alloc : ℕ → ℕ → ℕ → Process → Process
unfolding write_entries vmto_entry
mem_alloc at pagetype pages_number p = record p {
  entries =
      write_entries pages_number 0 at (λ h. memreq_template pagetype reserve 0 0)
        (vmto_entry at p).entries;
}

-- `off[h] = templ | ((target+addition*h)<<13)`, with `addition` that of the page type 0.
unfoldable pub mem_map : ℕ → ℕ → ℕ → ℕ → ℕ → Process → Process
unfolding write_entries vmto_entry
mem_map at target pagetype pages_number cache p = record p {
  entries =
      write_entries pages_number 0 at
        (λ h.
          bit_or (memreq_template pagetype mapped cache 0)
            (shl64 (target + u32 (get_multi_from_pagetype 0 * h)) 13))
        (vmto_entry at p).entries;
}

-- `entry[i] = memreq_template(SMALLPAGE,MAP,cache,1) | user<<2`
unfoldable pub map_identity : ℕ → ℕ → ℕ → ℕ → Process → Process
unfolding write_entries
map_identity at pages_number cache user p = record p {
  entries =
      write_entries pages_number 0 at
        (λ i. bit_or (memreq_template smallpage mapped cache 1) (shl32 user 2)) p.entries;
}

-- Is `test` true of one of the entries?
unfoldable pub some_entry : ℕ → ℕ → (ℕ → Bool) → (ℕ → ℕ) → Bool
some_entry zero at test entries = false
some_entry (suc left) at test entries =
    if test (entries at) then true else some_entry left (at + 1) test entries

abbrev pub is_supervisor : ℕ → Bool
is_supervisor entry = bit_and entry 4 != 0

unfoldable pub read_physical : ℕ → ℕ → (ℕ → ℕ) → List ℕ
unfolding physical
read_physical zero at entries = []
read_physical (suc left) at entries = physical (entries at) ∷ read_physical left (at + 1) entries

-- The state, the array `physrets` and the code that deallocate_vm returns. `at` is empty for a null
-- pointer. The exit with code 3 leaves the lock taken.
unfoldable pub deallocate_vm : Option ℕ → ℕ → Process → Process × List ℕ × ℕ
unfolding some_entry read_physical write_entries vmto_entry
deallocate_vm none pages_number p = (record p { calendar = 0 }, [], 1)
deallocate_vm (some at) pages_number p =
    let p' = vmto_entry at p in
    if some_entry pages_number at is_supervisor p'.entries
    then (record p' { calendar = 255 }, [], 3)
    else (
      record p' {
        entries =
            write_entries pages_number 0 at (λ h. memreq_template 0 segfault writeback 0)
              p'.entries;
        calendar = 0;
      },
      read_physical pages_number at p'.entries,
      0,
    )

-- `off[h]<<53>>61 != mode::MAP`
abbrev pub not_mapped : ℕ → Bool
not_mapped entry = shr (shl64 entry 53) 61 != mapped

-- The loop of checks in mem_unmap: the code to return, or 0.
unfoldable pub check_unmap : ℕ → ℕ → (ℕ → ℕ) → ℕ
check_unmap zero at entries = 0
check_unmap (suc left) at entries =
    if is_supervisor (entries at)
    then 1
    else if not_mapped (entries at)
    then 2
    else check_unmap left (at + 1) entries

unfoldable pub finish_unmap : ℕ → ℕ → ℕ → ℕ → ℕ → Process → Process × ℕ
unfolding write_entries
finish_unmap code segv at pages_number pagetype p =
    if code == 1
    then (p, 1)
    else if code == 2
    then (record p { sigset = bit_or p.sigset segv }, 2)
    else (
      record p {
        entries =
            write_entries pages_number 0 at (λ h. memreq_template pagetype reserve writeback 0)
              p.entries;
      },
      0,
    )

unfoldable pub mem_unmap : ℕ → ℕ → ℕ → ℕ → Process → Process × ℕ
unfolding finish_unmap check_unmap vmto_entry
mem_unmap segv at pages_number pagetype p =
    let p' = vmto_entry at p in
    finish_unmap (check_unmap pages_number at p'.entries) segv at pages_number pagetype p'

-- The entry that exchange_swap leaves, and the address that it returns.
unfoldable pub exchange_swap : ℕ → ℕ → ℕ → ℕ × ℕ
unfolding physical
exchange_swap entry diskpos swap_number =
    let new_entry = shr (shl64 entry 55) 55 in
    (bit_or (bit_or (bit_or diskpos new_entry) (3 * 2 ^ 10)) (shl64 swap_number 57), physical entry)
