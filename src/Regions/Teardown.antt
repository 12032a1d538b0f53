-- ===== src/Regions/Teardown.antt =====
-- Taking a pagetree apart, recursive_free of runtime/mem/core.h, and the choice of a page type,
-- get_pagetype_from_number.
--
-- A table is the row of entries from its address on, counted in entries; the table below entry `i` is
-- read from `&pointer[i]`, as the code does. The call is taken at a page type of the enum: `depth` is
-- the number of levels below it. mem_free leaves out all arguments but the address, which stands in
-- the log. What the process' descriptors point to is `file_at`, and `dub*` stays at the first page.
pub mod Present
pub mod Choice
use best_kernel.Base.{
  ℕ, zero, suc, ◌+◌, ◌-◌, ◌*◌, ◌/◌, ◌%◌, ◌^◌, ◌==◌, ◌&&◌, if◌then◌else◌, bit_and, List, [], ◌∷◌,
  ◌++◌, get_or, u8, u32, shl64, shr, ltb,
}
use best_kernel.Paging.{smallpage, reserve, file}
use best_kernel.Regions.{entryto_vm}

-- A file as the descriptors of the process find it: its place, and its pages.
pub record Mapped : Type 0 where
  pub findex : ℕ
  pub pool : List ℕ
  pub length : ℕ

-- The check bytes of the files' pages, and the addresses given to mem_free.
pub record Teardown : Type 0 where
  pub ckarray : ℕ → ℕ → ℕ
  pub freed : List ℕ

-- `for (k = 0; k < length; ++k){ if (dub* == comp){ --ckarray[k]; break;} }`
unfoldable pub drop_page : (left k : ℕ) → (first comp findex : ℕ) → (ℕ → ℕ → ℕ) → ℕ → ℕ → ℕ
drop_page zero k first comp findex ck = ck
drop_page (suc left) k first comp findex ck =
    let rest = drop_page left (k + 1) first comp findex ck in
    if first == comp
    then (λ f p. if f == findex && (p == k) then u8 (ck f p + 255) else ck f p)
    else rest

-- The switch on `pointer[i]<<(64-9)>>55`.
unfoldable pub free_entry : (file_at : ℕ → Mapped) → (place entry : ℕ) → Teardown → Teardown
unfolding drop_page entryto_vm
free_entry file_at place entry s =
    let mode = shr (shl64 entry 55) 55 in
    let m = file_at (shr (shl64 entry 1) 49) in
    if mode == reserve
    then record s { freed = s.freed ++ (entryto_vm (8 * place) ∷ []) }
    else if mode == file
    then record s {
      ckarray =
          drop_page m.length 0 (get_or m.pool 0 0) (shr (shl64 entry 16) 29) m.findex s.ckarray;
    }
    else s

-- The body of the loop for the entry at `place`, with what is done for the table below it.
unfoldable pub free_pass :
    (file_at : ℕ → Mapped)
    → (entries : ℕ → ℕ) → (below : ℕ → Teardown → Teardown) → (place : ℕ) → Teardown
    → Teardown
unfolding free_entry
free_pass file_at entries below place s =
    let s' = free_entry file_at place (entries place) s in
    if bit_and (entries place) (2 ^ 56) == 0
    then s
    else if bit_and (entries place) 128 == 0
    then below place s'
    else s'

unfoldable pub free_table :
    (file_at : ℕ → Mapped)
    → (entries : ℕ → ℕ) → (below : ℕ → Teardown → Teardown) → (left place : ℕ) → Teardown
    → Teardown
unfolding free_pass
free_table file_at entries below zero place s = s
free_table file_at entries below (suc left) place s =
    free_table file_at entries below left (place + 1) (free_pass file_at entries below place s)

-- `below` does nothing where the page type is SMALLPAGE.
unfoldable pub recursive_free :
    (depth : ℕ) → (file_at : ℕ → Mapped) → (entries : ℕ → ℕ) → (pointer : ℕ) → Teardown → Teardown
unfolding free_table
recursive_free zero file_at entries pointer s =
    free_table file_at entries (λ place t. t) 512 pointer s
recursive_free (suc depth) file_at entries pointer s =
    free_table file_at entries (recursive_free depth file_at entries) 512 pointer s

-- `for (;; number; --pagetype){ number /= 512;}`, read as a loop while `number`, with the test after
-- it; `ustd_t` has 32 digits, so seven passes are enough.
unfoldable pub count_down : (fuel number pagetype : ℕ) → ℕ
count_down zero number pagetype = pagetype
count_down (suc fuel) number pagetype =
    let rest = count_down fuel (number / 512) (u32 (pagetype + (2 ^ 32 - 1))) in
    if number == 0 then pagetype else rest

unfoldable pub get_pagetype_from_number : ℕ → ℕ
unfolding count_down
get_pagetype_from_number number =
    let pagetype = u32 (count_down 7 (number / 4096) smallpage + 1) in
    if ltb smallpage pagetype then pagetype - 1 else pagetype
