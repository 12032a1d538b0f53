-- ===== src/Syscall/Execution/Requests.antt =====
-- What exec asks for, and how often it starts BLOOD_LIBEL.
use best_kernel.Base.{
  ℕ, zero, suc, ◌+◌, ◌-◌, ◌≡◌, ◌==◌, if◌then◌else◌, Bool, true, false, List, [], ◌∷◌, ◌++◌,
}
use best_kernel.Tables.{tosmallpage}
use best_kernel.Paging.{offset_by_depth, smallpage}
use best_kernel.Syscall.Execution.{
  Demand, libel_count, load, alloc_process, alloc_pointers, alloc_thread, alloc_descriptor,
  alloc_segment, get_pages, Supply, Machine, Source, table_pages,
}

-- The calls that take something: pages of the file, slots of the pools, memory.
abbrev pub is_request : Demand → Bool
is_request (load _) = true
is_request alloc_process = true
is_request (alloc_pointers _) = true
is_request alloc_thread = true
is_request alloc_descriptor = true
is_request alloc_segment = true
is_request (get_pages _) = true
is_request _ = false

pub requests : List Demand → List Demand
requests [] = []
requests (x ∷ xs) = if is_request x then x ∷ requests xs else requests xs

-- The null ones of the values.
unfoldable pub nulls : List ℕ → ℕ
nulls [] = 0
nulls (n ∷ ns) = (if n == 0 then 1 else 0) + nulls ns

-- The calls ask for these things, and start BLOOD_LIBEL so often.
record Takes (xs taken : List Demand) (n : ℕ) : Type 0 where
  calls : requests xs ≡ taken
  count : libel_count xs ≡ n

abbrev null : ℕ → ℕ
null n = if n == 0 then 1 else 0

pub loads : (left i : ℕ) → List Demand
loads zero i = []
loads (suc left) i = load i ∷ loads left (i + 1)

unfoldable pub null_pages : (left i : ℕ) → (pages : ℕ → ℕ) → ℕ
null_pages zero i pages = 0
null_pages (suc left) i pages = (if pages i == 0 then 1 else 0) + null_pages left (i + 1) pages

-- All that starting a file of that many pages asks for.
pub wanted : (pages new_process : ℕ) → Machine → List Demand
unfolding loads
wanted pages new_process m =
    (load 0 ∷ loads (pages - 1) 1)
    ++ (alloc_process
        ∷ alloc_pointers 1
        ∷ alloc_pointers 2
        ∷ alloc_thread
        ∷ alloc_descriptor
        ∷ alloc_descriptor
        ∷ get_pages (tosmallpage (offset_by_depth new_process (smallpage + 1)))
        ∷ alloc_segment
        ∷ get_pages (table_pages m)
        ∷ get_pages 1
        ∷ [])

-- The BLOOD_LIBELs: one for each null that is tested, and those of make_stack.
abbrev pub failures : Source → Supply → ℕ
failures f s =
    null_pages (f.length - 1) 1 s.pages
    + nulls (
        s.process ∷ s.worker ∷ s.slots ∷ s.main_thread ∷ s.second_descriptor ∷ s.tree ∷ s.table
        ∷ [])
    + s.stack_libels
