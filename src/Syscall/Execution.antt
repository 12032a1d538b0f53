-- ===== src/Syscall/Execution.antt =====
-- exec of 023_SYSEXEC.cpp, which starts a program from its file, with what EXEC_CHECK_CHECKSUM tests.
--
-- The calls that exec makes on the other parts are listed in order, and what they return is a
-- `Supply`; a null one that is tested starts BLOOD_LIBEL. `libel_ends` says whether BLOOD_LIBEL returns
-- (Tasks/Sacrifice: it does not where process 0 is of type SYSTEM); where it does not, exec goes no
-- further than the first of them and has no result. The loops over the pages of the file go to
-- meta.length, as the code has it, which the filesystem counts in bytes. `id` is the identification as
-- its four words. The calls on a pool name it, get_pages its pages, and identity the start and the
-- pages. `start` and `length` of a segment come from the two words at `&gdt[g]`. What the code does not
-- declare or set enters as a parameter: `entry` where it is added to `start`, the pagetype that mem_map
-- gets, `process_index`. `found` is the pagetype that vmto_entry writes. The pointers that exec stores in
-- the new process are left out, and so are the tables of the checks.
mod Requests
mod Owners
mod Pages
mod Tests
use best_kernel.Base.{
  ℕ, zero, suc, ◌+◌, ◌-◌, ◌*◌, ◌/◌, ◌%◌, ◌^◌, ◌==◌, ◌!=◌, ◌&&◌, ◌||◌, if◌then◌else◌, Bool, true,
  false, Option, some, none, List, [], ◌∷◌, ◌++◌, bit_or, u32, u64, shl64,
}
use best_kernel.Tables.{tosmallpage}
use best_kernel.Paging.{offset_by_depth, memreq_template, smallpage, mapped, writeback}
use best_kernel.Tasks.Killing.{extract_segment_statistics}

pub record Header : Type 0 where
  pub heapsize : ℕ
  pub tls_size : ℕ
  pub stacksize : ℕ
  pub max_descriptors : ℕ
  pub start : ℕ
  pub program_type : ℕ
  pub id : ℕ → ℕ
  pub checksum : ℕ

-- The sum of the fields is one of ustd_t up to the program type, and one of ulong_t from there on.
pub check_checksum : Header → Bool
check_checksum h =
    let fields : ℕ =
      u32 (h.heapsize + h.tls_size + h.stacksize + h.max_descriptors + h.start + h.program_type) in
    u64 (fields + h.id 0 + h.id 1 + h.id 2 + h.id 3) == h.checksum

pub data Demand : Type 0 where
  load : (page : ℕ) → Demand
  alloc_process : Demand
  alloc_pointers : (number : ℕ) → Demand
  alloc_thread : Demand
  alloc_descriptor : Demand
  alloc_segment : Demand
  get_pages : (pages : ℕ) → Demand
  lay_tree : (pagetree : ℕ) → Demand
  identity : (target pages : ℕ) → Demand
  insert_table : (table : ℕ) → Demand
  map_shared : (target pages : ℕ) → Demand
  mark_user : (place : ℕ) → Demand
  write_entry : (place value : ℕ) → Demand
  lay_out_stack : Demand
  insert_segment : (size : ℕ) → Demand
  libel : Demand

-- What the calls return, and how often make_stack gets no page and starts BLOOD_LIBEL.
pub record Supply : Type 0 where
  pub pages : ℕ → ℕ
  pub process : ℕ
  pub worker : ℕ
  pub slots : ℕ
  pub main_thread : ℕ
  pub second_descriptor : ℕ
  pub tree : ℕ
  pub table : ℕ
  pub stack_libels : ℕ

-- The system segments, with tosmallpage(MAX16BIT) in `limit`, the code of the kernel, the threads that
-- `kontrol` allows and the number DEVDESC.
pub record Machine : Type 0 where
  pub pool : ℕ
  pub limit : ℕ
  pub low_entries : ℕ
  pub gdt : ℕ → ℕ × ℕ
  pub kernelcode : ℕ
  pub codesize : ℕ
  pub max_threads : ℕ
  pub device_index : ℕ

pub record Source : Type 0 where
  pub length : ℕ
  pub shared : ℕ → ℕ

-- `CONDITIONAL_BLOOD_LIBEL` on what a call returned.
pub tested : Demand → ℕ → List Demand
tested a given = a ∷ (if given == 0 then libel ∷ [] else [])

-- `for (i = 1; i < source->meta.length; ++i)`
pub load_rest : (left i : ℕ) → (pages : ℕ → ℕ) → List Demand
unfolding tested
load_rest zero i pages = []
load_rest (suc left) i pages = tested (load i) (pages i) ++ load_rest left (i + 1) pages

pub map_segments : (left g : ℕ) → (gdt : ℕ → ℕ × ℕ) → List Demand
unfolding extract_segment_statistics tosmallpage
map_segments zero g gdt = []
map_segments (suc left) g gdt =
    let (start, length) = extract_segment_statistics (gdt g) in
    identity start (tosmallpage length) ∷ map_segments left (g + 1) gdt

-- `something[o] |= 1<<2`
pub mark_table : (left o : ℕ) → List Demand
mark_table zero o = []
mark_table (suc left) o = mark_user o ∷ mark_table left (o + 1)

pub code_entry : (found page : ℕ) → ℕ
unfolding memreq_template
code_entry found page =
    bit_or (bit_or (memreq_template found mapped writeback 1) (shl64 page 12)) (shl64 1 63)

pub write_code : (left g found : ℕ) → (shared : ℕ → ℕ) → List Demand
unfolding code_entry
write_code zero g found shared = []
write_code (suc left) g found shared =
    write_entry g (code_entry found (shared g)) ∷ write_code left (g + 1) found shared

-- What the code sets in the new process and its thread.
pub record Program : Type 0 where
  pub owner_id : ℕ
  pub sigmask : ℕ
  pub sigset : ℕ
  pub workers : ℕ
  pub maximum : ℕ
  pub calendar : ℕ
  pub root_index : ℕ
  pub device_index : ℕ
  pub pagetree_length : ℕ
  pub instruction_pointer : ℕ
  pub ds : ℕ
  pub fs : ℕ
  pub taken : ℕ

pub record Caller : Type 0 where
  pub owner_id : ℕ
  pub sigset : ℕ
  pub root_index : ℕ

abbrev pub table_pages : Machine → ℕ
unfolding tosmallpage
table_pages m = tosmallpage (u32 ((m.max_threads + 4 + 1) * 16))

-- The pools are asked for the process, its arrays, its thread and its two descriptors, of which the
-- second is tested.
pub reserve_slots : Supply → List Demand
unfolding tested
reserve_slots s =
    tested alloc_process s.process
    ++ tested (alloc_pointers 1) s.worker
    ++ tested (alloc_pointers 2) s.slots
    ++ tested alloc_thread s.main_thread
    ++ (alloc_descriptor ∷ tested alloc_descriptor s.second_descriptor)

pub make_tree : (new_process : ℕ) → Machine → Supply → List Demand
unfolding tested map_segments tosmallpage offset_by_depth
make_tree new_process m s =
    tested (get_pages (tosmallpage (offset_by_depth new_process (smallpage + 1)))) s.tree
    ++ (lay_tree s.tree ∷ identity m.pool (m.limit) ∷ [])
    ++ map_segments m.low_entries 0 m.gdt
    ++ (identity m.kernelcode m.codesize ∷ [])

pub make_table : Machine → Supply → List Demand
unfolding tested mark_table
make_table m s =
    (alloc_segment ∷ tested (get_pages (table_pages m)) s.table)
    ++ (insert_table s.table ∷ map_shared s.table (table_pages m) ∷ [])
    ++ mark_table (table_pages m) 0

pub stack_failures : ℕ → List Demand
stack_failures zero = []
stack_failures (suc n) = libel ∷ stack_failures n

pub map_code : (found : ℕ) → Header → Source → Supply → List Demand
unfolding write_code stack_failures
map_code found h f s =
    (map_shared (f.shared 0) 1 ∷ write_code f.length 0 found f.shared)
    ++ (get_pages 1 ∷ lay_out_stack ∷ stack_failures s.stack_libels)
    ++ (insert_segment h.heapsize ∷ insert_segment h.tls_size ∷ [])

pub record Launch : Type 0 where
  pub result : Option ℕ
  pub actions : List Demand
  pub program : Option Program

-- The calls up to the first BLOOD_LIBEL.
pub until_libel : List Demand → List Demand
until_libel [] = []
until_libel (libel ∷ xs) = libel ∷ []
until_libel (x ∷ xs) = x ∷ until_libel xs

abbrev pub is_libel : Demand → ℕ
is_libel libel = 1
is_libel _ = 0

pub libel_count : List Demand → ℕ
libel_count [] = 0
libel_count (x ∷ xs) = is_libel x + libel_count xs

pub all_demands : (found : ℕ) → Machine → Source → Header → Supply → List Demand
unfolding load_rest reserve_slots make_tree make_table map_code
all_demands found m f h s =
    load 0 ∷ load_rest (f.length - 1) 1 s.pages
    ++ (reserve_slots s ++ make_tree s.process m s ++ make_table m s ++ map_code found h f s)

pub exec :
    (libel_ends : Bool) (system root process_index entry found : ℕ)
    → Caller
    → Machine
    → Source
    → Header
    → Supply
    → Launch
unfolding check_checksum all_demands until_libel libel_count
exec libel_ends system root process_index entry found c m f h s =
    let demands = all_demands found m f h s in
    if check_checksum h
    then if (h.program_type == system) && (c.owner_id != root)
      then record { result = some (2 ^ 64 - 2); actions = load 0 ∷ []; program = none }
      else if libel_ends || (libel_count demands == 0)
      then record {
        result = some process_index;
        actions = demands;
        program = some (record {
          owner_id = c.owner_id;
          sigmask = 0;
          sigset = c.sigset;
          workers = 1;
          maximum = h.max_descriptors;
          calendar = 0;
          root_index = c.root_index;
          device_index = m.device_index;
          pagetree_length = offset_by_depth s.process (smallpage + 1);
          instruction_pointer = u64 (h.start + entry);
          ds = 4;
          fs = 5;
          taken = 0;
        });
      }
      else record { result = none; actions = until_libel demands; program = none }
    else record { result = some (2 ^ 64 - 1); actions = load 0 ∷ []; program = none }
