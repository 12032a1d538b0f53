-- ===== src/Boot.antt =====
-- Booting, init/setup_kernel.cpp: the passes of setup_kernel over the memory map of the firmware, and
-- the pools and the name of the init system that finalize_kernel_data takes from the configuration.
--
-- A region is an efimap_descriptor, whose type the code calls memtype and whose attribute attributes.
-- `at` gives the entry of the kernel's page tree for an address. The map is the one that
-- get_uefi_memmap fills in; the first pass of the code stands before that call. A cache type is that of
-- the enum of runtime/mem/core.h, also where a macro of init/uefi.h has the same name.
-- `atoi_special`, which nothing declares, gives the number at an offset of the configuration and the
-- offset after it. What the assembly loads into control registers, and the addresses of the single
-- objects, are not modelled.
mod Caches
mod Addresses
mod Names
mod Tests
use best_kernel.Base.{
  ℕ, zero, suc, ◌+◌, ◌*◌, ◌/◌, ◌%◌, ◌^◌, ◌==◌, ◌!=◌, ◌||◌, if◌then◌else◌, Bool, true, false, List,
  [], ◌∷◌, bit_and, u32, u64, Option, some, none,
}
use best_kernel.Tables.{tosmallpage}
use best_kernel.Paging.{Process, map_identity, writeback, smallpage}
use best_kernel.Frames.{Frames, manipulate_phys, set_bits}

pub record Region : Type 0 where
  pub memtype : ℕ
  pub phys_start : ℕ
  pub virt_start : ℕ
  pub pages_number : ℕ
  pub attributes : ℕ

-- `for (i = 0; i < mapdata->mapsize; ++i){ trans->sizeof_memory += map[i]->pages_number;}`
pub sizeof_memory : ℕ → List Region → ℕ
sizeof_memory total [] = total
sizeof_memory total (r ∷ rs) = sizeof_memory (u64 (total + r.pages_number)) rs

-- The three physical addresses that the pass over the map finds.
pub record Translations : Type 0 where
  pub kerntree : ℕ
  pub efisystab : ℕ
  pub phys_ram_table : ℕ

pub find_address : (kerntree efisystab ramtab : ℕ) → Region → Translations → Translations
find_address kerntree efisystab ramtab r t =
    if r.virt_start == kerntree
    then record t { kerntree = r.phys_start }
    else if r.virt_start == efisystab
    then record t { efisystab = r.phys_start }
    else if r.virt_start == ramtab
    then record t { phys_ram_table = r.phys_start }
    else t

pub find_addresses : (kerntree efisystab ramtab : ℕ) → List Region → Translations → Translations
unfolding find_address
find_addresses kerntree efisystab ramtab [] t = t
find_addresses kerntree efisystab ramtab (r ∷ rs) t =
    find_addresses kerntree efisystab ramtab rs (find_address kerntree efisystab ramtab r t)

-- __CONVENTIONAL__ of the types of memory.
abbrev pub conventional : ℕ
conventional = 7

-- The tests on the type, by the numbers that the attributes have.
pub cache_of : ℕ → ℕ
cache_of memtype =
    if bit_and memtype 1 != 0
    then 0
    else if bit_and memtype 2 != 0
    then 5
    else if bit_and memtype 4 != 0
    then 1
    else if bit_and memtype 6 != 0
    then writeback
    else if bit_and memtype 8 != 0
    then 3
    else if bit_and memtype (2 ^ 12) != 0
    then 4
    else writeback

-- The physical memory and the page tree of the kernel while it boots.
pub record BootMemory : Type 0 where
  pub frames : Frames
  pub tree : Process

pub register_region : (at : ℕ → ℕ) → Region → BootMemory → BootMemory
unfolding cache_of
register_region at r b =
    if bit_and r.attributes conventional == 0
    then record b {
      frames = manipulate_phys r.phys_start r.pages_number smallpage set_bits b.frames;
    }
    else record b {
      tree = map_identity (at r.phys_start) r.pages_number (cache_of r.memtype) 1 b.tree;
    }

pub register_regions : (at : ℕ → ℕ) → List Region → BootMemory → BootMemory
unfolding register_region
register_regions at [] b = b
register_regions at (r ∷ rs) b = register_regions at rs (register_region at r b)

-- A pool that INITIALIZE_POOL_BASED_ON_CONFIG sets up, with the pages that it asks malloc for, and
-- the offset after its number.
pub record PoolSize : Type 0 where
  pub length : ℕ
  pub pages : ℕ
  pub offset : ℕ

pub initialize_pool : (atoi_special : ℕ → ℕ × ℕ) → (size factor offset : ℕ) → PoolSize
unfolding tosmallpage
initialize_pool atoi_special size factor offset =
    let (val, next) = atoi_special offset in
    record {
      length = u32 (val / size);
      pages = u32 (u32 (tosmallpage val) * factor);
      offset = next;
    }

-- The loop over the name: the offset of the first line break (10) or `#` (35), if the passes are
-- enough.
pub skip_name : (fuel : ℕ) → (image : ℕ → ℕ) → (offset : ℕ) → Option ℕ
skip_name zero image offset = none
skip_name (suc fuel) image offset =
    let rest = skip_name fuel image (offset + 1) in
    if image offset == 10 || image offset == 35 then some offset else rest

-- What finalize_kernel_data makes of the configuration.
pub record Configured : Type 0 where
  pub processes : PoolSize
  pub threads : PoolSize
  pub files : PoolSize
  pub pointer_pages : ℕ
  pub name : ℕ
  pub image : ℕ → ℕ

-- `ret = image_base+offset; for (...){ ++offset;} image_base[offset] = 0;`
pub end_name : (fuel : ℕ) → (image : ℕ → ℕ) → (offset : ℕ) → Option (ℕ → ℕ)
unfolding skip_name
end_name fuel image offset = elim (skip_name fuel image offset) [
  | none ↦ none
  | some stop ↦ some (λ a. if a == stop then 0 else image a)
]

-- The three numbers are read before the name is ended in `image`.
pub read_numbers :
    (atoi_special : ℕ → ℕ × ℕ) (process_size thread_size file_size : ℕ) (image : ℕ → ℕ) → Configured
unfolding initialize_pool
read_numbers atoi_special process_size thread_size file_size image =
    let processes = initialize_pool atoi_special process_size 1 0 in
    let threads = initialize_pool atoi_special thread_size 2 processes.offset in
    let files = initialize_pool atoi_special file_size 1 threads.offset in
    record {
      processes = processes;
      threads = threads;
      files = files;
      pointer_pages = u32 (files.length + processes.length) / 8;
      name = files.offset;
      image = image;
    }

pub configure :
    (fuel : ℕ) (atoi_special : ℕ → ℕ × ℕ) (process_size thread_size file_size : ℕ) (image : ℕ → ℕ)
    → Option Configured
unfolding read_numbers end_name
configure fuel atoi_special process_size thread_size file_size image =
    let read = read_numbers atoi_special process_size thread_size file_size image in
    elim (end_name fuel image read.name) [
      | none ↦ none
      | some ended ↦ some (record read { image = ended })
    ]
