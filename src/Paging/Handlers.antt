-- ===== src/Paging/Handlers.antt =====
-- The fault handlers of runtime/mem/core.h: softfault_handler, hardfault_handler and
-- pagefault_handler. SIGSEGV and SIGKILL enter as the numbers `segv` and `kill`.
use best_kernel.Base.{
  ℕ, ◌+◌, ◌-◌, ◌^◌, bit_and, bit_or, ◌==◌, ◌!=◌, if◌then◌else◌, Bool, List, [], ◌∷◌, u32, shl64,
  shr,
}
use best_kernel.Paging.{
  memreq_template, physical, mapped, reserve, swapped, file, segfault, writeback,
}

-- What a fault handler works on: the entry and the signals of the process.
pub record Faulting : Type 0 where
  pub entry : ℕ
  pub sigset : ℕ

-- What vfs->load_page and the file give for a descriptor and a page number: the page's address, the
-- file's cache type and its executable digit.
pub record Loaded : Type 0 where
  pub page : ℕ
  pub cache : ℕ
  pub executable : ℕ

-- The case FILE of softfault_handler: the descriptor and the page number come out of the entry.
unfoldable pub map_file_page : ℕ → (ℕ → ℕ → Loaded) → Faulting → Faulting
map_file_page pagetype load f =
    let desc = shr (shl64 f.entry 18) 32 in
    let loaded = load desc (shr (shl64 f.entry 1) 49) in
    record f {
      entry =
          bit_or
            (bit_or loaded.page (memreq_template pagetype mapped loaded.cache loaded.executable))
            (shl64 desc 48);
    }

-- The switch of softfault_handler, on `entry<<(64-12)>>53`. `phys` is what malloc returns.
unfoldable pub serve_mode : ℕ → ℕ → ℕ → (ℕ → ℕ → Loaded) → ℕ → Faulting → Faulting
unfolding map_file_page
serve_mode segv phys pagetype load mode f =
    if mode == reserve
    then record f { entry = bit_or f.entry phys }
    else if mode == file
    then map_file_page pagetype load f
    else if mode == segfault
    then record f { sigset = bit_or f.sigset segv }
    else f

unfoldable pub softfault_handler : ℕ → ℕ → ℕ → (ℕ → ℕ → Loaded) → Faulting → Faulting
unfolding serve_mode
softfault_handler segv phys pagetype load f =
    let f' =
      if shr (shl64 f.entry 61) 63 == 0 then f else record f { sigset = bit_or f.sigset segv } in
    serve_mode segv phys pagetype load (shr (shl64 f.entry 52) 53) f'

-- A partition as hardfault_handler looks at it: is its slot taken, and is it a swap partition?
pub record Partition : Type 0 where
  pub taken : Bool
  pub swap : Bool

-- The loop over the partitions: what is left of `ct`.
unfoldable pub count_partitions : ℕ → List Partition → ℕ
count_partitions ct [] = ct
count_partitions ct (part ∷ parts) =
    let down : ℕ = if part.swap then u32 (ct + 2 ^ 32 - 1) else ct in
    let over = count_partitions down parts in
    let skip = count_partitions ct parts in
    if part.taken then if down == 0 then 0 else over else skip

unfoldable pub hardfault_handler : ℕ → ℕ → ℕ → ℕ → List Partition → Faulting → Faulting
unfolding count_partitions memreq_template physical
hardfault_handler segv kill phys pagetype parts f =
    if shr (shl64 f.entry 52) 54 == swapped
    then if count_partitions (shr (shl64 f.entry 1) 58) parts == 0
      then record f {
        entry = bit_or (memreq_template pagetype reserve writeback 0) (physical phys);
      }
      else record f { sigset = bit_or f.sigset kill }
    else record f { sigset = bit_or f.sigset segv }

-- pagefault_handler, for the entry at address `place`, whose digit 56 vmto_entry sets first: the test `entry & 1` is one of the pointer.
unfoldable pub pagefault_handler :
    ℕ → ℕ → ℕ → ℕ → ℕ → (ℕ → ℕ → Loaded) → List Partition → Faulting → Faulting
pagefault_handler segv kill phys pagetype place load parts f =
    let f' = record f { entry = bit_or f.entry (2 ^ 56) } in
    if bit_and place 1 != 0
    then softfault_handler segv phys pagetype load f'
    else hardfault_handler segv kill phys pagetype parts f'
