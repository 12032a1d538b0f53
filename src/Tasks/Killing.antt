-- ===== src/Tasks/Killing.antt =====
-- The clean-up of a process, PKILL of kernlib/KILL.cpp, with extract_segment_statistics of
-- init/tables.cpp.
--
-- The counts of the files are functions of the file and, for the listeners, of the page; a listener
-- count is a char, and the openers, which no file declares, are read as ustd_t. What is given back
-- goes to a log, in order. `vmto_phys` is that of the process' pagetree. `segsel` and `&base[0]` name
-- the two words of a descriptor, and `base[0<<12>>60]` is `base[0]`.
pub mod Drops
mod Tests
use best_kernel.Base.{
  ℕ, suc, zero, ◌+◌, ◌*◌, ◌/◌, ◌%◌, ◌^◌, ◌-◌, ◌==◌, ◌&&◌, bit_or, if◌then◌else◌, Bool, true, false,
  Option, some, none, List, [], ◌∷◌, ◌++◌, length, u8, u32, shl64, shr,
}
use best_kernel.Tables.{tosmallpage}

-- A slot of the process' descriptors: its check byte, the file, and the check bytes of the mappings.
pub record Holding : Type 0 where
  pub taken : ℕ
  pub findex : ℕ
  pub maps : Option (ℕ → ℕ)

pub data Cleanup : Type 0 where
  free_tree : Cleanup
  free_maps : ℕ → Cleanup
  free_descriptors : ℕ → Cleanup
  free_pages : (physical pages : ℕ) → Cleanup
  free_process : Cleanup

pub record Counts : Type 0 where
  pub listeners : ℕ → ℕ → ℕ
  pub openers : ℕ → ℕ
  pub log : List Cleanup

-- What the loop over `y` leaves of `listeners[i]`, from page `y` on.
unfoldable pub drop_listener : (left y : ℕ) → (maps : ℕ → ℕ) → ℕ → ℕ
drop_listener zero y maps count = count
drop_listener (suc left) y maps count =
    drop_listener left (y + 1) maps (if maps y == 0 then count else u8 (count + 255))

-- `if (maps){ ... kptrfree(maps,512/8);}` for the descriptor at `i`.
unfoldable pub drop_maps : (length i findex : ℕ) → Option (ℕ → ℕ) → Counts → Counts
unfolding drop_listener
drop_maps length i findex none s = s
drop_maps length i findex (some maps) s = record s {
  listeners = λ f p.
      if f == findex && (p == i)
      then drop_listener length 0 maps (s.listeners f p)
      else s.listeners f p;
  log = s.log ++ (free_maps i ∷ []);
}

-- `--vfs->descriptions[findex]->openers`
abbrev pub drop_opener : ℕ → Counts → Counts
drop_opener findex s = record s {
  openers = λ f. if f == findex then u32 (s.openers f + (2 ^ 32 - 1)) else s.openers f;
}

-- The body of the loop for the descriptor at `i`.
unfoldable pub close_holding : (lengths : ℕ → ℕ) → (i : ℕ) → Holding → Counts → Counts
unfolding drop_maps
close_holding lengths i h s =
    if h.taken == 0
    then s
    else drop_opener h.findex (drop_maps (lengths h.findex) i h.findex h.maps s)

unfoldable pub close_all : (lengths : ℕ → ℕ) → (i : ℕ) → List Holding → Counts → Counts
unfolding close_holding
close_all lengths i [] s = s
close_all lengths i (h ∷ hs) s = close_all lengths (i + 1) hs (close_holding lengths i h s)

-- The start and the length that the two words of a descriptor give.
unfoldable pub extract_segment_statistics : ℕ × ℕ → ℕ × ℕ
extract_segment_statistics base = (
  bit_or (bit_or (shr (shl64 base.0 14) 32) (shr base.0 56)) (shr (shl64 base.1 32) 32),
  bit_or (bit_or base.0 (shr (shl64 base.0 48) 48)) (shr base.1 32),
)

-- `free(vmto_phys(pagetree,start),tosmallpage(length),pag::SMALLPAGE)`
unfoldable pub free_segment : (vmto_phys : ℕ → ℕ) → ℕ × ℕ → Cleanup
unfolding extract_segment_statistics tosmallpage
free_segment vmto_phys base =
    free_pages (vmto_phys (extract_segment_statistics base).0)
      (tosmallpage (extract_segment_statistics base).1)

unfoldable pub pkill :
    (vmto_phys : ℕ → ℕ) → (lengths : ℕ → ℕ) → (heap table : ℕ × ℕ) → List Holding → Counts → Counts
unfolding close_all free_segment
pkill vmto_phys lengths heap table hs s =
    let closed = close_all lengths 0 hs (record s { log = s.log ++ (free_tree ∷ []) }) in
    record closed {
      log =
          closed.log
          ++ (free_descriptors (length hs)
              ∷ free_segment vmto_phys heap
              ∷ free_segment vmto_phys table
              ∷ free_process
              ∷ []);
    }
