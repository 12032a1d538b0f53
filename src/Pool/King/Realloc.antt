-- ===== src/Pool/King/Realloc.antt =====
-- What a reallocation keeps.
use best_kernel.Base.{ℕ, ◌+◌, ◌*◌, ◌/◌, u32, ◌≤◌, ◌⊎◌}
use best_kernel.Memory.{Memory, memset, memcpy}

-- Two ranges of the same length do not meet.
abbrev pub Apart : ℕ → ℕ → ℕ → Type 0
Apart p q bytes = (p + bytes ≤ q) ⊎ (q + bytes ≤ p)

-- A copy to a backup, a range that is cleared, and a copy back.
module _ (backup section ret bytes size : ℕ) (m : Memory) where
  abbrev saved : Memory
  saved = memcpy backup section bytes m

  abbrev cleared : Memory
  cleared = memset section 0 size saved

-- The first `bytes` bytes from `ret` on are not among the `size` bytes from `backup` on.
abbrev pub Clear : (ret bytes backup size : ℕ) → Type 0
Clear ret bytes backup size = (ret + bytes ≤ backup) ⊎ (backup + size ≤ ret)

-- Slots of a backup of that many bytes, each of a size.
abbrev pub backup_size : (elem bytes : ℕ) → ℕ
backup_size elem bytes = u32 (bytes / 4096 + 1) * elem
