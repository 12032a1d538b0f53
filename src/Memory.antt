-- ===== src/Memory.antt =====
-- The byte loops of kernlib/mem.h, over a memory that gives each address its byte.
pub mod Copies
use best_kernel.Base.{ℕ, zero, suc, ◌+◌, ◌==◌, if◌then◌else◌, u8}

abbrev pub Memory : Type 0
Memory = ℕ → ℕ

-- `((uchar_t *)dest)[i] = v`
unfoldable pub store : ℕ → ℕ → Memory → Memory
store p v m a = if a == p then u8 v else m a

-- `memset(dest,val,bytes)`, with `left` rounds to go from round `i`.
unfoldable pub memset_loop : ℕ → ℕ → ℕ → ℕ → Memory → Memory
memset_loop zero i dest val m = m
memset_loop (suc left) i dest val m = memset_loop left (i + 1) dest val (store (dest + i) val m)

unfoldable pub memset : ℕ → ℕ → ℕ → Memory → Memory
unfolding memset_loop store
memset dest val bytes m = memset_loop bytes 0 dest val m

-- `memcpy(dest,source,bytes)`: the bytes go over in ascending order.
unfoldable pub memcpy_loop : ℕ → ℕ → ℕ → ℕ → Memory → Memory
memcpy_loop zero i dest source m = m
memcpy_loop (suc left) i dest source m =
    memcpy_loop left (i + 1) dest source (store (dest + i) (m (source + i)) m)

unfoldable pub memcpy : ℕ → ℕ → ℕ → Memory → Memory
unfolding memcpy_loop store
memcpy dest source bytes m = memcpy_loop bytes 0 dest source m
