-- ===== src/Base/Word.antt =====
-- Machine words as natural numbers. `ustd_t` is read as 32 bits wide (the source shifts 32-bit
-- registers in it), `ulong_t` and pointers as 64, `ushort_t` as 16 and `uchar_t` as 8.
use Prim.Native.Nat.{ℕ, ◌+◌, ◌*◌, ◌/◌, ◌%◌, ◌^◌}

abbrev pub u8 : ℕ → ℕ
u8 n = n % 2 ^ 8

abbrev pub u16 : ℕ → ℕ
u16 n = n % 2 ^ 16

abbrev pub u32 : ℕ → ℕ
u32 n = n % 2 ^ 32

abbrev pub u64 : ℕ → ℕ
u64 n = n % 2 ^ 64

-- `x << k` on a 32-bit and on a 64-bit value.
abbrev pub shl32 : ℕ → ℕ → ℕ
shl32 x k = x * 2 ^ k % 2 ^ 32

abbrev pub shl64 : ℕ → ℕ → ℕ
shl64 x k = x * 2 ^ k % 2 ^ 64

-- `x >> k` on an unsigned value.
abbrev pub shr : ℕ → ℕ → ℕ
shr x k = x / 2 ^ k

-- The digit of weight `2 ^ k`.
abbrev pub bit : ℕ → ℕ → ℕ
bit x k = x / 2 ^ k % 2

-- `(uchar_t)x = v`: the low byte of the 32-bit `x` is replaced.
abbrev pub set_low_byte : ℕ → ℕ → ℕ
set_low_byte x v = x / 2 ^ 8 * 2 ^ 8 + v % 2 ^ 8
