-- ===== src/Memory/Copies.antt =====
-- What the loops of kernlib/mem.h leave in memory.
use best_kernel.Base.{
  ℕ, zero, suc, ◌+◌, ◌≤◌, ◌<◌, ◌≡◌, refl, ◌⊎◌, ◌&&◌, arith, leb, ltb, if◌then◌else◌, u8, ◌-◌,
}
use best_kernel.Memory.{Memory, store, memset_loop, memset, memcpy_loop, memcpy}

memset_loop_lem :
    (left i dest val : ℕ) (m : Memory) (a : ℕ)
    → memset_loop left i dest val m a
      ≡ (if leb (dest + i) a && ltb a (dest + i + left) then u8 val else m a)
unfolding memset_loop store
memset_loop_lem zero i dest val m a = ground arith
memset_loop_lem (suc left) i dest val m a =
    ground (arith, memset_loop_lem left (i + 1) dest val (store (dest + i) val m) a)

-- After `memset(dest,val,bytes)` the bytes from `dest` on, `bytes` of them, hold the low byte of
-- `val`, and every other byte is what it was.
pub memset_lem :
    (dest val bytes : ℕ) (m : Memory) (a : ℕ)
    → memset dest val bytes m a ≡ (if leb dest a && ltb a (dest + bytes) then u8 val else m a)
unfolding memset
memset_lem dest val bytes m a = ground (arith, memset_loop_lem bytes 0 dest val m a)

-- A memory holds bytes.
abbrev pub IsBytes : Memory → Type 0
IsBytes m = (a : ℕ) → m a < 256

-- Copying downward, or between ranges that do not meet, never reads a byte already written.
abbrev pub Ascending : ℕ → ℕ → ℕ → Type 0
Ascending dest source bytes = (dest ≤ source) ⊎ (source + bytes ≤ dest)

memcpy_loop_outside :
    (left i dest source : ℕ) (m : Memory) (a : ℕ)
    → (a < dest + i) ⊎ (dest + i + left ≤ a)
    → memcpy_loop left i dest source m a ≡ m a
unfolding memcpy_loop store
memcpy_loop_outside zero i dest source m a h = refl
memcpy_loop_outside (suc left) i dest source m a h =
    ground
      (arith, memcpy_loop_outside left (i + 1) dest source (store (dest + i) (m (source + i)) m) a)

memcpy_loop_inside :
    (left i dest source : ℕ) (m : Memory) (j : ℕ)
    → IsBytes m
    → Ascending dest source (i + left)
    → i ≤ j
    → j < i + left
    → memcpy_loop left i dest source m (dest + j) ≡ m (source + j)
unfolding memcpy_loop store
memcpy_loop_inside zero i dest source m j bytes asc lo hi = absurd (omega arith)
memcpy_loop_inside (suc left) i dest source m j bytes asc lo hi = ground (
  arith,
  bytes (source + i),
  memcpy_loop_inside left (i + 1) dest source next j next-IsBytes,
  memcpy_loop_outside left (i + 1) dest source next (dest + j),
)
  where
    next : Memory
    next = store (dest + i) (m (source + i)) m

    next-IsBytes : IsBytes next
    next-IsBytes a = ground (arith, bytes a)

-- After `memcpy(dest,source,bytes)` the destination holds the bytes that the source range held
-- before the call, and every byte outside is what it was, if the memory holds bytes and the destination does
-- not start inside the source range above its first byte.
pub memcpy_copies :
    (dest source bytes : ℕ) (m : Memory)
    → IsBytes m
    → Ascending dest source bytes
    → (a : ℕ)
    → memcpy dest source bytes m a
      ≡ (if leb dest a && ltb a (dest + bytes) then m (source + (a - dest)) else m a)
unfolding memcpy
memcpy_copies dest source bytes m b asc a = ground (
  arith,
  memcpy_loop_inside bytes 0 dest source m (a - dest) b,
  memcpy_loop_outside bytes 0 dest source m a,
)
