-- ===== src/Pool/King.antt =====
-- Hash::realloc, and the classes of kontrol.h that stand on Hash: King, whose operations hold a lock,
-- the pool of threads, and the lookup of an entry of the local descriptor tables.
--
-- `backup` is what malloc returns for the copy. The `free(backup,lel)` at the end is, inside the class,
-- Hash::free: it clears `lel` slots from the backup on, and gives no pages back.
-- `pool_alloc(k,newlen)` and `pool_free` are read as alloc and free. The lock of a King is a byte
-- that its operations leave at 0; that taking it ends is the matter of Lock.
pub mod Realloc
use best_kernel.Base.{
  ℕ, ◌+◌, ◌*◌, ◌/◌, ◌%◌, ◌^◌, ◌==◌, bit_or, if◌then◌else◌, ltb, u32, u64, shl64, shr,
}
use best_kernel.Memory.{Memory, memcpy}
use best_kernel.Pool.{Hash, alloc, free}

-- What follows once there is a backup.
unfoldable pub move_section :
    (backup tryn section prevlen newlen : ℕ) → Hash → Memory → (Hash × Memory) × ℕ
unfolding alloc free memcpy
move_section backup tryn section prevlen newlen h m =
    let bytes = h.elem * prevlen in
    let (freed, m2) = free section prevlen h (memcpy backup section bytes m) in
    let (h', ret) = alloc newlen tryn freed in
    (free backup (u32 (bytes / 4096 + 1)) h' (memcpy ret backup bytes m2), ret)

unfoldable pub realloc :
    (backup tryn section prevlen newlen : ℕ) → Hash → Memory → (Hash × Memory) × ℕ
unfolding move_section
realloc backup tryn section prevlen newlen h m =
    if backup == 0 then ((h, m), 0) else move_section backup tryn section prevlen newlen h m

pub record King : Type 0 where
  pub hash : Hash
  pub calendar : ℕ

unfoldable pub pool_alloc : (reqlen tryn : ℕ) → King → King × ℕ
unfolding alloc
pool_alloc reqlen tryn k =
    let (h, ret) = alloc reqlen tryn k.hash in (record { hash = h; calendar = 0 }, ret)

unfoldable pub pool_realloc :
    (backup tryn section prevlen newlen : ℕ) → King → Memory → (King × Memory) × ℕ
unfolding realloc
pool_realloc backup tryn section prevlen newlen k m =
    let ((h, m'), ret) = realloc backup tryn section prevlen newlen k.hash m in
    ((record { hash = h; calendar = 0 }, m'), ret)

-- Kingthread::pool_alloc: `taken` gives the byte of the thread at an address, 0 included.
unfoldable pub thread_alloc : (reqlen tryn : ℕ) → King → (ℕ → ℕ) → (King × (ℕ → ℕ)) × ℕ
unfolding alloc
thread_alloc reqlen tryn k taken =
    let (h, ret) = alloc reqlen tryn k.hash in
    ((record { hash = h; calendar = 0 }, λ a. if a == ret then 255 else taken a), ret)

-- `(ptr[0]<<32>>48)|(ptr[0]<<25>>58)|(ptr[0]>>56)|ptr[1]` on the two words of an entry.
unfoldable pub translate_ldt_entry : (processors index : ℕ) → (pool : ℕ → ℕ × ℕ) → ℕ
translate_ldt_entry processors index pool =
    let entry = pool index in
    if ltb index (u32 (processors + 256 + 1))
    then 0
    else bit_or
        (bit_or (bit_or (shr (shl64 entry.0 32) 48) (shr (shl64 entry.0 25) 58)) (shr entry.0 56))
        entry.1
