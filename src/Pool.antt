-- ===== src/Pool.antt =====
-- class Hash of kontrol.h: a pool of slots with one check byte for each, from which the kernel
-- takes processes, threads, files and pointers.
--
-- Addresses are numbers of bytes. `elem` is `sizeof(this->pool*)`, the size of a slot. The block
-- behind `if (tryn)` is read with its closing brace after `this->length += reqlen`, and `tryn` as
-- the value that the line above stores in `ret`.
pub mod Alloc
pub mod Free
pub mod King
mod Tests
use best_kernel.Base.{
  ltb, ℕ, zero, suc, ◌+◌, ◌-◌, ◌*◌, ◌/◌, ◌%◌, ◌^◌, List, Option, none, some, ◌==◌, if◌then◌else◌,
  u32, get_or, set,
}
use best_kernel.Memory.{Memory, memset}

pub data HashType : Type 0 where
  pointer double_pointer : HashType

pub record Hash : Type 0 where
  pub type : HashType
  pub length : ℕ
  pub count : ℕ
  pub ckarray : List ℕ
  pub pool : ℕ
  pub elem : ℕ

-- The loop of `alloc` over the check bytes, `left` of them to go from slot `i`: `g` counts the free
-- slots in a row.
unfoldable pub scan : List ℕ → ℕ → ℕ → ℕ → ℕ → Option ℕ
scan ck reqlen zero i g = none
scan ck reqlen (suc left) i g =
    let run : ℕ = if get_or ck i 0 == 0 then g + 1 else 0 in
    let rest = scan ck reqlen left (i + 1) run in if run == reqlen then some i else rest

-- What `alloc` does when no run is long enough. `tryn` is what the pool of pointers gave back when
-- it was asked for a larger array; 0 is the null pointer. The call itself returns null either way.
unfoldable pub grow : HashType → ℕ → ℕ → Hash → Hash
grow pointer reqlen tryn h = h
grow double_pointer reqlen tryn h =
    if tryn == 0 then h else record h { pool = tryn; length = u32 (h.length + reqlen) }

-- `sizeof(this->pool)` is the size of a pointer, 8, whatever the slot's size is.
unfoldable pub finish_alloc : Option ℕ → ℕ → ℕ → Hash → Hash × ℕ
unfolding grow
finish_alloc (some i) reqlen tryn h = (record h { count = u32 (h.count + reqlen) }, h.pool + 8 * i)
finish_alloc none reqlen tryn h = (grow h.type reqlen tryn h, 0)

unfoldable pub alloc : ℕ → ℕ → Hash → Hash × ℕ
unfolding finish_alloc
alloc reqlen tryn h = finish_alloc (scan h.ckarray reqlen h.length 0 0) reqlen tryn h

-- `for (g = first; g < end; ++g){ ckarray[g] = 0;}`
unfoldable pub clear : ℕ → ℕ → List ℕ → List ℕ
clear zero g ck = ck
clear (suc left) g ck = clear left (g + 1) (set ck g 0)

-- The bound of the loop is `length` itself, not the first slot plus `length`.
unfoldable pub free : ℕ → ℕ → Hash → Memory → Hash × Memory
unfolding clear
free section length h m =
    let first : ℕ =
      if ltb section h.pool
      then u32 ((section + (2 ^ 64 - h.pool)) / h.elem)
      else (section - h.pool) / h.elem in
    (
      record h {
        ckarray = clear (length - first) first h.ckarray;
        count = u32 (h.count + 2 ^ 32 - u32 length);
      },
      memset section 0 (length * h.elem) m,
    )
