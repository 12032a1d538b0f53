-- ===== src/Pool/Free.antt =====
-- What Hash::free does to the check bytes and to the slots.
use best_kernel.Base.{
  ℕ, zero, suc, ◌+◌, ◌-◌, ◌*◌, ◌/◌, ◌<◌, ◌≡◌, refl, ap, ◌∙◌, List, [], ◌∷◌, arith, ◌&&◌, leb, ltb,
  ◌==◌, if◌then◌else◌, get_or, set, length, u32, false, ◌^◌,
}
use native.Mathlib.Nat.{mul-div_left, add-sub_cancel_left}
use best_kernel.Memory.{Memory}
use best_kernel.Memory.Copies.{memset_lem}
use best_kernel.Pool.{Hash, clear, free}

get_or-set_zero :
    (ck : List ℕ) (i j : ℕ) → get_or (set ck i 0) j 0 ≡ (if i == j then 0 else get_or ck j 0)
get_or-set_zero [] i j = ground arith
get_or-set_zero (x ∷ xs) zero zero = refl
get_or-set_zero (x ∷ xs) zero (suc j) = ground arith
get_or-set_zero (x ∷ xs) (suc i) zero = ground arith
get_or-set_zero (x ∷ xs) (suc i) (suc j) = ground (arith, get_or-set_zero xs i j)

clear_lem :
    (left g : ℕ) (ck : List ℕ) (j : ℕ)
    → get_or (clear left g ck) j 0 ≡ (if leb g j && ltb j (g + left) then 0 else get_or ck j 0)
unfolding clear
clear_lem zero g ck j = ground arith
clear_lem (suc left) g ck j =
    ground (arith, clear_lem left (g + 1) (set ck g 0) j, get_or-set_zero ck g j)

-- `free(section, length)` of the address of slot `first` clears the check bytes of the slots from
-- `first` up to `length`, and only those: the loop ends at `length`, not at `first + length`. It
-- zeroes the `length` slots of memory from `section` on, and changes no other byte.
free_clears :
    (first length : ℕ) (h : Hash) (m : Memory)
    → 0 < h.elem
    → ((j : ℕ)
        → get_or (free (h.pool + first * h.elem) length h m).0.ckarray j 0
          ≡ (if leb first j && ltb j length then 0 else get_or h.ckarray j 0))
      × ((a : ℕ)
          → (free (h.pool + first * h.elem) length h m).1 a ≡ (
              if leb (h.pool + first * h.elem) a
                && ltb a (h.pool + first * h.elem + length * h.elem)
              then 0
              else m a))
unfolding free
free_clears first length h m pos = (
  λ j. rw slot (ground (arith, clear_lem (length - first) first h.ckarray j)),
  memset_lem (h.pool + first * h.elem) 0 (length * h.elem) m,
)
  where
    slot :
        (if ltb (h.pool + first * h.elem) h.pool
          then u32 ((h.pool + first * h.elem + (2 ^ 64 - h.pool)) / h.elem)
          else (h.pool + first * h.elem - h.pool) / h.elem)
        ≡ first
    slot =
        let behind : ltb (h.pool + first * h.elem) h.pool ≡ false = ground arith in
        rw behind (
          ap (λ (t : ℕ). t / h.elem) (add-sub_cancel_left h.pool (first * h.elem))
          ∙ mul-div_left first pos)

-- Giving back one slot, other than slot 0, leaves every check byte as it was, its own included.
pub free_one_keeps :
    (first : ℕ) (h : Hash) (m : Memory)
    → 0 < h.elem
    → 0 < first
    → (j : ℕ) → get_or (free (h.pool + first * h.elem) 1 h m).0.ckarray j 0 ≡ get_or h.ckarray j 0
free_one_keeps first h m pos after j = ground (arith, (free_clears first 1 h m pos).0 j)
