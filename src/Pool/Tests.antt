-- ===== src/Pool/Tests.antt =====
-- The pool on a small example: four slots of 8 bytes from address 4096 on, the first one taken.
use best_kernel.Base.{ℕ, ◌+◌, ◌-◌, ◌*◌, ◌%◌, ◌^◌, ◌≤◌, ◌<◌, ◌≡◌, refl, ◌≢◌, arith, [], ◌∷◌}
use best_kernel.Memory.{Memory}
use best_kernel.Pool.{Hash, pointer, alloc, scan}
use best_kernel.Pool.Alloc.{Free, alloc_finds, alloc_succeeds, alloc_twice}

abbrev four_slots : Hash
four_slots = record {
  type = pointer;
  length = 4;
  count = 1;
  ckarray = 1 ∷ 0 ∷ 0 ∷ 0 ∷ [];
  pool = 4096;
  elem = 8;
}

abbrev counting_memory : Memory
counting_memory a = a % 256

alloc_two : (alloc 2 0 four_slots).1 ≡ 4112
unfolding alloc scan
alloc_two = refl

alloc_two_found : (alloc 2 0 four_slots).1 ≢ 0
alloc_two_found e = ground (arith, alloc_two)

alloc_finds_example :
    (i : ℕ) × ((alloc 2 0 four_slots).1 ≡ 4096 + 8 * i)
    × (i < 4)
    × (2 ≤ i + 1)
    × Free four_slots.ckarray (i + 1 - 2) (i + 1)
    × ((alloc 2 0 four_slots).0 ≡ record four_slots { count = (1 + 2) % 2 ^ 32 })
alloc_finds_example = alloc_finds 2 0 four_slots alloc_two_found

alloc_succeeds_example :
    (i : ℕ) × ((alloc 2 0 four_slots).1 ≡ 4096 + 8 * i)
    × (i < 1 + 2)
    × ((alloc 2 0 four_slots).0.pool ≡ 4096)
    × ((alloc 2 0 four_slots).0.length ≡ 4)
alloc_succeeds_example =
    alloc_succeeds 2 0 1 four_slots (omega arith) (omega arith) (λ j p q. ground arith)

alloc_twice_example : (alloc 2 0 (alloc 2 0 four_slots).0).1 ≡ (alloc 2 0 four_slots).1
alloc_twice_example = alloc_twice 2 0 0 four_slots alloc_two_found
