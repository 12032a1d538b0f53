-- ===== src/Disks/Tests.antt =====
-- A table of two partitions, a buffer of two pages that follow one another, and a driver whose files
-- are the numbers of the methods that were called.
use best_kernel.Base.{
  ℕ, ◌+◌, ◌*◌, ◌≡◌, ◌≢◌, ◌≤◌, refl, arith, List, [], ◌∷◌, ◌==◌, if◌then◌else◌, ltb,
}
use best_kernel.Pool.{Hash, pointer, alloc, scan}
use best_kernel.Disks.{Partition, Buffer}
use best_kernel.Disks.Requests.{make_directory, sync, run_calls, run_calls_same}

abbrev two_partitions : ℕ → ℕ → Partition
two_partitions id t = record {
  signature = if ltb t 2 then t + 5 else 0;
  disk = 1;
  start = 4096 * t;
  length = 4096;
  files_number = 3;
}

abbrev slots : Hash
slots = record { type = pointer; length = 2; count = 0; ckarray = 0 ∷ 0 ∷ []; pool = 64; elem = 40 }

first_slot : (alloc 1 0 slots).1 ≡ 64
unfolding alloc scan
first_slot = refl

abbrev no_partition : Partition
no_partition = two_partitions 0 2

two_partitions-full : (j : ℕ) → j ≤ 1 → (two_partitions 4 j).signature ≢ 0
two_partitions-full j h e = ground (arith, e)

abbrev two_pages : Buffer
two_pages = record {
  entries = λ g. 4096 * g;
  window = λ destination pages. destination;
  files = λ g. 9;
  position = 512;
  base = 8192;
  action = 3;
}

abbrev methods : ℕ → ℕ → ℕ → List ℕ → List ℕ
methods problem signature method log = method ∷ log

-- The same, but method 7 does nothing.
abbrev without_seven : ℕ → ℕ → ℕ → List ℕ → List ℕ
without_seven problem signature method log = if method == 7 then log else method ∷ log

run_calls_same_example :
    run_calls methods (λ i. no_partition) ((make_directory, 0) ∷ (sync, 0) ∷ []) []
    ≡ run_calls without_seven (λ i. no_partition) ((make_directory, 0) ∷ (sync, 0) ∷ []) []
run_calls_same_example =
    run_calls_same methods without_seven (λ i. no_partition) ((make_directory, 0) ∷ (sync, 0) ∷ [])
      [] (λ p s m f n. ground (arith, n))
