-- ===== src/Disks/Requests.antt =====
-- When a request to a disk ends, and which methods of a filesystem are called.
use best_kernel.Base.{ℕ, ◌≡◌, ◌≢◌, refl, ap, ◌∙◌, arith, List, [], ◌∷◌}
use best_kernel.Disks.{Partition, mkfile, rmfile, mkdir, rmdir, disk_sync}

-- A call of one of the macros.
pub data Call : Type 0 where
  make_file remove_file make_directory remove_directory sync : Call

unfoldable pub run_call :
    {File : Type 0} (problem_ctl : ℕ → ℕ → ℕ → File → File)
    → (ℕ → Partition)
    → Call × ℕ
    → File
    → File
unfolding mkfile rmfile mkdir rmdir disk_sync
run_call problem_ctl partitions (make_file, part) proto = mkfile problem_ctl partitions part proto
run_call problem_ctl partitions (remove_file, part) proto = rmfile problem_ctl partitions part proto
run_call problem_ctl partitions (make_directory, part) proto =
    mkdir problem_ctl partitions part proto
run_call problem_ctl partitions (remove_directory, part) proto =
    rmdir problem_ctl partitions part proto
run_call problem_ctl partitions (sync, part) proto = disk_sync problem_ctl partitions part proto

unfoldable pub run_calls :
    {File : Type 0} (problem_ctl : ℕ → ℕ → ℕ → File → File)
    → (ℕ → Partition)
    → List (Call × ℕ)
    → File
    → File
unfolding run_call
run_calls problem_ctl partitions [] proto = proto
run_calls problem_ctl partitions (call ∷ calls) proto =
    run_calls problem_ctl partitions calls (run_call problem_ctl partitions call proto)

module _ {File : Type 0} (driver changed : ℕ → ℕ → ℕ → File → File)
    (partitions : ℕ → Partition) where
  run_call_same :
      (call : Call × ℕ) (proto : File)
      → ((problem signature method : ℕ) (f : File)
          → method ≢ 7
          → driver problem signature method f ≡ changed problem signature method f)
      → run_call driver partitions call proto ≡ run_call changed partitions call proto
  unfolding run_call
  run_call_same (make_file, part) proto h = h _ _ _ _ (omega arith)
  run_call_same (remove_file, part) proto h = h _ _ _ _ (omega arith)
  run_call_same (make_directory, part) proto h = h _ _ _ _ (omega arith)
  run_call_same (remove_directory, part) proto h = h _ _ _ _ (omega arith)
  run_call_same (sync, part) proto h = h _ _ _ _ (omega arith)

  -- mkdir makes no directory: a driver's method for that, number 7, is never called. Two drivers that
  -- differ in nothing but that method leave the same file after every sequence of mkfile, rmfile,
  -- mkdir, rmdir and disk_sync.
  pub run_calls_same :
      (calls : List (Call × ℕ)) (proto : File)
      → ((problem signature method : ℕ) (f : File)
          → method ≢ 7
          → driver problem signature method f ≡ changed problem signature method f)
      → run_calls driver partitions calls proto ≡ run_calls changed partitions calls proto
  unfolding run_calls
  run_calls_same [] proto h = refl
  run_calls_same (call ∷ calls) proto h =
      ap (run_calls driver partitions calls) (run_call_same call proto h)
      ∙ run_calls_same calls (run_call changed partitions call proto) h
