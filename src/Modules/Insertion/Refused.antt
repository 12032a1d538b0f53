-- ===== src/Modules/Insertion/Refused.antt =====
-- Which drivers modinsert takes in.
use best_kernel.Base.{ℕ, ◌≡◌, ◌≢◌, arith, ◌==◌, if◌then◌else◌, Bool, true, false, List, [], ◌∷◌}
use best_kernel.Modules.Insertion.{
  Node, Module, Insertion, take_file, run_exec, take_link, kill_driver, store_link, free_link,
  take_solution, name_file, take_problems, type_problem, run_driver, modinsert,
}

-- Does a step take something in: link, name or start the driver?
unfoldable pub takes_in : List Insertion → Bool
takes_in [] = false
takes_in (take_file ∷ log) = takes_in log
takes_in (run_exec base ∷ log) = takes_in log
takes_in (take_link ∷ log) = true
takes_in (kill_driver file ∷ log) = takes_in log
takes_in (store_link link ∷ log) = true
takes_in (free_link ∷ log) = takes_in log
takes_in (take_solution problem ∷ log) = true
takes_in (name_file ∷ log) = true
takes_in (take_problems number ∷ log) = true
takes_in (type_problem index ∷ log) = true
takes_in (run_driver ∷ log) = true

-- No driver is ever inserted: with an array of processes that is not at address 0, modinsert returns
-- 0 and neither links, names nor starts the driver, whatever the pools, exec and its header give.
-- It requests no more than the file and its exec: the process that exec made is not killed.
pub modinsert_never :
    (left : ℕ) (nodes : ℕ → Node) (drivers : List ℕ) (base : ℕ) (w : Module)
    → w.processes ≢ 0
    → ((modinsert left nodes drivers base w).0 ≡ 0)
      × (takes_in (modinsert left nodes drivers base w).1 ≡ false)
      × ((modinsert left nodes drivers base w).1
          ≡ (if w.file == 0 then take_file ∷ [] else take_file ∷ run_exec base ∷ []))
unfolding modinsert takes_in
modinsert_never left nodes drivers base w n =
    (ground (arith, n), ground (arith, n), ground (arith, n))
