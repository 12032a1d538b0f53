-- ===== src/Modules/Insertion/Tests.antt =====
-- A driver with room in every pool, and a problem with two solutions.
use best_kernel.Base.{ℕ, ◌≡◌, refl, arith, true, false, [], ◌∷◌, ◌++◌}
use best_kernel.Modules.Insertion.{
  Node, Module, take_file, run_exec, modinsert, poll_solutions, find_driver,
}
use best_kernel.Modules.Insertion.Refused.{takes_in, modinsert_never}
use best_kernel.Modules.Insertion.Solutions.{poll_solutions-append}

abbrev a_node : ℕ → Node
a_node a = record { name = a ∷ []; length = 2; pool = 5 ∷ 6 ∷ [] }

abbrev welcome : Module
welcome = record {
  file = 64;
  processes = 4096;
  link = 8;
  is_module = true;
  typerec = 2;
  top_name = 3 ∷ [];
  types = 1 ∷ [];
  problems = 16;
  problems_number = 1;
}

second_driver : find_driver a_node (2 ∷ 3 ∷ []) (3 ∷ []) ≡ 3
unfolding find_driver
second_driver = refl

refused_test :
    ((modinsert 1 a_node (2 ∷ 3 ∷ []) 7 welcome).0 ≡ 0)
    × (takes_in (modinsert 1 a_node (2 ∷ 3 ∷ []) 7 welcome).1 ≡ false)
    × ((modinsert 1 a_node (2 ∷ 3 ∷ []) 7 welcome).1 ≡ take_file ∷ run_exec 7 ∷ [])
refused_test = modinsert_never 1 a_node (2 ∷ 3 ∷ []) 7 welcome (omega arith)

solution_between_test :
    (poll_solutions ((10, 1) ∷ []) 2 ≡ 0)
    × (poll_solutions ((10, 1) ∷ [] ++ (20, 2) ∷ (30, 2) ∷ []) 2 ≡ 20)
solution_between_test = poll_solutions-append ((10, 1) ∷ []) ((30, 2) ∷ []) 20 2 (omega arith)
