-- ===== src/Modules/Insertion.antt =====
-- The insertion of a driver, runtime/syscalls/035_SYS_MODINSERT.cpp: poll_solutions,
-- recurse_modules and modinsert.
--
-- Drivers are numbered by their addresses, 0 for none: `nodes` gives what stands at one. memcmp compares
-- the 64 bytes of two names, which are lists here. `file->d->code` in recurse_modules, where no
-- `file` is declared, is the code of the new driver, whose type is `types`. recurse_modules and
-- modinsert end without a return on success: `left` is what is then found in place of the value.
pub mod Refused
pub mod Solutions
mod Tests
use best_kernel.Base.{
  ℕ, zero, suc, ◌+◌, ◌%◌, ◌==◌, ◌!=◌, ◌&&◌, if◌then◌else◌, ltb, Bool, true, false, List, [], ◌∷◌,
  ◌++◌, get_or,
}

-- The first solution, from slot `k` on, with the signature; a solution is its address and signature.
unfoldable pub poll_solutions : List (ℕ × ℕ) → (signature : ℕ) → ℕ
poll_solutions [] signature = 0
poll_solutions ((solution, sign) ∷ rest) signature =
    if sign == signature then solution else poll_solutions rest signature

pub record Node : Type 0 where
  pub name : List ℕ
  pub length : ℕ
  pub pool : List ℕ

-- `!(memcmp(a,b,64))`
unfoldable pub same_name : List ℕ → List ℕ → Bool
same_name [] [] = true
same_name [] (b ∷ bs) = false
same_name (a ∷ rest) [] = false
same_name (a ∷ rest) (b ∷ bs) = a == b && same_name rest bs

unfoldable pub find_driver : (nodes : ℕ → Node) → (drivers name : List ℕ) → ℕ
unfolding same_name
find_driver nodes [] name = 0
find_driver nodes (d ∷ ds) name =
    if same_name (nodes d).name name then d else find_driver nodes ds name

-- The loop over the type: where it stops, the slot of the new driver is given back. The answer is
-- the driver reached and whether that happened.
unfoldable pub follow_types : (nodes : ℕ → Node) → (types : List ℕ) → (rel : ℕ) → ℕ × Bool
follow_types nodes [] rel = (rel, false)
follow_types nodes (t ∷ ts) rel =
    let rest = follow_types nodes ts (get_or (nodes rel).pool t 0) in
    if ltb (nodes rel).length t then (0, true) else rest

-- What modinsert does, in order.
pub data Insertion : Type 0 where
  take_file : Insertion
  run_exec : (base : ℕ) → Insertion
  take_link : Insertion
  kill_driver : (file : ℕ) → Insertion
  store_link : (link : ℕ) → Insertion
  free_link : Insertion
  take_solution : (problem : ℕ) → Insertion
  name_file : Insertion
  take_problems : (number : ℕ) → Insertion
  type_problem : (index : ℕ) → Insertion
  run_driver : Insertion

-- What the pools, exec and the new driver's header give: `processes` is prcking->pool.
pub record Module : Type 0 where
  pub file : ℕ
  pub processes : ℕ
  pub link : ℕ
  pub is_module : Bool
  pub typerec : ℕ
  pub top_name : List ℕ
  pub types : List ℕ
  pub problems : ℕ
  pub problems_number : ℕ

-- The value, and what it gave back; `types` are those from index 1 up to `typerec`.
unfoldable pub recurse_modules :
    (left : ℕ) (nodes : ℕ → Node) (drivers : List ℕ) → Module → ℕ × List Insertion
unfolding find_driver follow_types
recurse_modules left nodes drivers w =
    let rel = find_driver nodes drivers w.top_name in
    let stopped = (follow_types nodes w.types rel).1 in
    if w.typerec % 2 != 0
    then (0, [])
    else if rel == 0
    then (0, [])
    else if stopped
    then (0, free_link ∷ [])
    else (left, [])

unfoldable pub type_problems : (left o : ℕ) → List Insertion
type_problems zero o = []
type_problems (suc left) o = type_problem o ∷ type_problems left (o + 1)

-- From the check of the problems' array on.
unfoldable pub set_problems : (left : ℕ) → Module → List Insertion → ℕ × List Insertion
unfolding type_problems
set_problems left w log = (
  left,
  log
      ++ (name_file
          ∷ take_problems w.problems_number
          ∷ ((if w.problems == 0 then kill_driver w.file ∷ [] else [])
              ++ (type_problems w.problems_number 0 ++ (run_driver ∷ [])))),
)

-- From the slot among the drivers on. A null one kills the driver, and the call goes on.
unfoldable pub link_driver :
    (left : ℕ) (nodes : ℕ → Node) (drivers : List ℕ) → Module → List Insertion → ℕ × List Insertion
unfolding recurse_modules set_problems
link_driver left nodes drivers w log =
    let log1 =
      log
      ++ (take_link
          ∷ ((if w.link == 0 then kill_driver w.file ∷ [] else []) ++ (store_link w.link ∷ []))) in
    let (rel, given) = recurse_modules left nodes drivers w in
    if w.is_module
    then if rel == 0
      then (0, log1 ++ given)
      else set_problems left w (log1 ++ (given ++ (take_solution rel ∷ [])))
    else set_problems left w log1

-- `if (file->d->runtime = prcking->pool)` stores, and tests what it has stored.
unfoldable pub modinsert :
    (left : ℕ) (nodes : ℕ → Node) (drivers : List ℕ) (base : ℕ) → Module → ℕ × List Insertion
unfolding link_driver
modinsert left nodes drivers base w =
    if w.file == 0
    then (0, take_file ∷ [])
    else if w.processes != 0
    then (0, take_file ∷ run_exec base ∷ [])
    else link_driver left nodes drivers w (take_file ∷ run_exec base ∷ [])
