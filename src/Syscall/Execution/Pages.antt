-- ===== src/Syscall/Execution/Pages.antt =====
-- The entries that exec writes for the pages of a program, as the rest of the kernel reads them.
use best_kernel.Base.{ℕ, zero, suc, ◌+◌, ◌/◌, ◌≡◌, List, [], ◌∷◌, ◌++◌}
use best_kernel.Paging.{physical}
use best_kernel.Syscall.Execution.{Demand, write_entry}

abbrev pub written : Demand → List (ℕ × ℕ)
written (write_entry place value) = (place, physical value) ∷ []
written _ = []

-- The entries that the calls write: the place of each, and the page that `physical` reads off it.
pub placed : List Demand → List (ℕ × ℕ)
placed [] = []
placed (x ∷ xs) = written x ++ placed xs

unfoldable pub half_pages : (left g : ℕ) → (shared : ℕ → ℕ) → List (ℕ × ℕ)
half_pages zero g shared = []
half_pages (suc left) g shared = (g, shared g / 2) ∷ half_pages left (g + 1) shared

-- The calls write no entry.
record Silent (xs : List Demand) : Type 0 where
  none_placed : placed xs ≡ []
