-- ===== src/Modules/Insertion/Solutions.antt =====
-- What poll_solutions finds, and when recurse_modules gives up.
use best_kernel.Base.{ℕ, ◌≡◌, ◌≢◌, refl, arith, List, [], ◌∷◌, ◌++◌}
use best_kernel.Modules.Insertion.{poll_solutions}

-- No solution has the signature.
abbrev pub NoneSigned : ℕ → List (ℕ × ℕ) → Type 0
NoneSigned signature [] = Unit {0}
NoneSigned signature ((solution, sign) ∷ rest) = (sign ≢ signature) × NoneSigned signature rest

-- poll_solutions returns the first solution with the signature asked for, whatever follows it, and
-- null where there is none.
pub poll_solutions-append :
    (before after : List (ℕ × ℕ)) (solution signature : ℕ)
    → NoneSigned signature before
    → (poll_solutions before signature ≡ 0)
      × (poll_solutions (before ++ (solution, signature) ∷ after) signature ≡ solution)
unfolding poll_solutions
poll_solutions-append [] after solution signature n = (refl, ground arith)
poll_solutions-append ((other, sign) ∷ before) after solution signature (n, ns) = (
  ground (arith, n, poll_solutions-append before after solution signature ns),
  ground (arith, n, poll_solutions-append before after solution signature ns),
)
