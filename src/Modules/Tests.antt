-- ===== src/Modules/Tests.antt =====
-- The removal of a driver with one problem and one solution to it.
use best_kernel.Base.{
  ℕ, ◌≤◌, List, arith, ◌+◌, ◌≡◌, refl, some, [], ◌∷◌, if◌then◌else◌, ◌==◌, true, false,
}
use best_kernel.Modules.{
  Quirks, no_quirks, free_quirk, quirk, no_drivers, driver, Release, release_file, release_driver,
  release_quirk, modrm,
}
use best_kernel.Modules.Removal.{released, linked, files_in_quirks, quirks_full, modrm-Gives}

abbrev one_problem : Quirks
one_problem = quirk 5 (driver 8 3 no_quirks no_drivers) no_quirks

full : quirks_full one_problem ≡ true
unfolding quirks_full
full = refl

-- The solution goes before the problem, and the problem before the driver.
modrm_order :
    modrm 7 2 one_problem
    ≡ some (
        release_file 8
        ∷ release_driver 0
        ∷ release_quirk 5
        ∷ release_file 7
        ∷ release_driver 0
        ∷ [])
unfolding modrm
modrm_order = refl

once_each : (x : ℕ) → files_in_quirks x one_problem + (if 7 == x then 1 else 0) ≤ 1
unfolding files_in_quirks
once_each x = ground arith

modrm-Gives_example :
    (log : List Release) × (modrm 7 2 one_problem ≡ some log)
    × ((x : ℕ) → released x log ≡ files_in_quirks x one_problem + (if 7 == x then 1 else 0))
    × (linked log ≡ false)
modrm-Gives_example = modrm-Gives 7 2 one_problem full once_each

not_full : quirks_full (free_quirk one_problem) ≡ false
unfolding quirks_full
not_full = refl
