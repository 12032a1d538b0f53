-- ===== src/Modules.antt =====
-- Taking drivers out of the kernel, runtime/syscalls/SYS_MODRM.cpp.
--
-- A driver has slots of quirks (its problems) and a quirk has slots of drivers (its solutions); a
-- slot that is not taken is kept as such. What is given back goes to a log, in order: the file
-- of a driver in the filesystem, its slot among the drivers, and a quirk. modrm_recu is read as modrm.
-- A loop that meets a free slot does not move on, so it never ends: that is the empty result.
pub mod Removal
pub mod Insertion
mod Tests
use best_kernel.Base.{ℕ, Option, some, none, List, [], ◌∷◌, ◌++◌}

mutual
  pub data Quirks : Type 0 where
    no_quirks : Quirks
    free_quirk : Quirks → Quirks
    quirk : ℕ → Drivers → Quirks → Quirks

  pub data Drivers : Type 0 where
    no_drivers : Drivers
    free_driver : Drivers → Drivers
    driver : (file link : ℕ) → Quirks → Drivers → Drivers

pub data Release : Type 0 where
  sleep_brothers : Release
  wake_brothers : Release
  release_file : ℕ → Release
  release_driver : ℕ → Release
  release_quirk : ℕ → Release

-- Two logs, one after the other, where both loops end.
abbrev pub join : Option (List Release) → Option (List Release) → Option (List Release)
join (some a) (some b) = some (a ++ b)
join (some a) none = none
join none b = none

-- A driver's link is read after pool_free has zeroed the driver, so that it is null. A tree is one in
-- which no driver stands twice: a second visit would find it zeroed, with nothing below it.
-- The loops of quirkrm and modrm over their slots, with what follows each loop.
unfoldable mutual
  pub remove_drivers : Drivers → Option (List Release)
  remove_drivers no_drivers = some []
  remove_drivers (free_driver rest) = none
  remove_drivers (driver file link problems rest) =
      join (join (remove_quirks problems) (some (release_file file ∷ release_driver 0 ∷ [])))
        (remove_drivers rest)

  pub remove_quirks : Quirks → Option (List Release)
  remove_quirks no_quirks = some []
  remove_quirks (free_quirk rest) = none
  remove_quirks (quirk unborn solutions rest) =
      join (join (remove_drivers solutions) (some (release_quirk unborn ∷ []))) (remove_quirks rest)

unfoldable pub quirkrm : ℕ → Drivers → Option (List Release)
unfolding remove_drivers
quirkrm unborn solutions = join (remove_drivers solutions) (some (release_quirk unborn ∷ []))

unfoldable pub modrm : (file link : ℕ) → Quirks → Option (List Release)
unfolding remove_quirks
modrm file link problems =
    join (remove_quirks problems) (some (release_file file ∷ release_driver 0 ∷ []))

unfoldable pub modrm_wrap : (file link : ℕ) → Quirks → Option (List Release)
unfolding modrm
modrm_wrap file link problems =
    join (join (some (sleep_brothers ∷ [])) (modrm file link problems)) (some (wake_brothers ∷ []))
