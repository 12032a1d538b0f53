-- ===== src/Tasks/Sacrifice.antt =====
-- BLOOD_LIBEL of kernlib/BLOOD_LIBEL.cpp: which process is given up when there is no memory left.
--
-- `memory_usage/512*contender*wk_count` is read as a product with `contender->wk_count`. The first
-- loop has no body that moves `i`: it ends at once, or never, so `i > length` is never true after it.
use best_kernel.Base.{
  ℕ, zero, suc, ◌+◌, ◌*◌, ◌/◌, ◌==◌, ◌!=◌, ◌&&◌, ltb, not, if◌then◌else◌, Option, some, none, Bool,
  bit_or, u32,
}
use best_kernel.Tasks.{sigkill}

-- A process as the function looks at it; `taken` is its check byte.
pub record Contender : Type 0 where
  pub is_system : Bool
  pub taken : ℕ
  pub memory_usage : ℕ
  pub wk_count : ℕ
  pub sacrival : ℕ
  pub sigset : ℕ

unfoldable pub score : Contender → ℕ
score p = u32 (p.memory_usage / 512 * p.wk_count)

unfoldable pub eligible : Contender → Bool
eligible p = not p.is_system && p.taken != 0

-- `contender->sacrival = …`, for process `i`.
unfoldable pub rate : ℕ → (ℕ → Contender) → ℕ → Contender
unfolding score
rate i pool j = if j == i then record (pool i) { sacrival = score (pool i) } else pool j

-- The loop, `left` processes to go from `i`, with the champion's number.
unfoldable pub contest : ℕ → ℕ → ℕ → (ℕ → Contender) → ℕ × (ℕ → Contender)
unfolding eligible rate
contest zero i champion pool = (champion, pool)
contest (suc left) i champion pool =
    let pool' = rate i pool in
    let won = contest left (i + 1) i pool' in
    let lost = contest left (i + 1) champion pool' in
    let passed = contest left (i + 1) champion pool in
    if eligible (pool i)
    then (if ltb (pool' champion).sacrival (pool' i).sacrival then won else lost)
    else passed

-- Empty where the first loop never ends.
unfoldable pub blood_libel : ℕ → (ℕ → Contender) → Option (ℕ → Contender)
unfolding contest
blood_libel length pool =
    if (pool 0).is_system
    then none
    else let (champion, pool') = contest length 0 0 pool in
      some (λ j.
        if j == champion
        then record (pool' j) { sigset = bit_or (pool' j).sigset sigkill }
        else pool' j)
