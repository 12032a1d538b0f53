-- ===== src/Tasks/Champion.antt =====
-- What the contest of BLOOD_LIBEL comes to.
use best_kernel.Base.{
  ℕ, zero, suc, ◌+◌, ◌<◌, ◌≤◌, ◌≡◌, ◌≢◌, refl, arith, ◌==◌, ltb, if◌then◌else◌, some, Bool, true,
  false, bit_or, Bool-cases, inl, inr, ◌∙◌, ap,
}
use best_kernel.Base.Bits.{or-zero}
use best_kernel.Tasks.{sigkill}
use best_kernel.Tasks.Sacrifice.{Contender, score, eligible, rate, contest, blood_libel}

-- The rating of the process on which the contest ends.
abbrev pub best : ℕ → ℕ → ℕ → (ℕ → Contender) → ℕ
best left i champion pool =
    ((contest left i champion pool).1 (contest left i champion pool).0).sacrival

rate_keeps :
    (i j : ℕ) (pool : ℕ → Contender)
    → (score (rate i pool j) ≡ score (pool j))
      × (eligible (rate i pool j) ≡ eligible (pool j))
      × ((rate i pool j).sigset ≡ (pool j).sigset)
unfolding rate score eligible
rate_keeps i j pool = elim (Bool-cases (j == i)) [
  | inl same ↦
      let e : i ≡ j = ground arith in
      rw same (
        ap (λ (t : ℕ). score (pool t)) e,
        ap (λ (t : ℕ). eligible (pool t)) e,
        ap (λ (t : ℕ). (pool t).sigset) e,
      )
  | inr other ↦ rw other (refl, refl, refl)
]

rate_here : (i : ℕ) (pool : ℕ → Contender) → (rate i pool i).sacrival ≡ score (pool i)
unfolding rate
rate_here i pool = let e : (i == i) ≡ true = ground arith in rw e refl

rate_elsewhere :
    (i j : ℕ) (pool : ℕ → Contender) → j ≢ i → (rate i pool j).sacrival ≡ (pool j).sacrival
unfolding rate
rate_elsewhere i j pool n = let e : (j == i) ≡ false = ground arith in rw e refl

abbrev rating : ℕ × (ℕ → Contender) → ℕ
rating c = (c.1 c.0).sacrival

rating-if :
    (b : Bool) (x y : ℕ × (ℕ → Contender))
    → rating (if b then x else y) ≡ (if b then rating x else rating y)
rating-if true x y = refl
rating-if false x y = refl

best_step :
    (left i champion : ℕ) (pool : ℕ → Contender)
    → best (suc left) i champion pool ≡ (
        if eligible (pool i)
        then (if ltb (rate i pool champion).sacrival (rate i pool i).sacrival
            then best left (i + 1) i (rate i pool)
            else best left (i + 1) champion (rate i pool))
        else best left (i + 1) champion pool)
unfolding contest
best_step left i champion pool =
    let beats = ltb (rate i pool champion).sacrival (rate i pool i).sacrival in
    let won = contest left (i + 1) i (rate i pool) in
    let lost = contest left (i + 1) champion (rate i pool) in
    let passed = contest left (i + 1) champion pool in
    rating-if (eligible (pool i)) (if beats then won else lost) passed
    ∙ ap (λ (t : ℕ). if eligible (pool i) then t else rating passed) (rating-if beats won lost)

-- The rating of the champion before is at most that of the one at the end.
best_rises :
    (left i champion : ℕ) (pool : ℕ → Contender)
    → champion < i
    → (pool champion).sacrival ≤ best left i champion pool
best_rises zero i champion pool h = unfold contest in omega arith
best_rises (suc left) i champion pool h = ground (
  arith,
  best_step left i champion pool,
  rate_elsewhere i champion pool (omega arith),
  best_rises left (i + 1) i (rate i pool) (omega arith),
  best_rises left (i + 1) champion (rate i pool) (omega arith),
  best_rises left (i + 1) champion pool (omega arith),
)

-- From process `i` on, the score of an eligible one is at most the rating at the end.
best_bounds :
    (left i champion j : ℕ) (pool : ℕ → Contender)
    → champion < i
    → i ≤ j
    → j < i + left
    → eligible (pool j) ≡ true
    → score (pool j) ≤ best left i champion pool
best_bounds zero i champion j pool h p q e = absurd (omega arith)
best_bounds (suc left) i champion j pool h p q e = elim (Bool-cases (j == i)) [
  | inl same ↦
      let there : j ≡ i = ground arith in
      let fits : eligible (pool i) ≡ true = rw (← there) e in
      rw there (
        ground (
          arith,
          fits,
          best_step left i champion pool,
          rate_here i pool,
          best_rises left (i + 1) i (rate i pool) (omega arith),
          best_rises left (i + 1) champion (rate i pool) (omega arith),
        ))
  | inr other ↦
      let behind : i + 1 ≤ j = ground arith in
      let still : eligible (rate i pool j) ≡ true = (rate_keeps i j pool).1 ∙ e in
      ground (
        arith,
        best_step left i champion pool,
        (rate_keeps i j pool).0,
        best_bounds left (i + 1) i j (rate i pool) (omega arith) behind (omega arith) still,
        best_bounds left (i + 1) champion j (rate i pool) (omega arith) behind (omega arith) still,
        best_bounds left (i + 1) champion j pool (omega arith) behind (omega arith) e,
      )
]

-- No eligible process of the pool, one in use that is no system process, scores higher than the rating
-- of the one on which the contest ends, if process 0, with which it starts, is eligible itself.
contest_bounds :
    (length j : ℕ) (pool : ℕ → Contender)
    → eligible (pool 0) ≡ true
    → j < length
    → eligible (pool j) ≡ true
    → score (pool j) ≤ ((contest length 0 0 pool).1 (contest length 0 0 pool).0).sacrival
contest_bounds zero j pool first h e = absurd (omega arith)
contest_bounds (suc left) zero pool first h e = ground (
  arith,
  best_step left 0 0 pool,
  rate_here 0 pool,
  best_rises left 1 0 (rate 0 pool) (omega arith),
)
contest_bounds (suc left) (suc j) pool first h e =
    let still : eligible (rate 0 pool (suc j)) ≡ true = (rate_keeps 0 (suc j) pool).1 ∙ e in
    ground (
      arith,
      best_step left 0 0 pool,
      (rate_keeps 0 (suc j) pool).0,
      best_bounds left 1 0 (suc j) (rate 0 pool) (omega arith) (omega arith) (omega arith) still,
    )

contest-sigset :
    (left i champion j : ℕ) (pool : ℕ → Contender)
    → ((contest left i champion pool).1 j).sigset ≡ (pool j).sigset
unfolding contest
contest-sigset zero i champion j pool = refl
contest-sigset (suc left) i champion j pool = ground (
  arith,
  (rate_keeps i j pool).2,
  contest-sigset left (i + 1) i j (rate i pool),
  contest-sigset left (i + 1) champion j (rate i pool),
  contest-sigset left (i + 1) champion j pool,
)

-- Where process 0 is no system process, BLOOD_LIBEL returns, but it gives up nobody: every process has
-- the signals that it had before, since the number of SIGKILL is 0.
blood_libel_spares :
    (length : ℕ) (pool : ℕ → Contender)
    → (pool 0).is_system ≡ false
    → (pool' : ℕ → Contender) × (blood_libel length pool ≡ some pool')
      × ((j : ℕ) → (pool' j).sigset ≡ (pool j).sigset)
unfolding blood_libel
blood_libel_spares length pool h =
    let c = contest length 0 0 pool in
    (
      λ j. if j == c.0 then record (c.1 j) { sigset = bit_or (c.1 j).sigset sigkill } else c.1 j,
      rw h refl,
      λ j. elim (Bool-cases (j == c.0)) [
        | inl same ↦ rw same (or-zero (c.1 j).sigset ∙ contest-sigset length 0 0 j pool)
        | inr other ↦ rw other (contest-sigset length 0 0 j pool)
      ],
    )
