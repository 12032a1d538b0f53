-- ===== src/Tasks/Help/Handing.antt =====
-- What get_some_help hands over.
use best_kernel.Base.{
  ℕ, zero, suc, ◌+◌, ◌≤◌, ◌<◌, ◌≡◌, ◌≢◌, refl, arith, ◌==◌, u32, if◌then◌else◌, Option, some, none,
  ap, ◌⊎◌, inl, inr,
}
use best_kernel.Tasks.Help.{
  Processor, Helped, poked, blood_libel_called, idle_brother, set_current, get_some_help,
}

-- Can a processor take a thread?
abbrev pub IsIdle : Processor → Type 0
IsIdle p = (p.executed_threads ≡ 0) × (p.online_capable ≢ 0)

idle_brother-IsIdle :
    (left i j : ℕ) (pool : ℕ → Processor) → idle_brother left i pool ≡ some j → IsIdle (pool j)
unfolding idle_brother
idle_brother-IsIdle zero i j pool e = absurd (ground (arith, e))
idle_brother-IsIdle (suc left) i j pool e = ground (
  arith,
  idle_brother-IsIdle left (i + 1) j pool,
  ap (λ (t : ℕ). (pool t).executed_threads) {x = i} {y = j},
  ap (λ (t : ℕ). (pool t).online_capable) {x = i} {y = j},
)

idle_brother-none :
    (left i j : ℕ) (pool : ℕ → Processor)
    → idle_brother left i pool ≡ none
    → i ≤ j
    → j < i + left
    → IsIdle (pool j)
    → ⊥
unfolding idle_brother
idle_brother-none zero i j pool e l b h = absurd (omega arith)
idle_brother-none (suc left) i j pool e l b h = ground (
  arith,
  idle_brother-none left (i + 1) j pool,
  ap (λ (t : ℕ). (pool t).executed_threads) {x = i} {y = j},
  ap (λ (t : ℕ). (pool t).online_capable) {x = i} {y = j},
)

-- What a call leaves, `r`, is right for the processors before it.
abbrev pub Handed : (number me next : ℕ) → (ℕ → Processor) → (ℕ → Processor) × Helped → Type 0
Handed number me next pool r =
    ((r ≡ (pool, blood_libel_called)) × ((j : ℕ) → j < number → IsIdle (pool j) → ⊥))
    ⊎ (i : ℕ) × (r.1 ≡ poked i)
      × IsIdle (pool i)
      × ((j : ℕ)
          → (r.0 j).current_thread ≡ (
              if j == me
              then u32 (pool me).current_thread
              else if j == i
              then next
              else (pool j).current_thread))

hands :
    (me next i : ℕ) (pool : ℕ → Processor) (j : ℕ)
    → (set_current me
        (u32 (pool me).current_thread)
        (set_current i (set_current me next pool me).current_thread (set_current me next pool))
        j).current_thread
      ≡ (if j == me
          then u32 (pool me).current_thread
          else if j == i
          then next
          else (pool j).current_thread)
hands me next i pool j = ground arith

-- Whom get_some_help helps. Either no processor can take a thread, and BLOOD_LIBEL is called with
-- nothing changed; or the one that is poked can, it gets the chosen thread unless it is the caller,
-- every other processor keeps its thread, and the caller gets back the last 32 digits of its own: a
-- caller that finds itself loses the thread that was chosen, and one that was halted, with -1, gets
-- 2 ^ 32 - 1.
pub get_some_help-Handed :
    (number me next : ℕ) (pool : ℕ → Processor)
    → Handed number me next pool (get_some_help number me next pool)
unfolding get_some_help
get_some_help-Handed number me next pool =
    let after : Option ℕ → (ℕ → Processor) × Helped = λ r. elim r [
      | none ↦ (pool, blood_libel_called)
      | some i ↦ (
        set_current me (u32 (pool me).current_thread)
            (set_current i (set_current me next pool me).current_thread (set_current me next pool)),
        poked i,
      )
    ] in
    let Goal : Option ℕ → Type 0 =
      λ r. idle_brother number 0 pool ≡ r → Handed number me next pool (after r) in
    elim (idle_brother number 0 pool) as Goal [
      | none ↦ λ e.
          inl (refl, λ j l h. idle_brother-none number 0 j pool e (omega arith) (omega arith) h)
      | some i ↦ λ e. inr (i, refl, idle_brother-IsIdle number 0 i pool e, hands me next i pool)
    ]
      refl
