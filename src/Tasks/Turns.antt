-- ===== src/Tasks/Turns.antt =====
-- Which thread gets its turn.
use best_kernel.Base.{
  ℕ, zero, suc, ◌+◌, ◌-◌, ◌^◌, ◌<◌, ◌≤◌, ◌≡◌, refl, ◌≢◌, arith, some, none, List, false, ltb,
  if◌then◌else◌, u32, get_or, length, Bool-cases, ◌∙◌, ap, inl, inr,
}
use best_kernel.Tasks.Scheduler.{
  Slot, freed, runs_thread, halts, free_driver, wrap, next_from, getnext_thread,
}

-- The slot at `i` holds no driver.
abbrev pub IsOrdinary : List Slot → ℕ → Type 0
IsOrdinary slots i = (get_or slots i freed).is_driver ≡ false

-- The thread at `j` is neither a driver nor free to run.
abbrev pub Busy : List Slot → ℕ → Type 0
Busy slots j = IsOrdinary slots j × ((get_or slots j freed).taken ≢ 0)

pass_one :
    (fuel current i : ℕ) (slots : List Slot)
    → i ≢ current
    → Busy slots (wrap i (length slots))
    → next_from (suc fuel) current i slots
      ≡ next_from fuel current (u32 (wrap i (length slots) + 1)) slots
unfolding next_from free_driver
pass_one fuel current i slots n busy = rw (busy.0) (ground arith)

-- Busy threads are passed over, up to the end of the array.
pass :
    (n fuel left current i : ℕ) (slots : List Slot)
    → fuel ≡ n + left
    → i + n ≤ length slots
    → length slots < 2 ^ 32
    → ((j : ℕ) → i ≤ j → j < i + n → (j ≢ current) × Busy slots j)
    → next_from fuel current i slots ≡ next_from left current (i + n) slots
pass zero fuel left current i slots e room small all =
    let there : fuel ≡ left = omega arith in
    let start : i + 0 ≡ i = omega arith in rw (start, there) refl
pass (suc n) zero left current i slots e room small all = absurd (omega arith)
pass (suc n) (suc fuel) left current i slots e room small all =
    let inside : wrap i (length slots) ≡ i = unfold wrap in ground arith in
    let next : u32 (wrap i (length slots) + 1) ≡ i + 1 = omega (arith, inside) in
    let end : i + 1 + n ≡ i + suc n = omega arith in
    let here = all i (omega arith) (omega arith) in
    pass_one fuel current i slots here.0 (rw inside here.1)
    ∙ rw (next, ← end)
        (pass n fuel left current (i + 1) slots (omega arith) (omega arith) small
          (λ j p q. all j (omega arith) (omega arith)))

-- A thread that may run is chosen.
choose_free :
    (fuel current i : ℕ) (slots : List Slot)
    → i ≢ current
    → IsOrdinary slots (wrap i (length slots))
    → (get_or slots (wrap i (length slots)) freed).taken ≡ 0
    → next_from (suc fuel) current i slots ≡ some (runs_thread (wrap i (length slots)) slots)
unfolding next_from free_driver
choose_free fuel current i slots n plain free = rw (plain, free) (ground arith)

stop_at_current :
    (fuel current : ℕ) (slots : List Slot)
    → next_from (suc fuel) current current slots ≡ some (halts slots)
unfolding next_from
stop_at_current fuel current slots = ground arith

-- How many places after `current` the slot `j` is, in an array of `n` slots that goes round.
abbrev pub turn : ℕ → ℕ → ℕ → ℕ
turn current n j = if ltb current j then j - current else j + n - current

module _ (fuel current : ℕ) (slots : List Slot) (enough : length slots ≤ fuel)
    (inside : current < length slots) (small : length slots < 2 ^ 32) where
  first_place : u32 (current + 1) ≡ current + 1
  first_place = omega arith

  -- From the end of the array the loop goes on at slot 1, once slot 0 was busy.
  around :
      (left n r : ℕ)
      → left ≡ n + r + 1
      → r < current
      → ((j : ℕ) → j < r → Busy slots j)
      → IsOrdinary slots r
      → (get_or slots r freed).taken ≡ 0
      → next_from left current (length slots) slots ≡ some (runs_thread r slots)
  around zero n r e before all plain free = absurd (omega arith)
  around (suc left) n zero e before all plain free =
      let zeroth : wrap (length slots) (length slots) ≡ 0 = unfold wrap in ground arith in
      choose_free left current (length slots) slots (omega arith) (rw zeroth plain) (rw zeroth free)
      ∙ ap (λ (i : ℕ). some (runs_thread i slots)) zeroth
  around (suc left) n (suc r) e before all plain free =
      let zeroth : wrap (length slots) (length slots) ≡ 0 = unfold wrap in ground arith in
      let next : u32 (wrap (length slots) (length slots) + 1) ≡ 1 = omega (arith, zeroth) in
      let end : 1 + r ≡ suc r = omega arith in
      let here : wrap (suc r) (length slots) ≡ suc r = unfold wrap in ground arith in
      let first : next_from (suc left) current (length slots) slots
          ≡ next_from left current 1 slots =
        pass_one left current (length slots) slots (omega arith) (rw zeroth (all 0 (omega arith)))
        ∙ ap (λ (i : ℕ). next_from left current i slots) next in
      let then_on : next_from left current 1 slots ≡ next_from (suc n) current (suc r) slots =
        pass r left (suc n) current 1 slots (omega arith) (omega arith) small
          (λ j p q. (omega arith, all j (omega arith)))
        ∙ ap (λ (i : ℕ). next_from (suc n) current i slots) end in
      let last : next_from (suc n) current (suc r) slots ≡ some (runs_thread (suc r) slots) =
        choose_free n current (suc r) slots (omega arith) (rw here plain) (rw here free)
        ∙ ap (λ (i : ℕ). some (runs_thread i slots)) here in
      first ∙ then_on ∙ last

  -- All slots behind the last one that ran are passed over.
  to_the_end :
      ((j : ℕ) → current < j → j < length slots → Busy slots j)
      → next_from fuel current (u32 (current + 1)) slots
        ≡ next_from (fuel - (length slots - current - 1)) current (length slots) slots
  to_the_end all =
      let end : current + 1 + (length slots - current - 1) ≡ length slots = omega arith in
      ap (λ (i : ℕ). next_from fuel current i slots) first_place
      ∙ pass (length slots - current - 1) fuel (fuel - (length slots - current - 1)) current
          (current + 1) slots (omega arith) (omega arith) small
          (λ j p q. (omega arith, all j (omega arith) (omega arith)))
      ∙ ap (λ (i : ℕ). next_from (fuel - (length slots - current - 1)) current i slots) end

  to_the_place :
      (r : ℕ)
      → current < r
      → r < length slots
      → IsOrdinary slots r
      → (get_or slots r freed).taken ≡ 0
      → ((j : ℕ) → current < j → j < r → Busy slots j)
      → next_from fuel current (u32 (current + 1)) slots ≡ some (runs_thread r slots)
  to_the_place r after h plain free all =
      let n = fuel - (r - current - 1) - 1 in
      let end : current + 1 + (r - current - 1) ≡ r = omega arith in
      let here : wrap r (length slots) ≡ r = unfold wrap in ground arith in
      let last : next_from (suc n) current r slots ≡ some (runs_thread r slots) =
        choose_free n current r slots (omega arith) (rw here plain) (rw here free)
        ∙ ap (λ (i : ℕ). some (runs_thread i slots)) here in
      ap (λ (i : ℕ). next_from fuel current i slots) first_place
      ∙ pass (r - current - 1) fuel (suc n) current (current + 1) slots (omega arith) (omega arith)
          small (λ j p q. (omega arith, all j (omega arith) (omega arith)))
      ∙ ap (λ (i : ℕ). next_from (suc n) current i slots) end
      ∙ last

  -- The next thread in turn runs: in an array of less than 2 ^ 32 slots, if the thread at `r` is no
  -- driver, not taken and not the processor's last one, and all threads whose turn comes sooner are
  -- taken and no drivers, then `r` is chosen and no slot changes. As many passes as there are slots
  -- are enough.
  pub getnext_thread_next :
      (r : ℕ)
      → r < length slots
      → r ≢ current
      → IsOrdinary slots r
      → (get_or slots r freed).taken ≡ 0
      → ((j : ℕ)
          → j < length slots
          → turn current (length slots) j < turn current (length slots) r
          → Busy slots j)
      → getnext_thread fuel current slots ≡ some (runs_thread r slots)
  unfolding getnext_thread
  getnext_thread_next r h other plain free all = elim (Bool-cases (ltb current r)) [
    | inl after ↦
        to_the_place r (ground arith) h plain free (λ j p q. all j (omega arith) (ground arith))
    | inr before ↦
        to_the_end (λ j p q. all j q (ground arith))
        ∙ around (fuel - (length slots - current - 1)) (fuel - (length slots - current - 1) - r - 1)
            r (ground arith) (ground arith) (λ j p. all j (ground arith) (ground arith)) plain free
  ]

  -- If all threads but the processor's last one are taken and none is a driver, the processor halts,
  -- where that last one is not in slot 0.
  getnext_thread_halts :
      0 < current
      → ((j : ℕ) → j < length slots → j ≢ current → Busy slots j)
      → getnext_thread fuel current slots ≡ some (halts slots)
  unfolding getnext_thread
  getnext_thread_halts h all =
      let left = fuel - (length slots - current - 1) - 1 in
      let n = fuel - length slots in
      let zeroth : wrap (length slots) (length slots) ≡ 0 = unfold wrap in ground arith in
      let next : u32 (wrap (length slots) (length slots) + 1) ≡ 1 = omega (arith, zeroth) in
      let more : fuel - (length slots - current - 1) ≡ suc left = omega arith in
      let end : 1 + (current - 1) ≡ current = omega arith in
      let first : next_from (suc left) current (length slots) slots
          ≡ next_from left current 1 slots =
        pass_one left current (length slots) slots (omega arith)
          (rw zeroth (all 0 (omega arith) (omega arith)))
        ∙ ap (λ (i : ℕ). next_from left current i slots) next in
      to_the_end (λ j p q. all j q (omega arith))
      ∙ ap (λ (t : ℕ). next_from t current (length slots) slots) more
      ∙ first
      ∙ pass (current - 1) left (suc n) current 1 slots (omega arith) (omega arith) small
          (λ j p q. (omega arith, all j (omega arith) (omega arith)))
      ∙ ap (λ (i : ℕ). next_from (suc n) current i slots) end
      ∙ stop_at_current n current slots

endless_from :
    (fuel i : ℕ) (slots : List Slot)
    → 0 < i
    → i ≤ length slots
    → length slots < 2 ^ 32
    → ((j : ℕ) → j < length slots → Busy slots j)
    → next_from fuel 0 i slots ≡ none
endless_from zero i slots p q small all = unfold next_from in refl
endless_from (suc fuel) i slots p q small all =
    let inside : wrap i (length slots) < length slots = unfold wrap in ground arith in
    pass_one fuel 0 i slots (omega arith) (all (wrap i (length slots)) inside)
    ∙ endless_from fuel (u32 (wrap i (length slots) + 1)) slots (omega (arith, inside))
        (omega (arith, inside)) small all

-- Where the processor's last thread is in slot 0, and all threads are taken and none is a
-- driver, the loop never ends, however many passes it is given.
getnext_thread_endless :
    (fuel : ℕ) (slots : List Slot)
    → 0 < length slots
    → length slots < 2 ^ 32
    → ((j : ℕ) → j < length slots → Busy slots j)
    → getnext_thread fuel 0 slots ≡ none
unfolding getnext_thread
getnext_thread_endless fuel slots h small all =
    endless_from fuel (u32 (0 + 1)) slots (omega arith) (omega arith) small all
