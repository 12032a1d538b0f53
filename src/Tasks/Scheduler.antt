-- ===== src/Tasks/Scheduler.antt =====
-- getnext_thread of runtime/sched/sched.cpp: the choice of the thread that a processor runs next.
--
-- `&tking[i]` is read as the address of slot `i`. The test of SIGKILL is one of the number 0, which
-- never holds, so what follows it is left out; and the test of `target_micros` is the last statement
-- of the loop, so its `continue` changes nothing. A slot that is freed is zeroed (kontrol.h,
-- Hash::free): it is not taken afterwards, and its type, 0, is DRIVER again.
use best_kernel.Base.{
  ℕ, zero, suc, ◌+◌, Option, some, none, List, Bool, true, ◌==◌, if◌then◌else◌, u32, get_or, set,
  length,
}

-- What the loop looks at of a thread.
pub record Slot : Type 0 where
  pub is_driver : Bool
  pub taken : ℕ

abbrev pub freed : Slot
freed = record { is_driver = true; taken = 0 }

-- What the call leaves: the thread chosen, or none (the processor halts), and the slots.
pub data Choice : Type 0 where
  runs_thread : ℕ → List Slot → Choice
  halts : List Slot → Choice

-- `if (type == DRIVER){ pool_free(slot,1);}`
unfoldable pub free_driver : ℕ → List Slot → List Slot
free_driver i slots = if (get_or slots i freed).is_driver then set slots i freed else slots

-- `if (i == tking->length){ i = 0;}`
unfoldable pub wrap : ℕ → ℕ → ℕ
wrap i length = if i == length then 0 else i

-- The loop from `i` on; empty if the fuel ends before the loop does.
unfoldable pub next_from : ℕ → ℕ → ℕ → List Slot → Option Choice
unfolding free_driver wrap
next_from zero current i slots = none
next_from (suc fuel) current i slots =
    let place = wrap i (length slots) in
    let slots' = free_driver place slots in
    let rest = next_from fuel current (u32 (place + 1)) slots' in
    if i == current
    then some (halts slots)
    else if (get_or slots' place freed).taken == 0
    then some (runs_thread place slots')
    else rest

unfoldable pub getnext_thread : ℕ → ℕ → List Slot → Option Choice
unfolding next_from
getnext_thread fuel current slots = next_from fuel current (u32 (current + 1)) slots
