-- ===== src/Tasks/Tests.antt =====
-- A thread with the signals 1 and 4 pending, the first of them masked.
use best_kernel.Base.{◌+◌, ◌-◌, ℕ, zero, suc, ◌≡◌, refl, ◌<◌, arith, List, [], ◌∷◌, inl, inr}
use best_kernel.Base.{false, some}
use best_kernel.Base.{true, ◌*◌}
use best_kernel.Tasks.Help.{Processor, get_some_help}
use best_kernel.Tasks.Help.Handing.{Handed, get_some_help-Handed}
use best_kernel.Tasks.Sacrifice.{Contender, eligible}
use best_kernel.Tasks.Scheduler.{Slot, runs_thread, getnext_thread}
use best_kernel.Tasks.Turns.{Busy, turn, getnext_thread_next}
use best_kernel.Tasks.{Registers, Thread, application, runs, handles, check_signals}
use best_kernel.Tasks.Signals.{Ignored, check_signals_idle, check_signals_delivers}

abbrev stopped_at : ℕ → Registers
stopped_at pointer = record {
  accumulator = 0;
  counter = 0;
  rdx = 0;
  rbx = 0;
  stack_pointer = 0;
  string_dest = 0;
  string_source = 0;
  frame_pointer = 0;
  eight = 0;
  nine = 0;
  ten = 0;
  eleven = 0;
  twelve = 0;
  thirteen = 0;
  fourteen = 0;
  fifteen = 0;
  flags = 0;
  instruction_override = 9 ∷ 8 ∷ 7 ∷ 6 ∷ 5 ∷ 4 ∷ 3 ∷ 2 ∷ 1 ∷ 0 ∷ 0 ∷ 0 ∷ 0 ∷ 0 ∷ 0 ∷ 0 ∷ [];
  instruction_pointer = pointer;
  fs = 0;
  ds = 0;
}

abbrev waiting : ℕ → List ℕ → Thread
waiting sigset sighandlers = record {
  state = stopped_at 64;
  type = application;
  sigmask = 2;
  sigset = sigset;
  sighandlers = sighandlers;
  taken = 0;
  sys_retval = 2;
  poll = 0;
  target_micros = 0;
}

abbrev handled : Thread
handled = waiting 18 (0 ∷ 50 ∷ 0 ∷ 0 ∷ 77 ∷ [])

nothing_handled : (k : ℕ) → k < 14 → Ignored (waiting 18 []) k
nothing_handled zero h = inl (omega arith)
nothing_handled (suc zero) h = inr ((ground arith, ground arith, ground arith), inr refl)
nothing_handled (suc (suc zero)) h = inl (omega arith)
nothing_handled (suc (suc (suc zero))) h = inl (omega arith)
nothing_handled (suc (suc (suc (suc k)))) h =
    inr ((ground arith, ground arith, ground arith), inr refl)

masked_below : (j : ℕ) → j < 4 → Ignored handled j
masked_below zero h = inl (omega arith)
masked_below (suc zero) h = inr ((ground arith, ground arith, ground arith), inl (omega arith))
masked_below (suc (suc zero)) h = inl (omega arith)
masked_below (suc (suc (suc zero))) h = inl (omega arith)
masked_below (suc (suc (suc (suc j)))) h = absurd (omega arith)

check_signals_idle_example : check_signals (waiting 18 []) ≡ runs (waiting 18 [])
check_signals_idle_example = check_signals_idle (waiting 18 []) nothing_handled

check_signals_delivers_example :
    check_signals handled
    ≡ handles (record handled {
      state = record (handled.state) { instruction_pointer = 77; accumulator = 2 };
    })
check_signals_delivers_example =
    check_signals_delivers handled 4 77 (omega arith) masked_below
      (ground arith, ground arith, ground arith) (omega arith) (omega arith) refl (omega arith)

-- Five slots, of which only the first is free; and two, both taken.
abbrev five_slots : List Slot
five_slots =
    record { is_driver = false; taken = 0 }
    ∷ record { is_driver = false; taken = 255 }
    ∷ record { is_driver = false; taken = 255 }
    ∷ record { is_driver = false; taken = 255 }
    ∷ record { is_driver = false; taken = 255 }
    ∷ []

abbrev two_taken : List Slot
two_taken =
    record { is_driver = false; taken = 255 } ∷ record { is_driver = false; taken = 255 } ∷ []

two_taken-Busy : (j : ℕ) → j < 2 → Busy two_taken j
two_taken-Busy zero h = (refl, ground arith)
two_taken-Busy (suc zero) h = (refl, ground arith)
two_taken-Busy (suc (suc j)) h = absurd (omega arith)

sooner-Busy : (j : ℕ) → j < 5 → turn 2 5 j < turn 2 5 0 → Busy five_slots j
sooner-Busy zero h t = absurd (omega arith)
sooner-Busy (suc zero) h t = (refl, ground arith)
sooner-Busy (suc (suc zero)) h t = (refl, ground arith)
sooner-Busy (suc (suc (suc zero))) h t = (refl, ground arith)
sooner-Busy (suc (suc (suc (suc zero)))) h t = (refl, ground arith)
sooner-Busy (suc (suc (suc (suc (suc j))))) h t = absurd (omega arith)

getnext_thread_next_example : getnext_thread 5 2 five_slots ≡ some (runs_thread 0 five_slots)
getnext_thread_next_example =
    getnext_thread_next 5 2 five_slots (omega arith) (omega arith) (omega arith) 0 (omega arith)
      (ground arith) refl refl sooner-Busy

-- Process `j` uses `j` units of 512 pages, with two threads.
abbrev growing : ℕ → Contender
growing j = record {
  is_system = false;
  taken = 1;
  memory_usage = j * 512;
  wk_count = 2;
  sacrival = 0;
  sigset = 0;
}

growing-eligible : (j : ℕ) → eligible (growing j) ≡ true
unfolding eligible
growing-eligible j = refl

abbrev two_processors : ℕ → Processor
two_processors i = record { current_thread = i + 10; executed_threads = 1 - i; online_capable = 1 }

get_some_help-Handed_example : Handed 2 0 5 two_processors (get_some_help 2 0 5 two_processors)
get_some_help-Handed_example = get_some_help-Handed 2 0 5 two_processors

-- The second processor has run nothing: it gets thread 5.
helped : ((get_some_help 2 0 5 two_processors).0 1).current_thread ≡ 5
unfolding get_some_help
helped = refl
