-- ===== src/Tasks/Help.antt =====
-- get_some_help and sysret of runtime/sched/sched.cpp.
--
-- Processors are numbered; `me` is the calling one. get_next_thread, with the slots of threads, is
-- an argument: `next` is the thread that it leaves as the caller's current one. A thread that is
-- poked gets the vector HELP_OUT.
pub mod Handing
use best_kernel.Base.{
  ℕ, zero, suc, ◌+◌, ◌*◌, ◌/◌, ◌==◌, if◌then◌else◌, ltb, not, Bool, true, false, Option, some, none,
  List, [], ◌∷◌, ◌++◌, u32,
}
use best_kernel.Tasks.{Thread, ThreadType, application, kernel}

-- class Processor
pub record Processor : Type 0 where
  pub current_thread : ℕ
  pub executed_threads : ℕ
  pub online_capable : ℕ

-- How get_some_help ends: a brother is poked, or BLOOD_LIBEL is called.
pub data Helped : Type 0 where
  poked : ℕ → Helped
  blood_libel_called : Helped

-- The first brother, from `i` on, that has run no thread and can be woken.
unfoldable pub idle_brother : (left i : ℕ) → (ℕ → Processor) → Option ℕ
idle_brother zero i pool = none
idle_brother (suc left) i pool =
    let rest = idle_brother left (i + 1) pool in
    if (pool i).executed_threads == 0
    then if (pool i).online_capable == 0 then rest else some i
    else rest

abbrev pub set_current : ℕ → ℕ → (ℕ → Processor) → ℕ → Processor
set_current i thread pool =
    λ j. if j == i then record (pool j) { current_thread = thread } else pool j

-- `backup` is ustd_t, so a longer number is cut. `brother->current_thread = struggler->current_thread; struggler->current_thread = backup;`
unfoldable pub get_some_help : (number me next : ℕ) → (ℕ → Processor) → (ℕ → Processor) × Helped
unfolding idle_brother
get_some_help number me next pool = elim (idle_brother number 0 pool) [
  | none ↦ (pool, blood_libel_called)
  | some i ↦
      let backup = u32 (pool me).current_thread in
      let chosen = set_current me next pool in
      let given = set_current i (chosen me).current_thread chosen in
      (set_current me backup given, poked i)
]

-- How a system call leaves the kernel.
pub data Left : Type 0 where
  reschedules : Thread → Left
  kills_and_jumps : ℕ → Left
  runs : Thread → Left

-- `prior` is the instruction pointer of the thread before, and `size` SYSCALL_INSTRUCTION_LENGTH.
unfoldable pub leave_call : (prior size : ℕ) → ThreadType → Thread → Left
leave_call prior size application t = reschedules (record t { taken = 0 })
leave_call prior size kernel t = kills_and_jumps (prior + size)
leave_call prior size _ t = runs t
