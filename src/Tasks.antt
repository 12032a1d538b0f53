-- ===== src/Tasks.antt =====
-- Threads, processes, descriptors and signals: runtime/sched/core.h, and the signal code of
-- runtime/sched/sched.cpp and kernlib/irhandlers.cpp.
--
-- core.h declares the classes twice; the first declarations are the ones modelled, where
-- `instruction_override` stands. APPLICATION, which sched.cpp uses as a thread type, is the THREAD
-- of the enum. A process lies under its threads as the field `parent`.
pub mod Signals
pub mod Scheduler
pub mod Turns
pub mod Sacrifice
pub mod Champion
pub mod Help
pub mod Killing
mod Tests
use best_kernel.Base.{
  ℕ, zero, suc, ◌+◌, ◌*◌, ◌/◌, ◌%◌, ◌^◌, bit_and, bit_or, bit_xor, ◌==◌, ◌!=◌, if◌then◌else◌, Bool,
  true, false, List, [], ◌∷◌, get_or, set, u32, ltb,
}

-- The numbers of the signals, the first enum of the namespace.
abbrev pub sigkill : ℕ
sigkill = 0

abbrev pub sigterm : ℕ
sigterm = 1

abbrev pub sigstop : ℕ
sigstop = 2

abbrev pub sigcont : ℕ
sigcont = 3

abbrev pub sigpolling : ℕ
sigpolling = 8

abbrev pub maxsig : ℕ
maxsig = 14

pub data ThreadType : Type 0 where
  driver quirk application device kernel : ThreadType

-- struct state: the registers of a thread that does not run.
pub record Registers : Type 0 where
  pub accumulator : ℕ
  pub counter : ℕ
  pub rdx : ℕ
  pub rbx : ℕ
  pub stack_pointer : ℕ
  pub string_dest : ℕ
  pub string_source : ℕ
  pub frame_pointer : ℕ
  pub eight : ℕ
  pub nine : ℕ
  pub ten : ℕ
  pub eleven : ℕ
  pub twelve : ℕ
  pub thirteen : ℕ
  pub fourteen : ℕ
  pub fifteen : ℕ
  pub flags : ℕ
  pub instruction_override : List ℕ
  pub instruction_pointer : ℕ
  pub fs : ℕ
  pub ds : ℕ

pub record Descriptor : Type 0 where
  pub findex : ℕ
  pub flags : ℕ
  pub file_offset : ℕ

-- process_descriptors: the descriptors with their check bytes.
pub record Descriptors : Type 0 where
  pub length : ℕ
  pub count : ℕ
  pub ckarray : List ℕ
  pub pool : List Descriptor

pub record Process : Type 0 where
  pub owner_id : ℕ
  pub sigmask : ℕ
  pub sigset : ℕ
  pub pagetree : ℕ
  pub descs : Descriptors
  pub used_memory : ℕ

pub record Thread : Type 0 where
  pub state : Registers
  pub type : ThreadType
  pub sigmask : ℕ
  pub sigset : ℕ
  pub sighandlers : List ℕ
  pub taken : ℕ
  pub sys_retval : ℕ
  pub poll : ℕ
  pub target_micros : ℕ

-- How signal_handler leaves: it returns 0 or 1, has killed the thread, or has gone to the handler
-- in user space.
pub data Handled : Type 0 where
  returns : ℕ → Thread → Handled
  killed : Handled
  enters : Thread → Handled

-- `if (thread->sigmask & signal)` and what follows it, with the store of run_ringthree.
unfoldable pub deliver : ℕ → ℕ → Thread → Handled
deliver index signal t =
    if bit_and t.sigmask signal != 0
    then returns 0 t
    else if get_or t.sighandlers index 0 != 0
    then enters (record t {
      state = record (t.state) {
        instruction_pointer = get_or t.sighandlers index 0;
        accumulator = t.sys_retval;
      };
      sigset = bit_or t.sigset sigkill;
    })
    else returns 0 t

unfoldable pub signal_handler : ℕ → ℕ → Thread → Handled
unfolding deliver
signal_handler index signal t =
    if index == sigkill
    then killed
    else if index == sigstop
    then returns 1 t
    else if index == sigcont
    then returns 0 (record t { sigset = bit_xor (bit_or t.sigset sigstop) sigstop })
    else deliver index signal t

-- What check_signals makes of the thread's own signals: it runs on, is put off (RESCHEDULE), is
-- killed, or enters a handler.
pub data Checked : Type 0 where
  runs : Thread → Checked
  rescheduled : Thread → Checked
  gone : Checked
  handles : Thread → Checked

unfoldable pub continue_with : (Thread → Checked) → Handled → Checked
continue_with rest (returns zero t) = rest t
continue_with rest (returns (suc n) t) = rescheduled t
continue_with rest killed = gone
continue_with rest (enters t) = handles t

-- The first loop of check_signals, `left` signals to go from number `i`, with `g` = 2 ^ i.
unfoldable pub check_from : ℕ → ℕ → ℕ → Thread → Checked
unfolding continue_with signal_handler
check_from zero i g t = runs t
check_from (suc left) i g t =
    let next = check_from left (i + 1) (u32 (g * 2)) in
    if bit_and t.sigset g != 0 then continue_with next (signal_handler i g t) else next t

unfoldable pub check_signals : Thread → Checked
unfolding check_from
check_signals t = check_from maxsig 0 1 t

-- The loop of signal_issuer over the 16 overrides: each empty one takes the handler.
unfoldable pub fill_overrides : ℕ → List ℕ → List ℕ
fill_overrides insert [] = []
fill_overrides insert (x ∷ xs) = (if x == 0 then insert else x) ∷ fill_overrides insert xs

-- signal_issuer up to its last test: the loop runs to 16 in every case, so the process is killed.
unfoldable pub signal_issuer : ℕ → Thread → Process → Thread × Process
unfolding fill_overrides
signal_issuer index t p = (
  record t {
    state = record (t.state) {
      instruction_override =
          fill_overrides (get_or t.sighandlers index 0) t.state.instruction_override;
    };
  },
  record p { sigset = bit_or p.sigset sigkill },
)

-- `for (i = 0; i < 15; ++i){ codes[i] = codes[i+1];}`
unfoldable pub shift_overrides : ℕ → ℕ → List ℕ → List ℕ
shift_overrides zero i codes = codes
shift_overrides (suc left) i codes =
    shift_overrides left (i + 1) (set codes i (get_or codes (i + 1) 0))

unfoldable pub signal_handler_return : Thread → Thread
unfolding shift_overrides
signal_handler_return t = record t {
  state = record (t.state) {
    instruction_override = shift_overrides 15 0 t.state.instruction_override;
  };
}
