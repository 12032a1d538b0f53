-- ===== src/Lock.antt =====
-- mutex() of kontrol.h, instruction by instruction, which King's and Thread's stream_init call.
--
-- The operand order is the one in which the routine makes sense: `MOVq a,b` writes `b`, and
-- `CMPXCHG (%%rcx),%%dl` compares %al with the byte at (%%rcx) and stores %dl there if they agree.
-- `rcx` holds the byte's address throughout and is left out; the byte itself is `calendar`.
pub mod Spin
mod Tests
use best_kernel.Base.{
  ℕ, zero, suc, ◌+◌, ◌-◌, ◌%◌, ◌/◌, ◌*◌, ◌^◌, Bool, true, false, ◌==◌, if◌then◌else◌, u32,
  set_low_byte,
}

-- The instruction to be executed next, in the order of the source.
pub data Label : Type 0 where
  save_pointer load_owner mutex_loop compare_exchange test_owner jump_broken : Label
  lelul decrement test_delay jump_lelul jump_mutex_loop mutex_broken : Label

pub record Cpu : Type 0 where
  pub next : Label
  pub rax : ℕ
  pub rdx : ℕ
  pub zero_flag : Bool
  pub calendar : ℕ

unfoldable pub compare_exchange_step : Cpu → Cpu
compare_exchange_step c =
    if c.rax % 256 == c.calendar
    then record c { next = test_owner; zero_flag = true; calendar = c.rdx % 256 }
    else record c { next = test_owner; zero_flag = false; rax = set_low_byte c.rax c.calendar }

unfoldable pub jump : Bool → Label → Label → Cpu → Cpu
jump true there through c = record c { next = there }
jump false there through c = record c { next = through }

unfoldable pub execute : Label → Cpu → Cpu
unfolding compare_exchange_step jump
execute save_pointer c = record c { next = load_owner }
execute load_owner c = record c { next = mutex_loop; rdx = 255 }
execute mutex_loop c = record c { next = compare_exchange; rax = 0; zero_flag = true }
execute compare_exchange c = compare_exchange_step c
execute test_owner c = record c { next = jump_broken; zero_flag = u32 c.rdx == 0 }
execute jump_broken c = jump c.zero_flag mutex_broken lelul c
execute lelul c = record c { next = decrement; rax = 500 }
execute decrement c =
    let less : ℕ = u32 (c.rax + 2 ^ 32 - 1) in
    record c { next = test_delay; rax = less; zero_flag = less == 0 }
execute test_delay c = record c { next = jump_lelul; zero_flag = u32 c.rax == 0 }
execute jump_lelul c = jump c.zero_flag jump_mutex_loop lelul c
execute jump_mutex_loop c = record c { next = mutex_loop }
execute mutex_broken c = c

-- One instruction of this processor, or a write of the calendar by another one.
pub data Step : Cpu → Cpu → Type 0 where
  own : (c : Cpu) → Step c (execute c.next c)
  other : (c : Cpu) (byte : ℕ) → Step c (record c { calendar = byte })

pub data Reach (c : Cpu) : Cpu → Type 0 where
  here : Reach c c
  more : {d e : Cpu} → Reach c d → Step d e → Reach c e

-- On entry: the registers and the byte hold anything.
unfoldable pub entry : ℕ → ℕ → Bool → ℕ → Cpu
entry rax rdx zero_flag calendar = record {
  next = save_pointer;
  rax = rax;
  rdx = rdx;
  zero_flag = zero_flag;
  calendar = calendar;
}

-- The processor alone, for a number of instructions.
unfoldable pub run : ℕ → Cpu → Cpu
unfolding execute
run zero c = c
run (suc n) c = run n (execute c.next c)
