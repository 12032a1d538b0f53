-- ===== src/Lock/Spin.antt =====
-- How far a processor gets inside mutex().
use best_kernel.Base.{ℕ, ◌≡◌, ◌≢◌, Bool, false, arith, ◌==◌, if◌then◌else◌}
use best_kernel.Lock.{
  Label, save_pointer, load_owner, mutex_loop, compare_exchange, test_owner, jump_broken, lelul,
  decrement, test_delay, jump_lelul, jump_mutex_loop, mutex_broken, Cpu, execute, Step, own, other,
  Reach, here, more, entry, run,
}

-- What holds before each instruction: from the loop on %edx is 255, so the test that should leave
-- the loop fails, and the delay starts over at 500 each time.
abbrev pub Holds : Label → Cpu → Type 0
Holds save_pointer c = Unit {0}
Holds load_owner c = Unit {0}
Holds mutex_loop c = c.rdx ≡ 255
Holds compare_exchange c = c.rdx ≡ 255
Holds test_owner c = c.rdx ≡ 255
Holds jump_broken c = c.zero_flag ≡ false
Holds lelul c = Unit {0}
Holds decrement c = c.rax ≡ 500
Holds test_delay c = c.rax ≡ 499
Holds jump_lelul c = c.zero_flag ≡ false
Holds jump_mutex_loop c = ⊥
Holds mutex_broken c = ⊥

execute-Holds : (l : Label) (c : Cpu) → Holds l c → Holds (execute l c).next (execute l c)
unfolding execute
execute-Holds save_pointer c h = tt
execute-Holds _ c h = ground arith

other-Holds : (l : Label) (c : Cpu) (byte : ℕ) → Holds l c → Holds l (record c { calendar = byte })
other-Holds save_pointer c byte h = tt
other-Holds _ c byte h = h

Step-Holds : {c d : Cpu} → Step c d → Holds c.next c → Holds d.next d
Step-Holds (own c) h = execute-Holds c.next c h
Step-Holds (other c byte) h = other-Holds c.next c byte h

Reach-Holds : {c d : Cpu} → Reach c d → Holds c.next c → Holds d.next d
Reach-Holds here h = h
Reach-Holds (more r s) h = Step-Holds s (Reach-Holds r h)

Holds-inside : (l : Label) (c : Cpu) → Holds l c → (l ≢ mutex_broken) × (l ≢ jump_mutex_loop)
Holds-inside save_pointer c h = ground arith
Holds-inside _ c h = ground arith

-- From a call of mutex(), with any register contents and any calendar, and whatever the other
-- processors write to the calendar in the meantime, no execution reaches the label that returns,
-- nor the jump back to a second attempt: mutex() tries to take the byte once and then never returns.
pub mutex_never_returns :
    (rax rdx : ℕ) (zero_flag : Bool) (calendar : ℕ) {c : Cpu}
    → Reach (entry rax rdx zero_flag calendar) c
    → (c.next ≢ mutex_broken) × (c.next ≢ jump_mutex_loop)
unfolding entry
mutex_never_returns rax rdx zero_flag calendar {c} r = Holds-inside c.next c (Reach-Holds r tt)

-- The one attempt is right: alone, four instructions after the call, a free calendar holds 255, and
-- a taken one (not 0) what it held.
pub mutex_takes :
    (rax rdx : ℕ) (zero_flag : Bool) (calendar : ℕ)
    → (run 4 (entry rax rdx zero_flag calendar)).calendar
      ≡ (if calendar == 0 then 255 else calendar)
unfolding run entry
mutex_takes rax rdx zero_flag calendar = ground arith
