-- ===== src/Lock/Tests.antt =====
-- One call of mutex(): its first instruction, and its attempt on a taken calendar.
use best_kernel.Base.{◌≡◌, ◌≢◌, false, ◌==◌, if◌then◌else◌}
use best_kernel.Lock.{Cpu, entry, execute, run, mutex_broken, jump_mutex_loop, own, here, more}
use best_kernel.Lock.Spin.{mutex_never_returns, mutex_takes}

abbrev called : Cpu
called = entry 5 0 false 255

mutex_never_returns_example :
    ((execute called.next called).next ≢ mutex_broken)
    × ((execute called.next called).next ≢ jump_mutex_loop)
mutex_never_returns_example = mutex_never_returns 5 0 false 255 (more here (own called))

mutex_takes_example : (run 4 (entry 5 0 false 7)).calendar ≡ (if 7 == 0 then 255 else 7)
mutex_takes_example = mutex_takes 5 0 false 7
