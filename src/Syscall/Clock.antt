-- ===== src/Syscall/Clock.antt =====
-- The calls on the clock and on identity, time.h, 013_SYSGETTIME.cpp, 014_SYSGETTIME_EPOCH.cpp,
-- 025_SYS_GETTID.cpp and 027_SYS_GETPID.cpp.
--
-- The firmware's clock is a parameter, `rtc`. An `int` product that passes 31 digits wraps around,
-- and is extended by its sign where it meets a `long`.
use best_kernel.Base.{ℕ, ◌+◌, ◌-◌, ◌*◌, ◌/◌, ◌^◌, ◌!=◌, if◌then◌else◌, ltb, u32, u64, [], ◌∷◌, ◌++◌}
use best_kernel.Vfs.{set_timespec}
use best_kernel.Syscall.{Kernel, Context, sysret}

pub record RtcTime : Type 0 where
  pub year : ℕ
  pub month : ℕ
  pub day : ℕ
  pub hour : ℕ
  pub minute : ℕ
  pub second : ℕ
  pub nanosecond : ℕ
  pub timezone : ℕ
  pub daylight : ℕ

-- An `int` as a `long`.
abbrev pub int_to_long : ℕ → ℕ
int_to_long n = if ltb (u32 n) (2 ^ 31) then u32 n else u32 n + (2 ^ 64 - 2 ^ 32)

unfoldable pub gettime_nanos : RtcTime → ℕ
gettime_nanos rtc = u64 (
    int_to_long (rtc.hour * 3600 * 1000000000)
    + rtc.minute * 60 * 10000000000
    + int_to_long (rtc.second * 1000000000)
    + rtc.nanosecond)

unfoldable pub gettime_millis : RtcTime → ℕ
unfolding gettime_nanos
gettime_millis rtc = gettime_nanos rtc / 1000

-- The code that the call set_timespec returns, and its request.
unfoldable pub set_clock : Context → ℕ → Kernel → ℕ × Kernel
set_clock c rtcinsert k =
    if k.process.owner_id != c.root
    then (1, k)
    else (0, record k { log = k.log ++ set_timespec rtcinsert ∷ [] })

-- `thread = gettime_nanos(void); run_thread(thread);`: the address of the thread that runs.
unfoldable pub sys_gettime : RtcTime → Kernel → ℕ × Kernel
unfolding gettime_nanos
sys_gettime rtc k = (gettime_nanos rtc, k)

unfoldable pub sys_gettime_epoch : (epoch : ℕ) → Kernel → Kernel
sys_gettime_epoch epoch k = sysret epoch k

-- `(pointer-pool)/sizeof(T)`: the difference of two pointers already counts elements.
unfoldable pub index_of : (pointer pool size : ℕ) → ℕ
index_of pointer pool size = (pointer - pool) / size / size

unfoldable pub sys_gettid : (thread pool size : ℕ) → Kernel → Kernel
unfolding index_of
sys_gettid thread pool size k = sysret (index_of thread pool size) k

unfoldable pub sys_getpid : (process pool size : ℕ) → Kernel → Kernel
unfolding index_of
sys_getpid process pool size k = sysret (index_of process pool size) k
