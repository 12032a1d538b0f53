-- ===== src/Syscall/Outcomes.antt =====
-- What the calls of Naming, Clock and Polls come to.
use best_kernel.Base.{
  ℕ, zero, suc, ◌+◌, ◌-◌, ◌*◌, ◌/◌, ◌≤◌, ◌<◌, ◌≡◌, ◌≢◌, refl, ap, ◌∙◌, arith, ◌==◌, ◌!=◌,
  if◌then◌else◌, ltb, Bool, true, false, Option, some, none, List, [], ◌∷◌,
}
use native.Mathlib.Nat.{mul-div_cancel_left, div-eq_of_lt}
use best_kernel.Base.Bits.{and-zero}
use best_kernel.Memory.{Memory}
use best_kernel.Syscall.{Kernel, Context, sysret, bad_descriptor}
use best_kernel.Syscall.Naming.{
  no_matching_filename, at_descriptor, keep_flags, sysopen, path_ends, sys_chroot,
}
use best_kernel.Syscall.Clock.{RtcTime, gettime_nanos, sys_gettid}
use best_kernel.Syscall.Polls.{Poller, Polled, poll_passes, poll_once, report_workers, report_io}

-- SYSOPEN makes no file: O_CREAT is 0. Where the directory's descriptor is good, the call returns 1
-- for a name that is not there and leaves the return value otherwise, whatever the flags; the files
-- stay as they were.
sysopen_never_creates :
    (c : Context) (o_directory dir_descriptor flags eval : ℕ) (newdesc newfile : Option ℕ)
    (name : List ℕ) (k : Kernel)
    → bad_descriptor k dir_descriptor ≡ false
    → ((sysopen c o_directory dir_descriptor flags eval newdesc newfile name k).1.files ≡ k.files)
      × ((sysopen c o_directory dir_descriptor flags eval newdesc newfile name
            k).1.thread.sys_retval
          ≡ (if eval == no_matching_filename then 1 else k.thread.sys_retval))
unfolding sysopen keep_flags at_descriptor
sysopen_never_creates c o_directory dir_descriptor flags eval none newfile name k e =
    (ground (arith, and-zero flags), ground (arith, and-zero flags))
sysopen_never_creates c o_directory dir_descriptor flags eval (some i) newfile name k e =
    (ground (arith, and-zero flags), ground (arith, and-zero flags))

-- path_ends finds a zero byte, and only that.
path_ends-zero :
    (left g path d : ℕ) (m : Memory)
    → g + left ≡ 4096
    → d < left
    → m (path + (g + d)) ≡ 0
    → path_ends left g path m ≡ true
unfolding path_ends
path_ends-zero zero g path d m e l z = absurd (omega arith)
path_ends-zero (suc left) g path zero m e l z =
    let here : m (path + g) ≡ 0 = ap m (omega arith) ∙ z in ground arith
path_ends-zero (suc left) g path (suc d) m e l z =
    let later : m (path + (g + 1 + d)) ≡ 0 = ap m (omega arith) ∙ z in
    ground (arith, path_ends-zero left (g + 1) path d m (omega arith) (omega arith) later)

path_ends_none :
    (left g path : ℕ) (m : Memory)
    → g + left ≡ 4096
    → ((d : ℕ) → d < left → m (path + (g + d)) ≢ 0)
    → path_ends left g path m ≡ false
unfolding path_ends
path_ends_none zero g path m e h = refl
path_ends_none (suc left) g path m e h =
    let here : m (path + g) ≢ 0 = λ z. h 0 (omega arith) (ap m (omega arith) ∙ z) in
    let later : (d : ℕ) → d < left → m (path + (g + 1 + d)) ≢ 0 =
      λ d l z. h (suc d) (omega arith) (ap m (omega arith) ∙ z) in
    ground (arith, path_ends_none left (g + 1) path m (omega arith) later)

chroot_code :
    (code : ℕ) (k : Kernel) (ends : Bool)
    → (if ends then (if code != 0 then sysret 3 k else sysret 0 k) else sysret 2 k)
      ≡ sysret (if ends then (if code == 0 then 0 else 3) else 2) k
chroot_code code k true = ground arith
chroot_code code k false = refl

nonzero : (n : ℕ) → n ≢ 0 → (n == 0) ≡ false
nonzero n h = ground arith

-- SYS_CHROOT by whether the path ends.
chroot_by :
    (c : Context) (opened : ℕ → ℕ) (path : ℕ) (k : Kernel) (ends : Bool)
    → c.user_memory path ≢ 0
    → path_ends 4096 0 (c.user_memory path) k.memory ≡ ends
    → sys_chroot c opened path k
      ≡ sysret (if ends then (if opened (c.user_memory path) == 0 then 0 else 3) else 2) k
unfolding sys_chroot
chroot_by c opened path k ends n e =
    let opens : Kernel = if opened (c.user_memory path) != 0 then sysret 3 k else sysret 0 k in
    let by : Bool → Kernel = λ t. if t then opens else sysret 2 k in
    let last : (t : Bool)
        → by t ≡ sysret (if t then (if opened (c.user_memory path) == 0 then 0 else 3) else 2) k =
      λ t. chroot_code (opened (c.user_memory path)) k t in
    ap (λ (t : Bool). if t then sysret 1 k else by (path_ends 4096 0 (c.user_memory path) k.memory))
      (nonzero (c.user_memory path) n)
    ∙ ap by e
    ∙ last ends

-- SYS_CHROOT changes nothing but the return value, for an address that is mapped: it is 2 where the
-- first 4096 bytes hold no zero, and where byte `g` of them is zero it is 3 if open returns something and 0 if not;
-- the root of the process stays.
sys_chroot_lem :
    (c : Context) (opened : ℕ → ℕ) (path : ℕ) (k : Kernel)
    → c.user_memory path ≢ 0
    → ((g : ℕ)
        → g < 4096
        → k.memory (c.user_memory path + g) ≡ 0
        → sys_chroot c opened path k ≡ sysret (if opened (c.user_memory path) == 0 then 0 else 3) k)
      × (((g : ℕ) → g < 4096 → k.memory (c.user_memory path + g) ≢ 0)
          → sys_chroot c opened path k ≡ sysret 2 k)
sys_chroot_lem c opened path k n = (
  λ g l z. chroot_by c opened path k true n (
      path_ends-zero 4096 0 (c.user_memory path) g k.memory refl l (ap k.memory (omega arith) ∙ z)),
  λ h. chroot_by c opened path k false n (
      path_ends_none 4096 0 (c.user_memory path) k.memory refl
        (λ d l z. h d l (ap k.memory (omega arith) ∙ z))),
)

-- Does a thread poll?
abbrev pub some_polls : List Poller → Bool
some_polls [] = false
some_polls (t ∷ rest) = if ltb 0 t.pollnum then true else some_polls rest

abbrev pub some_polled : List Polled → Bool
some_polled [] = false
some_polled (p ∷ rest) = if some_polls p.workers then true else some_polled rest

poll_once-pollnum :
    (findex action : ℕ) (p : Polled) (t : Poller)
    → (poll_once findex action p t).pollnum ≡ t.pollnum
unfolding poll_once
poll_once-pollnum findex action p t = ground arith

poll_passes_lem :
    (fuel findex action : ℕ) (p : Polled) (t : Poller)
    → poll_passes (suc fuel) findex action p t ≡ (if ltb 0 t.pollnum then none else some t)
unfolding poll_passes
poll_passes_lem zero findex action p t = refl
poll_passes_lem (suc fuel) findex action p t = ground (
  arith,
  poll_once-pollnum findex action p t,
  poll_passes_lem fuel findex action p (poll_once findex action p t),
)

report_workers_lem :
    (fuel findex action : ℕ) (p : Polled) (ts : List Poller)
    → report_workers (suc fuel) findex action p ts ≡ (if some_polls ts then none else some ts)
unfolding report_workers
report_workers_lem fuel findex action p [] = refl
report_workers_lem fuel findex action p (t ∷ rest) =
    ground
      (arith, poll_passes_lem fuel findex action p t, report_workers_lem fuel findex action p rest)

-- report_IO does not return where a thread of a process polls, and where none does it changes
-- nothing: whatever the number of passes that its loops are given, one at least.
report_io_lem :
    (fuel findex action : ℕ) (ps : List Polled)
    → report_io (suc fuel) findex action ps ≡ (if some_polled ps then none else some ps)
unfolding report_io
report_io_lem fuel findex action [] = refl
report_io_lem fuel findex action (p ∷ rest) = ground (
  arith,
  report_workers_lem fuel findex action p p.workers,
  report_io_lem fuel findex action rest,
)

-- The time of day, in the first three seconds of a minute of the first hour: every minute counts as ten.
gettime_nanos_lem :
    (rtc : RtcTime)
    → rtc.hour ≡ 0
    → rtc.minute < 60
    → rtc.second ≤ 2
    → rtc.nanosecond < 1000000000
    → gettime_nanos rtc
      ≡ 10 * (rtc.minute * 60 * 1000000000) + rtc.second * 1000000000 + rtc.nanosecond
unfolding gettime_nanos
gettime_nanos_lem rtc h m s n = ground arith

-- Every thread has the identity 0: SYS_GETTID divides the index of a thread once more by the size of a thread, so
-- it returns 0 for the first `size` threads of the pool.
sys_gettid_lem :
    (i pool size : ℕ) (k : Kernel)
    → i < size
    → sys_gettid (pool + size * i) pool size k ≡ sysret 0 k
unfolding sys_gettid
sys_gettid_lem i pool size k l =
    let element : pool + size * i - pool ≡ size * i = omega arith in
    ap (λ (n : ℕ). sysret n k)
      (ap (λ (n : ℕ). n / size / size) element
        ∙ ap (λ (n : ℕ). n / size) (mul-div_cancel_left i (omega arith))
        ∙ div-eq_of_lt l)
