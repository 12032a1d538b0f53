-- ===== src/Syscall/Control.antt =====
-- The calls on time, memory, signals and identity: 011_SYSPOLL.cpp to 031_SYS_PSGMASK.cpp.
use best_kernel.Base.{
  ℕ, ◌+◌, ◌-◌, ◌*◌, ◌/◌, ◌^◌, bit_and, bit_or, ◌==◌, ◌!=◌, if◌then◌else◌, u32, u64, ltb, ◌||◌, [],
  ◌∷◌, ◌++◌,
}
use best_kernel.Paging.{get_multi_from_pagetype, smallpage}
use best_kernel.Vfs.{mem_free, set_timespec}
use best_kernel.Tasks.{sigkill, sigterm, sigstop, sigpolling}
use best_kernel.Syscall.{Kernel, Context, minus, sysret, conditional_sysret}

module _ (c : Context) where
  unfoldable pub sys_poll : ℕ → Kernel → Kernel
  sys_poll structures k = sysret 0 (record k {
    thread = record (k.thread) {
      sigset = bit_or k.thread.sigset sigpolling;
      poll = c.user_memory structures;
    };
  })

  unfoldable pub sys_settime : ℕ → Kernel → Kernel
  sys_settime new k = conditional_sysret (k.process.owner_id != c.root) 1 k (
      conditional_sysret (c.user_memory new == 0) 2 k
        (sysret 0 (record k { log = k.log ++ set_timespec (c.user_memory new) ∷ [] })))

  -- SYS_GETRTC calls set_timespec too.
  unfoldable pub sys_getrtc : ℕ → Kernel → Kernel
  sys_getrtc rtcret k =
      conditional_sysret (c.user_memory rtcret == 0) 1 k
        (sysret 0 (record k { log = k.log ++ set_timespec (c.user_memory rtcret) ∷ [] }))

-- `thread->target_micros = gettime_nanos(void)*1000 + sleep`, at time `nanos`.
unfoldable pub sys_sleep : ℕ → ℕ → Kernel → Kernel
sys_sleep nanos sleep k =
    sysret 0
      (record k { thread = record (k.thread) { target_micros = u64 (nanos * 1000 + sleep) } })

-- `pages_number * get_multi_from_pagetype(pagetype) / get_multi_from_pagetype(SMALLPAGE)`
unfoldable pub small_pages : ℕ → ℕ → ℕ
unfolding get_multi_from_pagetype
small_pages pages_number pagetype =
    u32 (pages_number * get_multi_from_pagetype pagetype) / get_multi_from_pagetype smallpage

-- `insertion` is what mem_alloc returns.
unfoldable pub sys_malloc : ℕ → ℕ → ℕ → Kernel → Kernel
unfolding small_pages
sys_malloc insertion pages_number pagetype k =
    conditional_sysret (ltb pagetype 1 || ltb 3 pagetype) 1 k (
      conditional_sysret (ltb 512 pages_number) 1 k (
        conditional_sysret (insertion == minus 1) 2 k (
          sysret insertion (record k {
            process = record (k.process) {
              used_memory = u32 (k.process.used_memory + small_pages pages_number pagetype);
            };
          }))))

unfoldable pub sys_free : ℕ → ℕ → ℕ → Kernel → Kernel
unfolding small_pages
sys_free vm pages_number pagetype k = conditional_sysret (ltb pagetype 1 || ltb 3 pagetype) 1 k (
    conditional_sysret (ltb 512 pages_number) 1 k (
      sysret 0 (record k {
        process = record (k.process) {
          used_memory = u32 (k.process.used_memory + 2 ^ 32 - small_pages pages_number pagetype);
        };
        log = k.log ++ mem_free vm pages_number pagetype ∷ [];
      })))

unfoldable pub sys_pexit : Kernel → Kernel
sys_pexit k = record k { process = record (k.process) { sigset = bit_or k.process.sigset sigkill } }

unfoldable pub sys_texit : Kernel → Kernel
sys_texit k = record k { thread = record (k.thread) { sigset = bit_or k.thread.sigset sigkill } }

-- The thread that is signalled, with the owner of its process.
pub record Victim : Type 0 where
  pub owner_id : ℕ
  pub sigset : ℕ

unfoldable pub sys_tsignal : ℕ → Victim → Kernel → Victim × Kernel
sys_tsignal signal victim k =
    if ltb k.process.owner_id victim.owner_id
    then (victim, sysret 1 k)
    else (record victim { sigset = bit_or victim.sigset signal }, sysret 0 k)

-- `pop_count` is bit_pop_count. On success the return value is left as it was.
unfoldable pub sys_psignal : (ℕ → ℕ) → ℕ → Victim → Kernel → Victim × Kernel
sys_psignal pop_count signal victim k =
    if ltb k.process.owner_id victim.owner_id
    then (victim, sysret 1 k)
    else if pop_count signal != 1
    then (victim, sysret 2 k)
    else (record victim { sigset = bit_or victim.sigset signal }, k)

-- The three checks that both mask calls make.
unfoldable pub check_mask : ℕ → Kernel → Kernel → Kernel
check_mask sigmask k rest = conditional_sysret (bit_and sigmask sigkill != 0) 1 k (
    conditional_sysret (bit_and sigmask sigterm != 0) 2 k
      (conditional_sysret (bit_and sigmask sigstop != 0) 3 k rest))

unfoldable pub sys_tsigmask : ℕ → Kernel → Kernel
unfolding check_mask
sys_tsigmask sigmask k =
    check_mask sigmask k (sysret 0 (record k { thread = record (k.thread) { sigmask = sigmask } }))

unfoldable pub sys_psigmask : ℕ → Kernel → Kernel
unfolding check_mask
sys_psigmask sigmask k =
    check_mask sigmask k
      (sysret 0 (record k { process = record (k.process) { sigmask = sigmask } }))
