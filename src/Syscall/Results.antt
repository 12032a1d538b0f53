-- ===== src/Syscall/Results.antt =====
-- What the calls on memory, signals and transfers leave behind.
use best_kernel.Base.{
  ℕ, zero, suc, ◌+◌, ◌-◌, ◌^◌, ◌<◌, ◌≡◌, refl, ◌≢◌, arith, ◌==◌, if◌then◌else◌, ltb, false, length,
  get_or-set_self, u32, u64, bit, ap,
}
use best_kernel.Base.Bits.{or-zero, and-zero}
use best_kernel.Tasks.{Descriptor}
use best_kernel.Tasks.Signals.{test_digit}
use best_kernel.Syscall.{
  Kernel, Context, minus, sysret, descriptor, no_descriptor, bad_descriptor, forbidden,
}
use best_kernel.Syscall.Files.{sysread, transfer_at, advance}
use best_kernel.Syscall.Control.{
  sys_malloc, sys_free, small_pages, sys_pexit, sys_texit, sys_tsignal, sys_psignal, Victim,
  sys_tsigmask,
}

-- An amount added and taken away again, on 32 digits.
amounts :
    (used amount : ℕ)
    → used < 2 ^ 32
    → amount < 2 ^ 32
    → u32 (u32 (used + amount) + 2 ^ 32 - amount) ≡ used
amounts used amount h b = omega arith

small_pages_bound : (pages_number pagetype : ℕ) → small_pages pages_number pagetype < 2 ^ 32
unfolding small_pages
small_pages_bound pages_number pagetype = omega arith

-- What SYS_MALLOC with these arguments adds to a process' account, and SYS_FREE takes from it,
-- cancel: calling one and then the other leaves the process as it was, if mem_alloc found room and
-- the account is a number of 32 digits. It holds of calls that are refused too.
sys_free-sys_malloc :
    (insertion vm pages_number pagetype : ℕ) (k : Kernel)
    → insertion ≢ minus 1
    → k.process.used_memory < 2 ^ 32
    → (sys_free vm pages_number pagetype (sys_malloc insertion pages_number pagetype k)).process
      ≡ k.process
unfolding sys_free sys_malloc
sys_free-sys_malloc insertion vm pages_number pagetype k room account = ground (
  arith,
  amounts k.process.used_memory (small_pages pages_number pagetype),
  small_pages_bound pages_number pagetype,
)

-- SYS_TSIGMASK looks at the digits 0 and 1 of the mask only: it returns 2 if digit 0 is set, 3 if
-- digit 1 is and digit 0 is not, and then changes nothing else; any other mask it stores, one that
-- has SIGSTOP's own digit (number 2) too, and returns 0. It never returns 1.
sys_tsigmask_lem :
    (sigmask : ℕ) (k : Kernel)
    → sys_tsigmask sigmask k ≡ (
        if bit sigmask 0 == 1
        then sysret 2 k
        else if bit sigmask 1 == 1
        then sysret 3 k
        else sysret 0 (record k { thread = record (k.thread) { sigmask = sigmask } }))
unfolding sys_tsigmask
sys_tsigmask_lem sigmask k =
    rw (and-zero sigmask, test_digit sigmask 0, test_digit sigmask 1) (ground arith)

-- SYS_PEXIT and SYS_TEXIT change nothing: the number of SIGKILL is 0, and it is or-ed in as it is.
pub exit_idle : (k : Kernel) → (sys_pexit k ≡ k) × (sys_texit k ≡ k)
unfolding sys_pexit sys_texit
exit_idle k = (rw (or-zero k.process.sigset) refl, rw (or-zero k.thread.sigset) refl)

-- Signalling a process with a number of one digit (`pop_count` 1) does to the one that is signalled
-- what signalling a thread does, and returns 1 where that does, which is where the caller's owner
-- number is below its owner's; but where that returns 0, the return value is left as it was.
signals_agree :
    (pop_count : ℕ → ℕ) (signal : ℕ) (victim : Victim) (k : Kernel)
    → pop_count signal ≡ 1
    → sys_psignal pop_count signal victim k ≡ (
      (sys_tsignal signal victim k).0,
      if ltb k.process.owner_id victim.owner_id then (sys_tsignal signal victim k).1 else k,
    )
unfolding sys_psignal sys_tsignal
signals_agree pop_count signal victim k one = ground arith

not_zero : (n : ℕ) → (suc n == 0) ≡ false
not_zero n = ground arith

module _ (c : Context) where
  -- Once the descriptor is good and the mode allows it, SYSREAD returns the amount asked for,
  -- whatever the file is and wherever the offset is; and with no offset of its own it moves the
  -- descriptor's on by that amount, modulo 2^64.
  sysread_reports :
      (action errcode desc buf amount offset : ℕ) (k : Kernel)
      → bad_descriptor k desc ≡ false
      → forbidden c k desc action ≡ false
      → desc < length k.process.descs.pool
      → ((sysread c action errcode desc buf amount offset k).thread.sys_retval ≡ amount)
        × ((descriptor (sysread c action errcode desc buf amount offset k) desc).file_offset ≡ (
            if offset == 0
            then u64 ((descriptor k desc).file_offset + amount)
            else (descriptor k desc).file_offset))
  unfolding sysread transfer_at advance
  sysread_reports action errcode desc buf amount zero k good allowed held =
      rw (good, allowed)
        (
          refl,
          ap (λ (d : Descriptor). d.file_offset)
              (get_or-set_self k.process.descs.pool desc
                (record (descriptor k desc) {
                  file_offset = u64 ((descriptor k desc).file_offset + amount);
                })
                no_descriptor held),
        )
  sysread_reports action errcode desc buf amount (suc offset) k good allowed held =
      rw (good, allowed) (refl, rw (not_zero offset) refl)
