-- ===== src/Syscall/Guards.antt =====
-- What the system calls refuse, and what they do where they do not.
use best_kernel.Base.{ℕ, ◌≡◌, ◌≢◌, arith, true, ◌⊎◌, bit}
use best_kernel.Memory.{Memory}
use best_kernel.Tasks.Signals.{test_digit}
use best_kernel.Vfs.{File, FileType}
use best_kernel.Syscall.{Kernel, Context, sysret, file_of, bad_descriptor, bad_slot, forbidden}
use best_kernel.Syscall.Files.{syswrite, sys_rmfile, sys_disksync, sys_stat, sys_chmeta}

-- A call that changes a file, or writes out what it holds, with its arguments.
pub data FileCall : Type 0 where
  writes : (errcode buf amount offset : ℕ) → FileCall
  removes : FileCall
  syncs : FileCall
  stats : (copy : File → ℕ → Memory → Memory) (returns : ℕ) → FileCall
  changes : (name : ℕ) (type : FileType) (mode : ℕ) → FileCall

-- The only thing that may differ is the return value.
abbrev pub Refused : Kernel → Kernel → Type 0
Refused k k' = k' ≡ sysret k'.thread.sys_retval k

abbrev pub AllBad : Kernel → ℕ → Type 0
AllBad k desc = (bad_descriptor k desc ≡ true) × (bad_slot k desc ≡ true)

module _ (c : Context) where
  pub perform : FileCall → ℕ → Kernel → Kernel
  unfolding syswrite sys_rmfile sys_disksync sys_stat sys_chmeta
  perform (writes errcode buf amount offset) desc k = syswrite c errcode desc buf amount offset k
  perform removes desc k = sys_rmfile c desc k
  perform syncs desc k = sys_disksync c desc k
  perform (stats copy returns) desc k = sys_stat c copy desc returns k
  perform (changes name type mode) desc k = sys_chmeta c desc name type mode k

  -- If the descriptor is bad (out of the count and of the length, or its check byte is 0), or the
  -- process is not root's and the write digit (weight 2) of the
  -- file's mode is set, then writing, removing, syncing, stat and chmeta change nothing but the
  -- return value: no file, no descriptor, no memory, no request.
  pub perform-Refused :
      (call : FileCall) (desc : ℕ) (k : Kernel)
      → AllBad k desc ⊎ ((k.process.owner_id ≢ c.root) × (bit (file_of k desc).meta.mode 1 ≡ 1))
      → Refused k (perform call desc k)
  unfolding perform forbidden
  perform-Refused (writes errcode buf amount offset) desc k h =
      ground (arith, test_digit (file_of k desc).meta.mode 1)
  perform-Refused _ desc k h = ground (arith, test_digit (file_of k desc).meta.mode 1)
