-- ===== src/Syscall/Running.antt =====
-- Who may run a file, and who may load a module.
use best_kernel.Base.{ℕ, ◌+◌, ◌/◌, ◌≡◌, ◌≢◌, arith, bit_and, if◌then◌else◌, false, ◌||◌}
use best_kernel.Base.Bits.{and_step, and-zero}
use best_kernel.Vfs.{File, read_permission, write_permission}
use best_kernel.Syscall.{Kernel, Context, sysret, file_of, forbidden}
use best_kernel.Syscall.Loading.{loose_slot, sys_exec, sys_modctl, sys_modinsert, is_application}

-- One of the two lowest digits is set.
two_digits : (n : ℕ) → bit_and n 3 ≡ bit_and n 1 + bit_and n 2
two_digits n = omega (
  arith,
  and_step n 3,
  and_step n 1,
  and_step n 2,
  and_step (n / 2) 1,
  and_step (n / 2) 0,
  and-zero (n / 2),
  and-zero (n / 2 / 2),
)

-- SYS_EXEC has its test the wrong way round: for a descriptor in use, it runs the file exactly where
-- SYSREAD or SYSWRITE would refuse the process the file for its permissions, and returns 1 with
-- nothing else changed where both would serve it.
pub sys_exec-forbidden :
    (exec : File → Kernel → ℕ × Kernel) (c : Context) (desc : ℕ) (k : Kernel)
    → loose_slot k desc ≡ false
    → sys_exec exec c desc k ≡ (
        if forbidden c k desc read_permission || forbidden c k desc write_permission
        then sysret (exec (file_of k desc) k).0 (exec (file_of k desc) k).1
        else sysret 1 k)
unfolding sys_exec forbidden
sys_exec-forbidden exec c desc k e = ground (arith, two_digits (file_of k desc).meta.mode)

-- Only root loads and calls modules: for any other process, SYS_MODINSERT and SYS_MODCTL change
-- nothing but the return value, which is 1, or 2 where SYS_MODINSERT comes from an application.
module_calls_refuse :
    (modinsert : File → Kernel → ℕ × Kernel) (module_ctl : File → ℕ → ℕ → Kernel → ℕ × Kernel)
    (driver_memory : File → ℕ → ℕ) (c : Context) (desc function passed : ℕ) (k : Kernel)
    → k.process.owner_id ≢ c.root
    → (sys_modinsert modinsert c desc k ≡ sysret (if is_application k.thread.type then 2 else 1) k)
      × (sys_modctl module_ctl driver_memory c desc function passed k ≡ sysret 1 k)
unfolding sys_modinsert sys_modctl
module_calls_refuse modinsert module_ctl driver_memory c desc function passed k n =
    (ground arith, ground arith)
