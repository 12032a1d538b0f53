-- ===== src/Syscall/Loading.antt =====
-- The calls that run or load a file: SYS_EXEC of 023_SYSEXEC.cpp, SYS_MODCTL of 034_SYS_MODCTL.cpp
-- and SYS_MODINSERT of 035_SYS_MODINSERT.cpp.
--
-- What they start is a parameter: `exec`, `module_ctl` and `modinsert` give the value that is
-- returned and the kernel after them; `driver_memory` is vmto_phys on the driver's pagetree. The
-- ckarray of the process is that of its descriptors, and the `descs` that SYS_EXEC indexes with its `desc`.
use best_kernel.Base.{
  ℕ, bit_and, bit_or, ◌==◌, ◌!=◌, if◌then◌else◌, Bool, true, false, ◌||◌, ltb, get_or,
}
use best_kernel.Tasks.{ThreadType, application}
use best_kernel.Vfs.{File, read_permission, write_permission}
use best_kernel.Syscall.{Kernel, Context, sysret, conditional_sysret, file_of}

-- `(desc > process->descs->length)||(process->descs->ckarray[desc] == 0)`
unfoldable pub loose_slot : Kernel → ℕ → Bool
loose_slot k desc = ltb k.process.descs.length desc || get_or k.process.descs.ckarray desc 0 == 0

abbrev pub is_application : ThreadType → Bool
is_application application = true
is_application _ = false

-- The value returned and the kernel after a call of the loader.
abbrev pub finish : ℕ × Kernel → Kernel
finish r = sysret r.0 r.1

unfoldable pub sys_exec : (File → Kernel → ℕ × Kernel) → Context → ℕ → Kernel → Kernel
unfolding loose_slot
sys_exec exec c desc k = conditional_sysret (loose_slot k desc) 1 k (
    conditional_sysret
      (bit_and (file_of k desc).meta.mode (bit_or read_permission write_permission) == 0
        || k.process.owner_id == c.root)
      1 k (finish (exec (file_of k desc) k)))

unfoldable pub sys_modctl :
    (File → (function passdata : ℕ) → Kernel → ℕ × Kernel)
    → (driver_memory : File → ℕ → ℕ) → Context
    → (desc function passed : ℕ) → Kernel
    → Kernel
unfolding loose_slot
sys_modctl module_ctl driver_memory c desc function passed k =
    let driv = file_of k desc in
    let passdata = driver_memory driv passed in
    conditional_sysret (k.process.owner_id != c.root) 1 k (
      conditional_sysret (loose_slot k desc) 2 k
        (conditional_sysret (passdata == 0) 3 k (finish (module_ctl driv function passdata k))))

unfoldable pub sys_modinsert : (File → Kernel → ℕ × Kernel) → Context → ℕ → Kernel → Kernel
unfolding loose_slot
sys_modinsert modinsert c desc k =
    let test : Bool = is_application k.thread.type in
    conditional_sysret (if test then false else true) 1 k (
      conditional_sysret (k.process.owner_id != c.root) 2 k
        (conditional_sysret (loose_slot k desc) 3 k (finish (modinsert (file_of k desc) k))))
