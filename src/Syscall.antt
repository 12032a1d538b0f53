-- ===== src/Syscall.antt =====
-- The system calls of runtime/syscalls/. A call is a function on what it can see: the calling
-- thread and its process, the files, the kernel's memory and the requests to disks. It ends where
-- the source jumps to SYSRET, and its result stands in `sys_retval`, as 64 digits.
--
-- `user_memory` is vmto_phys on the process' pagetree, and `root` is owner_ids::ROOT. SYSREAD and
-- SYSWRITE name an `action` and an `errcode` that nothing declares, and SYSWRITE leaves out the code
-- of its second check: they enter as arguments. A file's `findex` is its place in `files`.
pub mod Files
pub mod Control
pub mod Loading
pub mod Execution
pub mod Threads
pub mod Running
pub mod Naming
pub mod Clock
pub mod Polls
pub mod FileMaps
pub mod Outcomes
pub mod Closing
pub mod Mappings
pub mod Guards
pub mod Results
mod Tests
mod MoreTests
use best_kernel.Base.{
  ℕ, zero, suc, ◌+◌, ◌-◌, ◌*◌, ◌/◌, ◌%◌, ◌^◌, bit_and, bit_or, ◌==◌, ◌!=◌, if◌then◌else◌, ltb, leb,
  not, Bool, true, false, ◌&&◌, ◌||◌, List, [], ◌∷◌, ◌++◌, get_or, set, u32, u64, map,
}
use best_kernel.Memory.{Memory}
use best_kernel.Tasks.{Thread, Process, Descriptor}
use best_kernel.Vfs.{File, Request}

pub record Kernel : Type 0 where
  pub thread : Thread
  pub process : Process
  pub files : ℕ → File
  pub memory : Memory
  pub log : List Request

-- What a system call is given besides its arguments.
pub record Context : Type 0 where
  pub root : ℕ
  pub user_memory : ℕ → ℕ

-- A negative return value.
abbrev pub minus : ℕ → ℕ
minus n = 2 ^ 64 - n

-- `thread->sys_retval = value; SYSRET`
abbrev pub sysret : ℕ → Kernel → Kernel
sysret value k = record k { thread = record (k.thread) { sys_retval = value } }

-- `CONDITIONAL_SYSRET(thread,condition,value)` and the rest of the call.
abbrev pub conditional_sysret : Bool → ℕ → Kernel → Kernel → Kernel
conditional_sysret condition value k rest = if condition then sysret value k else rest

abbrev pub no_descriptor : Descriptor
no_descriptor = record { findex = 0; flags = 0; file_offset = 0 }

abbrev pub descriptor : Kernel → ℕ → Descriptor
descriptor k desc = get_or k.process.descs.pool desc no_descriptor

-- `&vfs->descriptions[process->descs->pool[desc]->findex]`
abbrev pub file_of : Kernel → ℕ → File
file_of k desc = k.files (descriptor k desc).findex

-- `!(process->descs->count > desc)||(process->descs->ckarray[desc] == 0)`
unfoldable pub bad_descriptor : Kernel → ℕ → Bool
bad_descriptor k desc =
    not (ltb desc k.process.descs.count) || get_or k.process.descs.ckarray desc 0 == 0

-- The same test in SYS_RMFILE and SYS_RMDIR, on the length.
unfoldable pub bad_slot : Kernel → ℕ → Bool
bad_slot k desc =
    not (ltb desc k.process.descs.length) || get_or k.process.descs.ckarray desc 0 == 0

-- `(file->meta.mode & permission)&&(process->owner_id != owner_ids::ROOT)`
unfoldable pub forbidden : Context → Kernel → ℕ → ℕ → Bool
forbidden c k desc permission =
    bit_and (file_of k desc).meta.mode permission != 0 && k.process.owner_id != c.root
