-- ===== src/Syscall/Files.antt =====
-- The calls on files: 001_SYSREAD.cpp to 009_SYS_CHMETA.cpp of runtime/syscalls/.
use best_kernel.Base.{
  ℕ, zero, suc, ◌+◌, ◌*◌, ◌%◌, ◌^◌, ◌==◌, ◌!=◌, if◌then◌else◌, List, [], ◌∷◌, ◌++◌, set, u64, ltb,
  shr,
}
use best_kernel.Memory.{Memory}
use best_kernel.Vfs
use best_kernel.Vfs.{
  File, FileType, Request, rmfile, rmdir, disk_sync, free_child, free_file, write_permission,
}
use best_kernel.Syscall.{
  Kernel, Context, minus, sysret, conditional_sysret, descriptor, file_of, bad_descriptor, bad_slot,
  forbidden,
}

-- `*val += amount` for the descriptor's file offset.
unfoldable pub advance : ℕ → ℕ → Kernel → Kernel
advance desc amount k =
    let d = descriptor k desc in
    record k {
      process = record (k.process) {
        descs = record (k.process.descs) {
          pool =
              set k.process.descs.pool desc
                (record d { file_offset = u64 (d.file_offset + amount) });
        };
      };
    }

-- `if !(offset)`: by the descriptor's own offset, which moves on; else by the one that is given.
-- The code that the filesystem returns is dropped.
unfoldable pub transfer_at :
    (File → ℕ → ℕ → ℕ → List Request → List Request × ℕ) → ℕ → ℕ → ℕ → ℕ → Kernel → Kernel
unfolding advance
transfer_at by desc buf amount offset k =
    if offset == 0
    then advance desc amount (record k {
      log = (by (file_of k desc) buf amount (descriptor k desc).file_offset k.log).0;
    })
    else record k { log = (by (file_of k desc) buf amount offset k.log).0 }

-- The 64 bytes of a name in memory.
unfoldable pub bytes_at : ℕ → ℕ → Memory → List ℕ
bytes_at zero p m = []
bytes_at (suc left) p m = m p ∷ bytes_at left (p + 1) m

module _ (c : Context) where
  open c use {user_memory}

  unfoldable pub sysread : (action errcode descriptor buf amount offset : ℕ) → Kernel → Kernel
  unfolding transfer_at bad_descriptor forbidden
  sysread action errcode desc buf amount offset k =
      conditional_sysret (bad_descriptor k desc) (minus 1) k (
        conditional_sysret (forbidden c k desc action) errcode k
          (sysret amount (transfer_at Vfs.read desc (user_memory buf) amount offset k)))

  unfoldable pub syswrite : (errcode desc buf amount offset : ℕ) → Kernel → Kernel
  unfolding transfer_at bad_descriptor forbidden
  syswrite errcode desc buf amount offset k =
      conditional_sysret (bad_descriptor k desc) (minus 1) k (
        conditional_sysret (forbidden c k desc write_permission) errcode k
          (sysret amount (transfer_at Vfs.write desc (user_memory buf) amount offset k)))

  unfoldable pub sys_rmfile : ℕ → Kernel → Kernel
  unfolding bad_slot forbidden
  sys_rmfile desc k = conditional_sysret (bad_slot k desc) 1 k (
      conditional_sysret (forbidden c k desc write_permission) 2 k (
        sysret 0 (record k {
          log =
              k.log
              ++ rmfile (descriptor k desc).findex
                ∷ free_child (file_of k desc).parent (file_of k desc).double_link
                ∷ free_file (descriptor k desc).findex
                ∷ [];
        })))

  -- `(dir->mode<<6>>7) > process->owner_id`
  unfoldable pub sys_rmdir : ℕ → Kernel → Kernel
  unfolding bad_slot
  sys_rmdir desc k = conditional_sysret (bad_slot k desc) 1 k (
      conditional_sysret
        (ltb k.process.owner_id (shr ((file_of k desc).meta.mode * 2 ^ 6 % 2 ^ 32) 7)) 2 k
        (conditional_sysret ((file_of k desc).children != 0) 3 k (
          sysret 0 (record k {
            log =
                k.log
                ++ rmdir (descriptor k desc).findex
                  ∷ free_child (file_of k desc).parent (file_of k desc).double_link
                  ∷ free_file (descriptor k desc).findex
                  ∷ [];
          }))))

  unfoldable pub sys_disksync : ℕ → Kernel → Kernel
  unfolding bad_descriptor forbidden
  sys_disksync desc k = conditional_sysret (bad_descriptor k desc) (minus 1) k (
      conditional_sysret (forbidden c k desc write_permission) (minus 2) k
        (sysret 0 (record k { log = k.log ++ disk_sync (descriptor k desc).findex ∷ [] })))

  -- `copy` writes the file's meta structure at an address of memory.
  unfoldable pub sys_stat : (File → ℕ → Memory → Memory) → ℕ → ℕ → Kernel → Kernel
  unfolding bad_descriptor forbidden
  sys_stat copy desc returns k = conditional_sysret (bad_descriptor k desc) 1 k (
      conditional_sysret (forbidden c k desc write_permission) 2 k (
        conditional_sysret (user_memory returns == 0) 2 k
          (sysret 0 (record k { memory = copy (file_of k desc) (user_memory returns) k.memory }))))

  unfoldable pub sys_chmeta : ℕ → ℕ → FileType → ℕ → Kernel → Kernel
  unfolding bad_descriptor forbidden bytes_at
  sys_chmeta desc name type mode k = conditional_sysret (bad_descriptor k desc) 1 k (
      conditional_sysret (forbidden c k desc write_permission) 2 k (
        let file = file_of k desc in
        sysret 0 (record k {
          files = λ f.
              if f == (descriptor k desc).findex
              then record file {
                meta = record (file.meta) {
                  name = bytes_at 64 (user_memory name) k.memory;
                  type = type;
                  mode = mode;
                };
              }
              else k.files f;
        })))
