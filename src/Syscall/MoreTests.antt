-- ===== src/Syscall/MoreTests.antt =====
-- Runs of the calls that name files, of the clock, of report_IO and of the file mappings.
use best_kernel.Base.{ℕ, ◌+◌, ◌≡◌, refl, if◌then◌else◌, List, [], ◌∷◌, none, false}
use best_kernel.Syscall.{Kernel, sysret, bad_descriptor}
use best_kernel.Base.{◌||◌}
use best_kernel.Vfs.{File, read_permission, write_permission}
use best_kernel.Syscall.{forbidden}
use best_kernel.Syscall.Loading.{loose_slot, sys_exec}
use best_kernel.Syscall.Running.{sys_exec-forbidden}
use best_kernel.Syscall.Polls.{Polled}
use best_kernel.Syscall.FileMaps.{Mapping}
use best_kernel.Syscall.Tests.{user_five, shifted}

abbrev many : Kernel
many = record user_five {
  process = record (user_five.process) {
    descs = record (user_five.process.descs) { count = 4; ckarray = 1 ∷ 1 ∷ 1 ∷ 1 ∷ [] };
  };
}

good_one : bad_descriptor many 1 ≡ false
unfolding bad_descriptor
good_one = refl

abbrev polling : List Polled
polling =
    record {
      findex_of = λ d. d + 1;
      reqactions_of = λ d. 1;
      workers = record { pollnum = 2; fdesc = 3; retaction = 0; sigset = 8 } ∷ [];
    }
    ∷ []

abbrev file_mapping : Mapping
file_mapping = record {
  process = record {
    entries = λ a. 1;
    directories = λ a. [];
    words = λ a. 1;
    pagetree = 0;
    sigset = 0;
    calendar = 255;
  };
  counts = λ i. 1;
  maps = none;
}

abbrev loaded : File → Kernel → ℕ × Kernel
loaded file k = (7, k)

slot_in_use : loose_slot user_five 0 ≡ false
unfolding loose_slot
slot_in_use = refl

-- User 5 may not write the file that only root may write, so it may run it.
sys_exec-forbidden_example : sys_exec loaded shifted 0 user_five ≡ (
    if forbidden shifted user_five 0 read_permission
      || forbidden shifted user_five 0 write_permission
    then sysret 7 user_five
    else sysret 1 user_five)
sys_exec-forbidden_example = sys_exec-forbidden loaded shifted 0 user_five slot_in_use
