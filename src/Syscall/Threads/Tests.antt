-- ===== src/Syscall/Threads/Tests.antt =====
-- A stack of two pages in an empty tree whose entries are all usable.
use best_kernel.Base.{[], false}
use best_kernel.Paging.{Process}
use best_kernel.Syscall.Threads.{Clone, Spawn}

abbrev empty_tree : Process
empty_tree = record {
  entries = λ a. 1;
  directories = λ a. [];
  words = λ a. 1;
  pagetree = 0;
  sigset = 0;
  calendar = 255;
}

abbrev caller : Clone
caller = record { stack_pointer = 64; ds = 4; fs = 5; gs = 0; taken = 255 }

abbrev unspawned : Spawn
unspawned = record { process = empty_tree; clone = caller; libelled = 0; freed = false }
