-- ===== src/Vfs/Writeback/Tests.antt =====
-- A cycle over two files, one that nobody listens to and one with a listener on each page.
use best_kernel.Base.{◌+◌, ◌%◌, ◌^◌, ◌≡◌, refl, arith, ℕ, List, [], ◌∷◌, ◌++◌}
use best_kernel.Vfs.Writeback.{Cached, Cycle, writeback_cycle}
use best_kernel.Vfs.Writeback.Pages.{syncs, heard, heard_files, writeback_cycle-syncs}
use best_kernel.Vfs.Writeback.Memory.{silent_files, writeback_cycle-used}

abbrev file_with : List ℕ → Cached
file_with listeners = record {
  disk = 2;
  diskpos = 4096;
  pool = 8 ∷ 16 ∷ [];
  listeners = listeners;
  mapped_pagetype = 3;
  pages_count = 2;
  pending_sync = 1;
}

abbrev two_files : List (ℕ × Cached)
two_files = (1, file_with (0 ∷ 0 ∷ [])) ∷ (1, file_with (1 ∷ 1 ∷ [])) ∷ []

abbrev idle : Cycle
idle = record { used_memory = 7; log = [] }

only_the_heard : heard_files 0 two_files ≡ 1 ∷ []
unfolding heard_files heard
only_the_heard = refl

writeback_cycle-syncs_example :
    syncs (writeback_cycle two_files idle).log ≡ syncs [] ++ heard_files 0 two_files
writeback_cycle-syncs_example = writeback_cycle-syncs two_files idle (omega arith)

writeback_cycle-used_example :
    ((writeback_cycle two_files (writeback_cycle two_files idle)).used_memory
        + silent_files two_files
        + silent_files two_files)
      % 2 ^ 64
    ≡ 7 % 2 ^ 64
writeback_cycle-used_example = writeback_cycle-used two_files idle
