-- ===== src/Regions/Tests.antt =====
-- Runs of the search for a region.
use best_kernel.Base.{ℕ, ◌+◌, ◌*◌, ◌≡◌, refl, arith, ◌≤◌, ◌<◌, inr, some, [], ◌∷◌, true}
use best_kernel.Paging.{
  Process, smallpage, midpage, memreq_template, reserve, writeback, get_multi_from_pagetype,
  offset_by_depth,
}
use best_kernel.Frames.{Frames, get_free_phys}
use best_kernel.Frames.Finds.{get_free_phys_finds}
use best_kernel.Regions.{vmtree_fetch, entryto_vm}
use best_kernel.Regions.Teardown.{Mapped, Teardown, recursive_free, get_pagetype_from_number}
use best_kernel.Regions.Teardown.Present.{memreq_template-odd, recursive_free_idle}
use best_kernel.Regions.Teardown.Choice.{get_pagetype_from_number_fits}

abbrev tree : Process
tree = record {
  entries = λ a. 1;
  directories = λ a. [];
  words = λ a. 1;
  pagetree = 0;
  sigset = 0;
  calendar = 255;
}

abbrev frames : Frames
frames = record { table = λ i. 0; memlen = 8 * 1000000; calendar = 0 }

-- Every entry is usable and free, and every one is signed: a middle page is found at entry 1.
vmtree_fetch_middle :
    (vmtree_fetch 3 midpage (λ a. true) tree).0 ≡ entryto_vm (offset_by_depth 0 midpage + 8)
unfolding vmtree_fetch get_multi_from_pagetype offset_by_depth
vmtree_fetch_middle = refl

one_page : (v : ℕ) × (get_free_phys 4097 1 smallpage frames ≡ some (v ∷ [], 0))
one_page = get_free_phys_finds frames (λ i. refl) (omega arith) (omega arith)

abbrev page : ℕ
page = one_page.0

abbrev some_counts : Teardown
some_counts = record { ckarray = λ f p. 2; freed = [] }

abbrev no_file : ℕ → Mapped
no_file d = record { findex = 0; pool = []; length = 0 }

recursive_free_idle_example :
    recursive_free 2 no_file (λ a. memreq_template smallpage reserve writeback 0) 512 some_counts
    ≡ some_counts
recursive_free_idle_example =
    recursive_free_idle 2 no_file (λ a. memreq_template smallpage reserve writeback 0) 512
      some_counts (λ a. inr (memreq_template-odd smallpage reserve writeback 0))

get_pagetype_from_number_fits_example :
    (get_multi_from_pagetype (get_pagetype_from_number 0x300000) ≤ 0x300000)
    × (0x300000 < 512 * get_multi_from_pagetype (get_pagetype_from_number 0x300000))
get_pagetype_from_number_fits_example =
    get_pagetype_from_number_fits 0x300000 (omega arith) (omega arith)
