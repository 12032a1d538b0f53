-- ===== src/Vfs/Tests.antt =====
-- A file of 9000 bytes with three pages, none of them loaded.
use best_kernel.Base.{List, ◌<◌, ◌≢◌, ℕ, ◌≡◌, arith, [], ◌∷◌}
use best_kernel.Base.{zero, suc, get_or, true, false}
use best_kernel.Vfs.Paths.{Children, end, child, Found, recurse_directories}
use best_kernel.Vfs.Lookup.{PlainNames, first_named, recurse_directories_flat}
use best_kernel.Vfs.{File, storage}

abbrev letter : File
letter = record {
  meta = record {
    name = 108 ∷ [];
    type = storage;
    mode = 0;
    partition = 1;
    relpos = 512;
    length = 9000;
  };
  parent = 0;
  double_link = 0;
  children = 0;
  mem = record { pool = 0 ∷ 0 ∷ 0 ∷ []; length = 3; mapped_pagetype = 3 };
}

-- A directory `a` with a file `b` in it, beside a file `b`.
abbrev two_levels : Children
two_levels =
    child true 4 (97 ∷ 0 ∷ []) true (child true 6 (98 ∷ 0 ∷ []) false end end)
      (child true 5 (98 ∷ 0 ∷ []) false end end)

abbrev nothing_yet : Found
nothing_yet = record { out = 0; index = 0 }

two_levels-PlainNames : PlainNames two_levels
two_levels-PlainNames = ground arith

recurse_directories_flat_example :
    recurse_directories 2 (98 ∷ 0 ∷ []) 0 two_levels nothing_yet
    ≡ first_named 2 (98 ∷ 0 ∷ []) 0 two_levels nothing_yet
recurse_directories_flat_example =
    recurse_directories_flat 2 (98 ∷ 0 ∷ []) 0 two_levels nothing_yet two_levels-PlainNames

abbrev nested_path : List ℕ
nested_path = 97 ∷ 47 ∷ 98 ∷ 0 ∷ []

nested_path_start : (j : ℕ) → j < 1 → get_or nested_path j 0 ≢ 0
nested_path_start zero h = ground arith
nested_path_start (suc j) h = absurd (omega arith)
