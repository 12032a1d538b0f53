-- ===== src/Syscall/Mappings.antt =====
-- What SYS_FMAP comes to.
use best_kernel.Base.{
  ℕ, zero, suc, ◌/◌, ◌≤◌, ◌<◌, ◌≡◌, refl, ap, ◌∙◌, arith, ◌==◌, if◌then◌else◌, Bool,
}
use native.Mathlib.Nat.{mod-eq_of_lt, div-eq_of_lt}
use best_kernel.Paging.{Process, get_multi_from_pagetype, vmto_entry}
use best_kernel.Regions.{vmtree_fetch, fetch_from, fits}
use best_kernel.Tables.{pagetype_roundup}
use best_kernel.Vfs.{File}
use best_kernel.Syscall.FileMaps.{Mapping, map_pages, fmap}

multi_bound : (pagetype : ℕ) → 4096 ≤ get_multi_from_pagetype pagetype
unfolding get_multi_from_pagetype
multi_bound pagetype = ground arith

small_roundup : (n pagetype : ℕ) → 0 < n → n < 4096 → pagetype_roundup n pagetype ≡ 0
unfolding pagetype_roundup
small_roundup n pagetype p q =
    let multi = get_multi_from_pagetype pagetype in
    let below : n < multi = omega (arith, multi_bound pagetype) in
    ground (arith, mod-eq_of_lt below, div-eq_of_lt below)

-- Page type 0 finds nothing either.
fetch_nothing :
    (pages_number : ℕ) (signed : ℕ → Bool) (p : Process)
    → 0 < pages_number
    → vmtree_fetch pages_number 0 signed p ≡ (0, record p { calendar = 0 })
unfolding vmtree_fetch fetch_from fits get_multi_from_pagetype
fetch_nothing zero signed p l = absurd (omega arith)
fetch_nothing (suc left) signed p l = refl

-- fmap maps nothing: where the file's page type is one of the three (any number from 1 to 4095), it
-- returns null and leaves the entries, the counts and the map as they were; only the lock is given
-- back.
fmap_null :
    (signed : ℕ → Bool) (entry_of : ℕ → ℕ) (file : File) (desc amount offset : ℕ) (s : Mapping)
    → 0 < file.mem.mapped_pagetype
    → file.mem.mapped_pagetype < 4096
    → fmap signed entry_of file desc amount offset s
      ≡ (0, record s { process = record (s.process) { calendar = 0 } })
unfolding fmap
fmap_null signed entry_of file desc amount offset s p q =
    let pagetype = file.mem.mapped_pagetype in
    let first = offset / get_multi_from_pagetype pagetype in
    let body : ℕ → ℕ × Process → ℕ × Mapping = λ n t.
      if t.0 == 0 then (0, record s { process = t.1 }) else (
        t.0,
        map_pages n (entry_of t.0) first desc pagetype
            (record s { process = vmto_entry (entry_of t.0) t.1 }),
      ) in
    ap (λ (n : ℕ). body n (vmtree_fetch pagetype n signed s.process))
      (small_roundup pagetype amount p q)
    ∙ ap (body 0) (fetch_nothing pagetype signed s.process p)
