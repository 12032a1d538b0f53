-- ===== src/Frames/Marks.antt =====
-- What manipulate_phys marks, and mfree after malloc.
use best_kernel.Base.{
  ℕ, zero, suc, ◌-◌, ◌*◌, ◌/◌, ◌^◌, ◌≤◌, ◌<◌, ◌≡◌, ◌≢◌, refl, arith, ◌==◌, if◌then◌else◌, ◌∙◌, ap,
  u32,
}
use best_kernel.Paging.{get_multi_from_pagetype}
use best_kernel.Frames.Digits.{full, fills, mark_of}
use best_kernel.Frames.{
  Frames, Action, set_bits, clear_bits, mark_word, mark_pages, manipulate_phys,
}

mark_word-full :
    (quota : ℕ) (action : Action) (word : ℕ)
    → 32 ≤ quota
    → word < 2 ^ 32
    → mark_word quota action 1 word ≡ full action
mark_word-full quota action word l q =
    ap (λ (t : ℕ). mark_word quota action 1 t) (omega arith) ∙ fills quota action 31 0 word refl q l

small_full : (action : Action) (n : ℕ) → n ≡ full action → n < 2 ^ 32
small_full set_bits n e = omega arith
small_full clear_bits n e = omega arith

mark_pages-full :
    (left quota : ℕ) (action : Action) (at : ℕ) (table : ℕ → ℕ)
    → 32 ≤ quota
    → table at < 2 ^ 32
    → mark_pages (suc left) quota action at table at ≡ full action
unfolding mark_pages
mark_pages-full zero quota action at table l q =
    ground (arith, mark_word-full quota action (table at) l q)
mark_pages-full (suc left) quota action at table l q =
    let next : ℕ → ℕ = λ i. if i == at then mark_word quota action 1 (table at) else table i in
    mark_pages-full left quota action at next l
      (small_full action (next at) (ground (arith, mark_word-full quota action (table at) l q)))

mark_pages_other :
    (left quota : ℕ) (action : Action) (at i : ℕ) (table : ℕ → ℕ)
    → i ≢ at
    → mark_pages left quota action at table i ≡ table i
unfolding mark_pages
mark_pages_other zero quota action at i table n = refl
mark_pages_other (suc left) quota action at i table n =
    mark_pages_other left quota action at i
      (λ j. if j == at then mark_word quota action 1 (table at) else table j) n
    ∙ ground arith

quota_bound : (pagetype : ℕ) → 32 ≤ get_multi_from_pagetype pagetype
unfolding get_multi_from_pagetype
quota_bound pagetype = ground arith

-- manipulate_phys works on one word of the table, that of the first address, whose number wraps
-- around at 2 ^ 32, whatever the number of
-- pages and their size: where at least one page is given and the word has 32 digits, SET fills that
-- word with ones and CLEAR with zeros, and every other word stays as it was.
pub manipulate_phys_lem :
    (phys pages_number pagetype : ℕ) (action : Action) (f : Frames) (i : ℕ)
    → 1 ≤ pages_number
    → f.table (u32 (phys / 8 / 4096)) < 2 ^ 32
    → (manipulate_phys phys pages_number pagetype action f).table i
      ≡ (if i == u32 (phys / 8 / 4096) then mark_of action * (2 ^ 32 - 1) else f.table i)
unfolding manipulate_phys
manipulate_phys_lem phys zero pagetype action f i l q = absurd (omega arith)
manipulate_phys_lem phys (suc left) pagetype set_bits f i l q = ground (
  arith,
  mark_pages_other (suc left) (get_multi_from_pagetype pagetype) set_bits (u32 (phys / 8 / 4096)) i
      f.table,
  mark_pages-full left (get_multi_from_pagetype pagetype) set_bits (u32 (phys / 8 / 4096)) f.table
      (quota_bound pagetype) q,
)
manipulate_phys_lem phys (suc left) pagetype clear_bits f i l q = ground (
  arith,
  mark_pages_other (suc left) (get_multi_from_pagetype pagetype) clear_bits (u32 (phys / 8 / 4096))
      i f.table,
  mark_pages-full left (get_multi_from_pagetype pagetype) clear_bits (u32 (phys / 8 / 4096)) f.table
      (quota_bound pagetype) q,
)
