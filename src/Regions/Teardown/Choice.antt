-- ===== src/Regions/Teardown/Choice.antt =====
-- The page type that get_pagetype_from_number picks.
use best_kernel.Base.{ℕ, ◌*◌, ◌^◌, ◌≤◌, ◌<◌, arith}
use best_kernel.Paging.{get_multi_from_pagetype}
use best_kernel.Regions.Teardown.{get_pagetype_from_number}

-- For a number of bytes of 32 digits, a page at least, the type picked is the largest whose page
-- is not longer than the number: fewer than 512 of its pages hold it, and one does not exceed it.
pub get_pagetype_from_number_fits :
    (number : ℕ)
    → number < 2 ^ 32
    → 4096 ≤ number
    → (get_multi_from_pagetype (get_pagetype_from_number number) ≤ number)
      × (number < 512 * get_multi_from_pagetype (get_pagetype_from_number number))
unfolding get_pagetype_from_number get_multi_from_pagetype
get_pagetype_from_number_fits number b h = ground arith
