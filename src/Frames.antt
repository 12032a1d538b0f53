-- ===== src/Frames.antt =====
-- Physical memory: get_free_phys, get_free_identity and manipulate_phys of runtime/mem/core.h, and
-- malloc, mfree and mrealloc of kernlib/mem.h over them.
--
-- phys_ram_table is read as an array of words of 32 digits, the type of `bit`. mfree names a `ret`
-- that nothing declares: it is read as its argument. What manipulate_phys divides is the address that
-- it is given, also where the caller passes an array. A lock is a store in `calendar`; the loops that
-- search have fuel, since they need not end.
pub mod Digits
pub mod Marks
pub mod Search
pub mod Finds
mod Tests
use best_kernel.Base.{
  ℕ, zero, suc, ◌+◌, ◌*◌, ◌/◌, ◌%◌, ◌^◌, bit_and, bit_or, bit_xor, ◌==◌, ◌!=◌, if◌then◌else◌, Bool,
  true, false, Option, some, none, List, [], ◌∷◌, ◌++◌, u32, ltb,
}
use best_kernel.Memory.{Memory, memcpy}
use best_kernel.Paging.{get_multi_from_pagetype}

pub record Frames : Type 0 where
  pub table : ℕ → ℕ
  pub memlen : ℕ
  pub calendar : ℕ

-- enum actions
pub data Action : Type 0 where
  set_bits clear_bits : Action

-- `table[indexer] |= bit; if (action == CLEAR){ table[indexer] ^= bit;}`
unfoldable pub touch : Action → ℕ → ℕ → ℕ
touch set_bits bit word = bit_or word bit
touch clear_bits bit word = bit_xor (bit_or word bit) bit

-- `bit *= 2; if !(bit){ ++bit;}`
unfoldable pub next_bit : ℕ → ℕ
next_bit bit = if u32 (bit * 2) == 0 then 1 else u32 (bit * 2)

-- The inner loop, on the one word that it works on.
unfoldable pub mark_word : ℕ → Action → ℕ → ℕ → ℕ
unfolding touch next_bit
mark_word zero action bit word = word
mark_word (suc left) action bit word = mark_word left action (next_bit bit) (touch action bit word)

-- The outer loop: `indexer` and `bit` are the same for every page.
unfoldable pub mark_pages : ℕ → ℕ → Action → ℕ → (ℕ → ℕ) → ℕ → ℕ
unfolding mark_word
mark_pages zero quota action indexer table = table
mark_pages (suc left) quota action indexer table =
    mark_pages left quota action indexer
      (λ i. if i == indexer then mark_word quota action 1 (table indexer) else table i)

unfoldable pub manipulate_phys : ℕ → ℕ → ℕ → Action → Frames → Frames
unfolding mark_pages
manipulate_phys phys pages_number pagetype set_bits f = record f {
  table =
      mark_pages pages_number (get_multi_from_pagetype pagetype) set_bits (u32 (phys / 8 / 4096))
        f.table;
  calendar = 0;
}
manipulate_phys phys pages_number pagetype clear_bits f = record f {
  table =
      mark_pages pages_number (get_multi_from_pagetype pagetype) clear_bits (u32 (phys / 8 / 4096))
        f.table;
}

-- `for (g = bit; g; g*=2){ ++off;}`; 32 passes empty a word of 32 digits.
unfoldable pub offset_of : ℕ → ℕ → ℕ
offset_of zero g = 0
offset_of (suc left) g = let more = offset_of left (u32 (g * 2)) in if g == 0 then 0 else 1 + more

-- Where a search stands.
pub record Place : Type 0 where
  pub indexer : ℕ
  pub bit : ℕ
  pub gate : ℕ

-- `if !(bit){ ++bit; ++indexer;}`
unfoldable pub refill : Place → Place
refill s = if s.bit == 0 then record s { bit = 1; indexer = u32 (s.indexer + 1) } else s

-- `++gate;`, the test of the table and `bit<<=2`.
unfoldable pub advance_place : (ℕ → ℕ) → ℕ → Place → Place
advance_place table multiplier s =
    if bit_and (table s.indexer) s.bit == 0
    then record s { gate = u32 (s.gate + 1); bit = u32 (s.bit * 4) }
    else record {
      gate = 0;
      bit = u32 (s.bit * 4);
      indexer =
          if s.indexer * 8 % multiplier == 0
          then u32 (s.indexer + multiplier / 8)
          else u32 (s.indexer / (multiplier / 8) + multiplier / 8);
    }

-- The address of the place, once enough free bits have gone by.
unfoldable pub found_at : ℕ → Place → ℕ
unfolding offset_of
found_at multiplier s = u32 ((s.indexer + offset_of 32 s.bit) * multiplier)

-- The loop of get_free_identity: 0 where it runs off the table, empty where the fuel ends.
unfoldable pub search_identity : ℕ → ℕ → ℕ → Frames → Place → Option ℕ
unfolding refill advance_place found_at
search_identity zero multiplier pages_number f s = none
search_identity (suc fuel) multiplier pages_number f s =
    let s' = refill s in
    let rest =
      search_identity fuel multiplier pages_number f (advance_place f.table multiplier s') in
    if ltb s.indexer (f.memlen / 8)
    then if s'.gate == u32 (multiplier * pages_number) then some (found_at multiplier s') else rest
    else some 0

abbrev pub search_start : Place
search_start = record { indexer = 0; bit = 1; gate = 0 }

-- The address that is returned, and the lock given back.
unfoldable pub get_free_identity : ℕ → ℕ → ℕ → Frames → Option ℕ × Frames
unfolding search_identity
get_free_identity fuel pages_number pagetype f =
    let found =
      search_identity fuel (get_multi_from_pagetype pagetype) pages_number f search_start in
    elim found [
      | some address ↦ (some address, record f { calendar = 0 })
      | none ↦ (none, record f { calendar = 255 })
    ]

-- The loop of get_free_phys: the addresses found so far, and the code, 0 where there are enough.
unfoldable pub search_phys : ℕ → ℕ → ℕ → Frames → Place → List ℕ → ℕ → Option (List ℕ × ℕ)
unfolding refill advance_place found_at
search_phys zero multiplier pages_number f s found count = none
search_phys (suc fuel) multiplier pages_number f s found count =
    let s' = refill s in
    let hit = s'.gate == multiplier in
    let found' = if hit then found ++ found_at multiplier s' ∷ [] else found in
    let count' = if hit then count + 1 else count in
    let rest =
      search_phys fuel multiplier pages_number f (advance_place f.table multiplier s') found'
        count' in
    if ltb s.indexer (f.memlen / 8)
    then (if count' == pages_number then some (found', 0) else rest)
    else some (found, 1)

unfoldable pub get_free_phys : ℕ → ℕ → ℕ → Frames → Option (List ℕ × ℕ)
unfolding search_phys
get_free_phys fuel pages_number pagetype f =
    search_phys fuel (get_multi_from_pagetype pagetype) pages_number f search_start [] 0

-- Empty where the search does not end within the fuel.
unfoldable pub malloc : ℕ → ℕ → ℕ → Frames → Option (ℕ × Frames)
unfolding get_free_identity
malloc fuel pages_number pagetype f = elim (get_free_identity fuel pages_number pagetype f).0 [
  | some ret ↦
      some (ret, manipulate_phys ret pages_number pagetype set_bits (record f { calendar = 0 }))
  | none ↦ none
]

unfoldable pub mfree : ℕ → ℕ → ℕ → Frames → Frames
mfree pointer pages_number pagetype f = manipulate_phys pointer pages_number pagetype clear_bits f

unfoldable pub mrealloc : ℕ → ℕ → ℕ → ℕ → ℕ → ℕ → Frames → Memory → Option (ℕ × Frames × Memory)
unfolding malloc mfree
mrealloc fuel pointer previous_pages new_pages pagetype backup f m =
    elim (malloc fuel new_pages pagetype f) [
      | some (newp, f') ↦ some (
        newp,
        mfree pointer previous_pages pagetype f',
        if backup == 0
            then m
            else memcpy newp pointer (u32 (get_multi_from_pagetype pagetype * previous_pages)) m,
      )
      | none ↦ none
    ]
