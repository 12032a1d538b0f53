-- ===== src/Frames/Finds.antt =====
-- get_free_phys where every page is free.
use best_kernel.Base.{
  ℕ, zero, suc, ◌+◌, ◌-◌, ◌*◌, ◌/◌, ◌^◌, ◌≤◌, ◌<◌, ◌≡◌, refl, arith, bit_and, ◌==◌, u32, ltb, some,
  true, false, [], ◌∷◌,
}
use Prim.Native.Nat.{bit_and-bitwise}
use best_kernel.Paging.{smallpage, get_multi_from_pagetype}
use best_kernel.Frames.{
  Frames, Place, refill, advance_place, search_phys, get_free_phys, search_start, found_at,
}

zero_and : (b : ℕ) → bit_and 0 b ≡ 0
zero_and b = omega (arith, bit_and-bitwise 0 b)

advance_free :
    (f : Frames) (s : Place)
    → f.table s.indexer ≡ 0
    → advance_place f.table 4096 s ≡ record s { gate = u32 (s.gate + 1); bit = u32 (s.bit * 4) }
unfolding advance_place
advance_free f s e = rw (e) (ground (arith, zero_and s.bit))

refill_lem :
    (s : Place)
    → s.indexer < 2 ^ 32 - 1
    → ((refill s).gate ≡ s.gate) × ((refill s).indexer ≤ s.indexer + 1)
unfolding refill
refill_lem s l = (ground arith, ground arith)

-- With `left` passes to go before the gate opens.
finds :
    (left : ℕ) (f : Frames) (s : Place)
    → ((i : ℕ) → f.table i ≡ 0)
    → s.gate + left ≡ 4096
    → s.indexer + left < f.memlen / 8
    → f.memlen < 2 ^ 32
    → (v : ℕ) × (search_phys (suc left) 4096 1 f s [] 0 ≡ some (v ∷ [], 0))
unfolding search_phys
finds zero f s t g b m =
    let opened : ((refill s).gate == 4096) ≡ true =
      ground (arith, (refill_lem s (omega arith)).0) in
    let inside : ltb s.indexer (f.memlen / 8) ≡ true = ground arith in
    (found_at 4096 (refill s), rw (opened) (rw (inside) refl))
finds (suc left) f s t g b m =
    let facts = refill_lem s (omega arith) in
    let closed : ((refill s).gate == 4096) ≡ false = ground (arith, facts.0) in
    let inside : ltb s.indexer (f.memlen / 8) ≡ true = ground arith in
    let next : Place = record (refill s) {
      gate = u32 ((refill s).gate + 1);
      bit = u32 ((refill s).bit * 4);
    } in
    let rest = finds left f next t (omega (arith, facts.0)) (omega (arith, facts.1)) m in
    (
      rest.0,
      rw (closed) (rw (inside) (rw (advance_free f (refill s) (t (refill s).indexer)) rest.1)),
    )

-- Where every page is free, get_free_phys finds a page: for one small page, in a table of more than
-- 4096 words, it returns one address and the code 0 after 4097 passes.
pub get_free_phys_finds :
    (f : Frames)
    → ((i : ℕ) → f.table i ≡ 0)
    → 4096 < f.memlen / 8
    → f.memlen < 2 ^ 32
    → (v : ℕ) × (get_free_phys 4097 1 smallpage f ≡ some (v ∷ [], 0))
unfolding get_free_phys get_multi_from_pagetype
get_free_phys_finds f t b m = finds 4096 f search_start t refl (omega arith) m
