-- ===== src/Boot/Caches.antt =====
-- How setup_kernel maps the memory that the firmware calls conventional.
use best_kernel.Base.{
  ℕ, ◌-◌, ◌+◌, ◌/◌, ◌^◌, ◌≡◌, ◌∙◌, refl, arith, ◌==◌, ◌!=◌, ◌&&◌, if◌then◌else◌, bit_and, bit_or,
  shl32, leb, ltb, u32, ◌≤◌, ◌<◌,
}
use best_kernel.Paging.{Process, memreq_template, map_identity, smallpage, mapped}
use best_kernel.Paging.Entries.{write_entries_lem}
use best_kernel.Frames.{set_bits}
use best_kernel.Frames.Digits.{mark_of}
use best_kernel.Frames.Marks.{manipulate_phys_lem}
use best_kernel.Boot.{Region, conventional, cache_of, BootMemory, register_region}

abbrev pub uncached_entry : ℕ
uncached_entry = 2 ^ 63 + 517

identity_entry : bit_or (memreq_template smallpage mapped 0 1) (shl32 1 2) ≡ uncached_entry
unfolding memreq_template
identity_entry = refl

cache_of-conventional : cache_of conventional ≡ 0
unfolding cache_of
cache_of-conventional = refl

map_uncached :
    (at pages memtype a : ℕ) (p : Process)
    → memtype ≡ conventional
    → (map_identity at pages (cache_of memtype) 1 p).entries a
      ≡ (if leb at a && ltb a (at + pages) then uncached_entry else p.entries a)
unfolding map_identity
map_uncached at pages memtype a p e =
    rw (e, cache_of-conventional, identity_entry)
      (write_entries_lem pages 0 at (λ i. uncached_entry) p.entries a ∙ ground arith)

-- A region of the type CONVENTIONAL is taken for usable by its attributes. Where it has none of the
-- three lowest ones, one word of the table of frames, that of its first address, is filled with ones
-- for any number of pages from one on (the word is one of 32 digits), and the page tree stays. Else
-- nothing is marked, and the pages are mapped with the cache type STRONGUNCACHEABLE, never WRITEBACK.
pub register_region-conventional :
    (at : ℕ → ℕ) (r : Region) (b : BootMemory) (a i : ℕ)
    → r.memtype ≡ conventional
    → 1 ≤ r.pages_number
    → b.frames.table (u32 (r.phys_start / 8 / 4096)) < 2 ^ 32
    → ((register_region at r b).frames.table i ≡ (
        if bit_and r.attributes 7 == 0 && (i == u32 (r.phys_start / 8 / 4096))
        then 2 ^ 32 - 1
        else b.frames.table i))
      × ((register_region at r b).tree.entries a ≡ (
          if bit_and r.attributes 7 != 0
            && (leb (at r.phys_start) a && ltb a (at r.phys_start + r.pages_number))
          then uncached_entry
          else b.tree.entries a))
unfolding register_region mark_of
register_region-conventional at r b a i e l q = (
  ground (arith, manipulate_phys_lem r.phys_start r.pages_number smallpage set_bits b.frames i l q),
  ground (arith, map_uncached (at r.phys_start) r.pages_number r.memtype a b.tree e),
)
