-- ===== src/Paging/Mapping.antt =====
-- Mapping, taking back and unmapping pages.
use best_kernel.Base.{
  ℕ, zero, suc, ◌+◌, ◌-◌, ◌*◌, ◌%◌, ◌^◌, ◌≤◌, ◌<◌, ◌≡◌, ◌≢◌, ◌==◌, ◌⊎◌, inl, inr, Bool-cases, refl,
  sym, arith, bit_or, if◌then◌else◌, u32, shl64, leb, ltb, ◌&&◌, ◌∙◌, ap, Bool, true, false, List,
  [], ◌∷◌, some,
}
use mathlib.Core.Path.{ap₂, fun_ext}
use best_kernel.Base.Bits.{or_disjoint_low, or_single, and_single}
use best_kernel.Paging.{
  Process, get_multi_from_pagetype, memreq_template, physical, write_entries, mapped, mem_map, sign,
  sign_all, vmto_entry, deallocate_vm, mem_unmap, some_entry, read_physical, check_unmap,
  is_supervisor, not_mapped, segfault, writeback,
}
use best_kernel.Paging.Entries.{memreq_template_sum, write_entries_lem}

-- The entry of a mapped page at address `frame`.
abbrev map_entry : ℕ → ℕ → ℕ → ℕ
map_entry pagetype cache frame = bit_or (memreq_template pagetype mapped cache 0) (shl64 frame 13)

map_entry_sum :
    (pagetype cache frame : ℕ)
    → cache < 6
    → frame < 2 ^ 46
    → map_entry pagetype cache frame ≡ frame * 2 ^ 13 + 2 ^ 9 + cache + (1 - cache % 2)
map_entry_sum pagetype cache frame c f = ground (
  arith,
  memreq_template_sum pagetype mapped cache 0 (omega arith) c (omega arith),
  or_disjoint_low 13 (memreq_template pagetype mapped cache 0) (shl64 frame 13),
)

physical-map_entry :
    (pagetype cache frame : ℕ)
    → cache < 6
    → frame < 2 ^ 46
    → physical (map_entry pagetype cache frame) ≡ frame
unfolding physical
physical-map_entry pagetype cache frame c f = omega (arith, map_entry_sum pagetype cache frame c f)

map_entry_user :
    (pagetype cache frame : ℕ)
    → cache < 4
    → frame < 2 ^ 46
    → is_supervisor (map_entry pagetype cache frame) ≡ false
map_entry_user pagetype cache frame c f = ground (
  arith,
  and_single 2 (map_entry pagetype cache frame),
  map_entry_sum pagetype cache frame (omega arith) f,
)

map_entry-not_mapped :
    (pagetype cache frame : ℕ)
    → cache < 4
    → frame < 2 ^ 46
    → not_mapped (map_entry pagetype cache frame) ≡ true
map_entry-not_mapped pagetype cache frame c f =
    ground (arith, map_entry_sum pagetype cache frame (omega arith) f)

-- The values of `f` at `h`, `h + 1` and so on.
abbrev pub sequence : ℕ → ℕ → (ℕ → ℕ) → List ℕ
sequence zero h f = []
sequence (suc left) h f = f h ∷ sequence left (h + 1) f

read_physical_lem :
    (left at h : ℕ) (entries f : ℕ → ℕ)
    → ((j : ℕ) → h ≤ j → j < h + left → physical (entries (at + j)) ≡ f j)
    → read_physical left (at + h) entries ≡ sequence left h f
unfolding read_physical
read_physical_lem zero at h entries f all = refl
read_physical_lem (suc left) at h entries f all = ap₂ ◌∷◌ (all h (omega arith) (omega arith)) (
    ap (λ (t : ℕ). read_physical left t entries) (omega arith)
    ∙ read_physical_lem left at (h + 1) entries f (λ j p q. all j (omega arith) (omega arith)))

some_entry-false :
    (left at h : ℕ) (test : ℕ → Bool) (entries : ℕ → ℕ)
    → ((j : ℕ) → h ≤ j → j < h + left → test (entries (at + j)) ≡ false)
    → some_entry left (at + h) test entries ≡ false
unfolding some_entry
some_entry-false zero at h test entries all = refl
some_entry-false (suc left) at h test entries all = rw (all h (omega arith) (omega arith)) (
    ap (λ (t : ℕ). some_entry left t test entries) (omega arith)
    ∙ some_entry-false left at (h + 1) test entries (λ j p q. all j (omega arith) (omega arith)))

check_unmap_first :
    (left at : ℕ) (entries : ℕ → ℕ)
    → 0 < left
    → is_supervisor (entries at) ≡ false
    → not_mapped (entries at) ≡ true
    → check_unmap left at entries ≡ 2
unfolding check_unmap
check_unmap_first zero at entries h u m = elim h [ ]
check_unmap_first (suc left) at entries h u m = rw (u, m)

-- Digit 56 is none of those that the checks look at.
is_supervisor-signed : (x : ℕ) → is_supervisor (bit_or x (2 ^ 56)) ≡ is_supervisor x
is_supervisor-signed x =
    ground (arith, or_single 56 x, and_single 2 x, and_single 2 (bit_or x (2 ^ 56)))

not_mapped-signed : (x : ℕ) → not_mapped (bit_or x (2 ^ 56)) ≡ not_mapped x
not_mapped-signed x = ground (arith, or_single 56 x)

sign_keeps :
    (test : ℕ → Bool) (at : ℕ) (entries : ℕ → ℕ) (a : ℕ)
    → ((x : ℕ) → test (bit_or x (2 ^ 56)) ≡ test x)
    → test (sign at entries a) ≡ test (entries a)
unfolding sign
sign_keeps test at entries a h = elim (Bool-cases (a == at)) [
  | inl e ↦ rw e (h (entries a))
  | inr e ↦ rw e refl
]

sign_other : (at : ℕ) (entries : ℕ → ℕ) (a : ℕ) → a ≢ at → sign at entries a ≡ entries a
unfolding sign
sign_other at entries a n = ground (arith, n)

-- A reading of entries that digit 56 does not change, after a walk.
sign_all_keeps :
    (test : ℕ → Bool) (ds : List ℕ) (entries : ℕ → ℕ) (a : ℕ)
    → ((x : ℕ) → test (bit_or x (2 ^ 56)) ≡ test x)
    → test (sign_all ds entries a) ≡ test (entries a)
unfolding sign_all
sign_all_keeps test [] entries a h = refl
sign_all_keeps test (d ∷ ds) entries a h =
    sign_all_keeps test ds (sign d entries) a h ∙ sign_keeps test d entries a h

vmto_entry_keeps :
    (test : ℕ → Bool) (at : ℕ) (p : Process) (a : ℕ)
    → ((x : ℕ) → test (bit_or x (2 ^ 56)) ≡ test x)
    → test ((vmto_entry at p).entries a) ≡ test (p.entries a)
unfolding vmto_entry
vmto_entry_keeps test at p a h =
    sign_keeps test at (sign_all (p.directories at) p.entries) a h
    ∙ sign_all_keeps test (p.directories at) p.entries a h

-- The entries on the way lie outside the `pages_number` entries from `at` on.
abbrev pub Outside : (at pages_number : ℕ) → List ℕ → Type 0
Outside at pages_number [] = Unit {0}
Outside at pages_number (d ∷ ds) = ((d < at) ⊎ (at + pages_number ≤ d)) × Outside at pages_number ds

sign_all_inside :
    (at pages_number : ℕ) (ds : List ℕ) (entries : ℕ → ℕ) (j : ℕ)
    → Outside at pages_number ds
    → j < pages_number
    → sign_all ds entries (at + j) ≡ entries (at + j)
unfolding sign_all
sign_all_inside at pages_number [] entries j o l = refl
sign_all_inside at pages_number (d ∷ ds) entries j (o, os) l =
    sign_all_inside at pages_number ds (sign d entries) j os l
    ∙ sign_other d entries (at + j)
        (λ e. elim o [ inl h ↦ omega (arith, e) | inr h ↦ omega (arith, e) ])

-- The address that the `h`-th page of a mapping stands for.
abbrev pub frame : ℕ → ℕ → ℕ
frame target h = target + u32 (get_multi_from_pagetype 0 * h)

-- The addresses that deallocate_vm reads off: the first entry has got digit 56.
abbrev pub read_back : ℕ → ℕ → ℕ
read_back target h = if h == 0 then frame target h + 2 ^ 43 else frame target h

module _ (at target pagetype pages_number cache : ℕ) (p : Process) where
  mem_map_entry :
      (a : ℕ)
      → (mem_map at target pagetype pages_number cache p).entries a ≡ (
          if leb at a && ltb a (at + pages_number)
          then map_entry pagetype cache (frame target (a - at))
          else (vmto_entry at p).entries a)
  unfolding mem_map
  mem_map_entry a = ground (
    arith,
    write_entries_lem pages_number 0 at (λ h. map_entry pagetype cache (frame target h))
        (vmto_entry at p).entries a,
  )

  entry_at :
      (j : ℕ)
      → j < pages_number
      → (mem_map at target pagetype pages_number cache p).entries (at + j)
        ≡ map_entry pagetype cache (frame target j)
  entry_at j h =
      let same : at + j - at ≡ j = omega arith in
      mem_map_entry (at + j)
      ∙ ground (arith, ap (λ (t : ℕ). map_entry pagetype cache (frame target t)) same)

  module _ (low : cache < 4) (placed : target + 2 ^ 32 ≤ 2 ^ 43) where
    abbrev visited : Process
    visited = vmto_entry at (mem_map at target pagetype pages_number cache p)

    user : (j : ℕ) → j < pages_number → is_supervisor (visited.entries (at + j)) ≡ false
    user j h =
        vmto_entry_keeps is_supervisor at (mem_map at target pagetype pages_number cache p) (at + j)
          is_supervisor-signed
        ∙ ap is_supervisor (entry_at j h)
        ∙ map_entry_user pagetype cache (frame target j) low (omega arith)

    refused : (j : ℕ) → j < pages_number → not_mapped (visited.entries (at + j)) ≡ true
    refused j h =
        vmto_entry_keeps not_mapped at (mem_map at target pagetype pages_number cache p) (at + j)
          not_mapped-signed
        ∙ ap not_mapped (entry_at j h)
        ∙ map_entry-not_mapped pagetype cache (frame target j) low (omega arith)

    found :
        (j : ℕ)
        → Outside at pages_number (p.directories at)
        → j < pages_number
        → physical (visited.entries (at + j)) ≡ read_back target j
    unfolding vmto_entry sign mem_map physical
    found j o h =
        let q = mem_map at target pagetype pages_number cache p in
        let kept = sign_all_inside at pages_number (p.directories at) q.entries j o h in
        let value = entry_at j h in
        let number = map_entry_sum pagetype cache (frame target j) (omega arith) (omega arith) in
        ground
          (arith, kept, value, number, or_single 56 (map_entry pagetype cache (frame target j)))

    -- Pages that mem_map has mapped, with one of the four first cache types and addresses below
    -- 2 ^ 43, are taken back by deallocate_vm where the directories above them are other entries: it
    -- returns 0, leaves entries of mode SEGFAULT in their place, changes in every other entry at most
    -- digit 56, as vmto_entry does on its way, and gives back the lock. The addresses come back in
    -- order, but the first is too great by 2 ^ 43: vmto_entry has set digit 56 of that entry.
    pub deallocate_vm-mem_map :
        Outside at pages_number (p.directories at)
        → deallocate_vm (some at) pages_number (mem_map at target pagetype pages_number cache p) ≡ (
          record p {
            entries = λ a.
                if leb at a && ltb a (at + pages_number)
                then memreq_template 0 segfault writeback 0
                else visited.entries a;
            calendar = 0;
          },
          sequence pages_number 0 (read_back target),
          0,
        )
    unfolding deallocate_vm mem_map vmto_entry
    deallocate_vm-mem_map o =
        let start : at + 0 ≡ at = omega arith in
        let clear =
          some_entry-false pages_number at 0 is_supervisor visited.entries
            (λ j p q. user j (omega arith)) in
        let back =
          read_physical_lem pages_number at 0 visited.entries (read_back target)
            (λ j p q. found j o (omega arith)) in
        rw (rw start at clear) (
          ap₂ (λ (es : ℕ → ℕ) (ps : List ℕ). (record p { entries = es; calendar = 0 }, ps, 0))
            (fun_ext taken) (rw start at back))
      where
        taken :
            (a : ℕ)
            → write_entries pages_number 0 at
                (λ h. memreq_template 0 segfault writeback 0)
                visited.entries
                a
              ≡ (if leb at a && ltb a (at + pages_number)
                  then memreq_template 0 segfault writeback 0
                  else visited.entries a)
        taken a = ground (
          arith,
          write_entries_lem pages_number 0 at (λ h. memreq_template 0 segfault writeback 0)
              visited.entries a,
        )

    -- mem_unmap refuses every mapping of at least one page that mem_map has just made, with one of
    -- the four first cache types and addresses below 2 ^ 43: it unmaps nothing, raises SIGSEGV and
    -- returns 2, since it looks for the mode one digit too low. Of the entries it changes only digit
    -- 56 of those that vmto_entry passes.
    pub mem_unmap-mem_map :
        (segv : ℕ)
        → 0 < pages_number
        → mem_unmap segv at pages_number pagetype (mem_map at target pagetype pages_number cache p)
          ≡ (
            record (vmto_entry at (mem_map at target pagetype pages_number cache p)) {
              sigset = bit_or p.sigset segv;
            },
            2,
          )
    unfolding mem_unmap mem_map vmto_entry
    mem_unmap-mem_map segv pos =
        let start : at + 0 ≡ at = omega arith in
        rw (
          check_unmap_first pages_number at visited.entries pos
            (ap (λ (t : ℕ). is_supervisor (visited.entries t)) (sym start) ∙ user 0 pos)
            (ap (λ (t : ℕ). not_mapped (visited.entries t)) (sym start) ∙ refused 0 pos))
