-- ===== src/Regions/Resize.antt =====
-- What mem_realloc does with the pages.
use best_kernel.Base.{
  ℕ, suc, ◌+◌, ◌-◌, ◌^◌, ◌≤◌, ◌<◌, ◌≡◌, refl, ap, ◌∙◌, arith, bit_or, ◌==◌, if◌then◌else◌, Bool,
  true, false, Option, some, none, List, [], ◌∷◌, u32, shl64, ltb, leb, ◌&&◌,
}
use best_kernel.Paging.{
  Process, smallpage, memreq_template, reserve, writeback, deallocate_vm, vmto_entry,
}
use best_kernel.Paging.Entries.{write_entries_lem}
use best_kernel.Frames.{Frames, get_free_phys}
use best_kernel.Regions.{
  minus, write_list, write_pages, given_back, finish_realloc, mem_realloc, vmtree_fetch,
}
use best_kernel.Regions.Fetch.{vmtree_fetch_small}

-- A list written after a place leaves the place.
write_list_before :
    (at i : ℕ) (values : List ℕ) (arr : ℕ → ℕ) → i < at → write_list at values arr i ≡ arr i
unfolding write_list
write_list_before at i [] arr l = refl
write_list_before at i (v ∷ rest) arr l =
    write_list_before (at + 1) i rest (λ j. if j == at then v else arr j) (omega arith)
    ∙ ground arith

write_list_first : (at v : ℕ) (rest : List ℕ) (arr : ℕ → ℕ) → write_list at (v ∷ rest) arr at ≡ v
unfolding write_list
write_list_first at v rest arr =
    write_list_before (at + 1) at rest (λ j. if j == at then v else arr j) (omega arith)
    ∙ ground arith

write_pages_lem :
    (off pages_number h pagetype : ℕ) (phys : ℕ → ℕ) (p : Process)
    → h < pages_number
    → (write_pages off pages_number pagetype phys p).entries (off + h)
      ≡ bit_or (memreq_template pagetype reserve writeback 0) (shl64 (phys h) 13)
unfolding write_pages
write_pages_lem off pages_number h pagetype phys p l =
    let value : ℕ → ℕ =
      λ i. bit_or (memreq_template pagetype reserve writeback 0) (shl64 (phys i) 13) in
    let inside : (leb (off + 0) (off + h) && ltb (off + h) (off + 0 + pages_number)) ≡ true =
      ground arith in
    let index : off + h - off ≡ h = omega arith in
    write_entries_lem pages_number 0 off value (vmto_entry off p).entries (off + h)
    ∙ ap (λ (t : Bool). if t then value (off + h - off) else (vmto_entry off p).entries (off + h))
        inside
    ∙ ap value index

-- mem_realloc where it gets past its checks.
realloc_runs :
    (fuel segv : ℕ) (at : Option ℕ) (old newpages : ℕ) (free : List ℕ) (signed : ℕ → Bool)
    (entry_of stack : ℕ → ℕ) (p : Process) (f : Frames)
    → suc old ≤ newpages
    → get_free_phys fuel (u32 (newpages + 2 ^ 32 - suc old)) smallpage f ≡ some (free, 0)
    → mem_realloc fuel segv at (suc old) newpages smallpage signed entry_of stack p f
      ≡ some (
        0,
        write_pages
            (entry_of 0)
            newpages
            smallpage
            (write_list
              (u32 (suc old + (2 ^ 32 - 1)))
              free
              (write_list 0 (deallocate_vm at (suc old) p).1 stack))
            (record (given_back segv (deallocate_vm at (suc old) p)) { calendar = 0 }),
      )
unfolding mem_realloc finish_realloc
realloc_runs fuel segv at old newpages free signed entry_of stack p f l e =
    let given = deallocate_vm at (suc old) p in
    let array = write_list 0 given.1 stack in
    let finish : ℕ × Process → Option (List ℕ × ℕ) → Option (ℕ × Process) = λ fetched r.
      if fetched.0 == minus 1 then some (minus 2, fetched.1) else elim r [
        | none ↦ none
        | some pages ↦ some (
            finish_realloc (suc old) newpages smallpage fetched.0 (entry_of fetched.0) array pages
              fetched.1)
      ] in
    let free' = get_free_phys fuel (u32 (newpages + 2 ^ 32 - suc old)) smallpage f in
    let fetched = vmtree_fetch newpages smallpage signed (given_back segv given) in
    let grows : ltb newpages (suc old) ≡ false = ground arith in
    ap (λ (t : Bool). if t then some (minus 1, p) else finish fetched free') grows
    ∙ ap (λ (t : ℕ × Process). finish t free')
        (vmtree_fetch_small newpages signed (given_back segv given) (omega arith))
    ∙ ap (finish (0, record (given_back segv given) { calendar = 0 })) e

-- mem_realloc for small pages loses the last page of the region: where there is a page in it, it
-- is not to shrink and get_free_phys finds pages, the first of them `v`, the call returns null as
-- the new address, and the entry that should hold the last old page holds `v`.
mem_realloc_loses :
    (fuel segv : ℕ) (at : Option ℕ) (old newpages v : ℕ) (rest : List ℕ) (signed : ℕ → Bool)
    (entry_of stack : ℕ → ℕ) (p : Process) (f : Frames)
    → suc old ≤ newpages
    → suc old < 2 ^ 32
    → get_free_phys fuel (u32 (newpages + 2 ^ 32 - suc old)) smallpage f ≡ some (v ∷ rest, 0)
    → (p' : Process) × (mem_realloc fuel segv at
          (suc old)
          newpages
          smallpage
          signed
          entry_of
          stack
          p
          f
        ≡ some (0, p'))
      × (p'.entries (entry_of 0 + old)
          ≡ bit_or (memreq_template smallpage reserve writeback 0) (shl64 v 13))
mem_realloc_loses fuel segv at old newpages v rest signed entry_of stack p f l b e =
    let given = deallocate_vm at (suc old) p in
    let array = write_list 0 given.1 stack in
    let phys = write_list (u32 (suc old + (2 ^ 32 - 1))) (v ∷ rest) array in
    let kept : Process = record (given_back segv given) { calendar = 0 } in
    let place : u32 (suc old + (2 ^ 32 - 1)) ≡ old = omega arith in
    let first : phys old ≡ v =
      ap (λ (t : ℕ). write_list t (v ∷ rest) array old) place ∙ write_list_first old v rest array in
    (
      write_pages (entry_of 0) newpages smallpage phys kept,
      realloc_runs fuel segv at old newpages (v ∷ rest) signed entry_of stack p f l e,
      write_pages_lem (entry_of 0) newpages old smallpage phys kept l
          ∙ ap (λ (t : ℕ). bit_or (memreq_template smallpage reserve writeback 0) (shl64 t 13))
              first,
    )
