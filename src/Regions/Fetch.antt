-- ===== src/Regions/Fetch.antt =====
-- What vmtree_fetch finds.
use best_kernel.Base.{
  ℕ, zero, suc, ◌+◌, ◌*◌, ◌/◌, ◌%◌, ◌^◌, ◌≤◌, ◌<◌, ◌≡◌, ◌≢◌, ◌⊎◌, refl, ap, arith, bit_and, Bool,
  true, u32, shl64,
}
use best_kernel.Base.Bits.{or-zero, or_comm}
use best_kernel.Paging.{Process, smallpage, get_multi_from_pagetype}
use best_kernel.Regions.{fits, add_indices, entryto_vm, from_tree, fetch_from, vmtree_fetch}

-- A small page is never found: for one page or more, vmtree_fetch returns null for SMALLPAGE,
-- whatever the tree holds.
pub vmtree_fetch_small :
    (pages_number : ℕ) (signed : ℕ → Bool) (p : Process)
    → 1 ≤ pages_number
    → vmtree_fetch pages_number smallpage signed p ≡ (0, record p { calendar = 0 })
unfolding vmtree_fetch fetch_from fits get_multi_from_pagetype
vmtree_fetch_small zero signed p l = absurd (omega arith)
vmtree_fetch_small (suc left) signed p l = refl

-- The addresses that entryto_vm can give: only the digits from 39 on are used.
entryto_vm_lem : (entry : ℕ) → entry < 2 ^ 32 → entryto_vm entry ≡ shl64 (entry / 4096) 39
unfolding entryto_vm add_indices get_multi_from_pagetype
entryto_vm_lem entry l =
    let same : u32 entry ≡ entry = omega arith in
    let first : shl64 (u32 entry / 4096) 39 ≡ shl64 (entry / 4096) 39 =
      ap (λ (t : ℕ). shl64 (t / 4096) 39) same in
    ground
      (arith, first, or-zero (shl64 (u32 entry / 4096) 39), or_comm 0 (shl64 (u32 entry / 4096) 39))

-- Is this the entry that the search stops at?
abbrev pub IsFound : (ℕ → Bool) → (ℕ → ℕ) → ℕ → ℕ → Type 0
IsFound signed entries pointer i =
    (i % 512 ≢ 0)
    × (bit_and (entries (pointer / 8 + i)) 1 ≢ 0)
    × (bit_and (entries (pointer / 8 + i)) (2 ^ 56) ≡ 0)
    × (signed (pointer + 8 * i) ≡ true)

module _ (pointer pages_number pagetree : ℕ) (signed : ℕ → Bool) (words : ℕ → ℕ) where
  abbrev fetch : (left iterator : ℕ) → ℕ
  fetch left iterator = fetch_from left iterator pointer (suc pages_number) pagetree signed words

  abbrev vm_of : ℕ → ℕ
  vm_of i = entryto_vm (from_tree pagetree (pointer + 8 * i))

  -- The result of the loop from `first` on: the address of the first entry before `last` that is
  -- usable, not occupied, not the first of its table, and signed; null where there is none.
  abbrev pub Outcome : (first last : ℕ) → ℕ → Type 0
  Outcome first last vm =
      ((vm ≡ 0) × ((j : ℕ) → first ≤ j → j < last → IsFound signed words pointer j → ⊥))
      ⊎ (i : ℕ) × (first ≤ i)
        × (i < last)
        × IsFound signed words pointer i
        × (vm ≡ vm_of i)
        × ((j : ℕ) → first ≤ j → j < i → IsFound signed words pointer j → ⊥)
