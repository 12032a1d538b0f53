-- ===== src/Regions/Teardown/Present.antt =====
-- recursive_free on the entries that the kernel makes.
use best_kernel.Base.{
  ℕ, suc, zero, ◌+◌, ◌%◌, ◌^◌, ◌≡◌, refl, ap, ◌∙◌, arith, bit_and, bit_or, ◌⊎◌, inl, inr, shl64,
  shr,
}
use best_kernel.Base.Bits.{or_step}
use best_kernel.Paging.{memreq_template}
use best_kernel.Regions.Teardown.{
  Mapped, Teardown, free_entry, free_pass, free_table, recursive_free,
}

-- Every entry in use is marked as present.
abbrev pub Present : (ℕ → ℕ) → Type 0
Present entries = (a : ℕ) → (bit_and (entries a) (2 ^ 56) ≡ 0) ⊎ (entries a % 2 ≡ 1)

or_one : (x : ℕ) → bit_or x 1 % 2 ≡ 1
or_one x = omega (arith, or_step x 1)

-- An entry that memreq_template makes has digit 0 set.
pub memreq_template-odd :
    (pagetype mode cache exec : ℕ) → memreq_template pagetype mode cache exec % 2 ≡ 1
unfolding memreq_template
memreq_template-odd pagetype mode cache exec = or_one _

free_entry-present :
    (file_at : ℕ → Mapped) (place entry : ℕ) (s : Teardown)
    → entry % 2 ≡ 1
    → free_entry file_at place entry s ≡ s
unfolding free_entry
free_entry-present file_at place entry s h =
    let e : shr (shl64 entry 55) 55 ≡ entry % 512 = omega arith in ground (arith, e)

free_pass-Present :
    (file_at : ℕ → Mapped) (entries : ℕ → ℕ) (below : ℕ → Teardown → Teardown) (place : ℕ)
    (s : Teardown)
    → Present entries
    → ((p : ℕ) → below p s ≡ s)
    → free_pass file_at entries below place s ≡ s
unfolding free_pass
free_pass-Present file_at entries below place s h g = elim (h place) [
  | inl e ↦ ground (arith, e)
  | inr o ↦ rw (free_entry-present file_at place (entries place) s o) (ground (arith, g place))
]

free_table-Present :
    (file_at : ℕ → Mapped) (entries : ℕ → ℕ) (below : ℕ → Teardown → Teardown) (left place : ℕ)
    (s : Teardown)
    → Present entries
    → ((p : ℕ) → below p s ≡ s)
    → free_table file_at entries below left place s ≡ s
unfolding free_table
free_table-Present file_at entries below zero place s h g = refl
free_table-Present file_at entries below (suc left) place s h g =
    ap (free_table file_at entries below left (place + 1))
      (free_pass-Present file_at entries below place s h g)
    ∙ free_table-Present file_at entries below left (place + 1) s h g

-- recursive_free gives nothing back, at any page type of the enum and from any table: where every
-- entry in use has its digit 0 set, as each that memreq_template makes, it leaves
-- the counts of all files and the list of freed addresses as they are.
pub recursive_free_idle :
    (depth : ℕ) (file_at : ℕ → Mapped) (entries : ℕ → ℕ) (pointer : ℕ) (s : Teardown)
    → Present entries
    → recursive_free depth file_at entries pointer s ≡ s
unfolding recursive_free
recursive_free_idle zero file_at entries pointer s h =
    free_table-Present file_at entries (λ place t. t) 512 pointer s h (λ p. refl)
recursive_free_idle (suc depth) file_at entries pointer s h =
    free_table-Present file_at entries (recursive_free depth file_at entries) 512 pointer s h
      (λ p. recursive_free_idle depth file_at entries p s h)
