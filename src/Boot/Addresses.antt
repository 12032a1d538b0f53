-- ===== src/Boot/Addresses.antt =====
-- What the pass over the memory map finds.
use best_kernel.Base.{ℕ, ◌≡◌, ◌≢◌, ◌∙◌, refl, arith, ◌==◌, if◌then◌else◌, List, [], ◌∷◌}
use best_kernel.Boot.{Region, Translations, find_address, find_addresses}

-- The physical address of the last region that starts at the virtual one, or else `found`.
unfoldable pub last_start : (virt : ℕ) → List Region → (found : ℕ) → ℕ
last_start virt [] found = found
last_start virt (r ∷ rs) found =
    last_start virt rs (if r.virt_start == virt then r.phys_start else found)

module _ (kerntree efisystab ramtab : ℕ) (r : Region) (t : Translations) (p : kerntree ≢ efisystab)
    (q : kerntree ≢ ramtab) (s : efisystab ≢ ramtab) where
  found_kerntree :
      (find_address kerntree efisystab ramtab r t).kerntree
      ≡ (if r.virt_start == kerntree then r.phys_start else t.kerntree)
  unfolding find_address
  found_kerntree = ground (arith, p, q, s)

  found_efisystab :
      (find_address kerntree efisystab ramtab r t).efisystab
      ≡ (if r.virt_start == efisystab then r.phys_start else t.efisystab)
  unfolding find_address
  found_efisystab = ground (arith, p, q, s)

  found_phys_ram_table :
      (find_address kerntree efisystab ramtab r t).phys_ram_table
      ≡ (if r.virt_start == ramtab then r.phys_start else t.phys_ram_table)
  unfolding find_address
  found_phys_ram_table = ground (arith, p, q, s)

-- For three different virtual addresses, the pass finds for each the physical address of the last
-- region of the map that starts there, and leaves the others as they were.
pub find_addresses-last_start :
    (kerntree efisystab ramtab : ℕ) (rs : List Region) (t : Translations)
    → kerntree ≢ efisystab
    → kerntree ≢ ramtab
    → efisystab ≢ ramtab
    → find_addresses kerntree efisystab ramtab rs t ≡ record {
      kerntree = last_start kerntree rs t.kerntree;
      efisystab = last_start efisystab rs t.efisystab;
      phys_ram_table = last_start ramtab rs t.phys_ram_table;
    }
unfolding find_addresses last_start
find_addresses-last_start kerntree efisystab ramtab [] t p q s = refl
find_addresses-last_start kerntree efisystab ramtab (r ∷ rs) t p q s =
    find_addresses-last_start kerntree efisystab ramtab rs
      (find_address kerntree efisystab ramtab r t) p q s
    ∙ rw
        (
          found_kerntree kerntree efisystab ramtab r t p q s,
          found_efisystab kerntree efisystab ramtab r t p q s,
          found_phys_ram_table kerntree efisystab ramtab r t p q s,
        )
        refl
