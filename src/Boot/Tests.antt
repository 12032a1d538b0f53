-- ===== src/Boot/Tests.antt =====
-- A memory map of two regions, and a configuration whose name is two bytes long.
use best_kernel.Base.{ℕ, ◌≡◌, refl, arith, ◌==◌, if◌then◌else◌, [], ◌∷◌}
use best_kernel.Boot.{Region, Translations, find_addresses, BootMemory, register_region}
use best_kernel.Boot.Caches.{uncached_entry, register_region-conventional}
use best_kernel.Boot.Addresses.{last_start, find_addresses-last_start}

abbrev free_ram : Region
free_ram = record {
  memtype = 7;
  phys_start = 8192;
  virt_start = 300;
  pages_number = 2;
  attributes = 15;
}

abbrev tables : Region
tables = record {
  memtype = 2;
  phys_start = 4096;
  virt_start = 100;
  pages_number = 1;
  attributes = 0;
}

abbrev at_boot : BootMemory
at_boot = record {
  frames = record { table = λ i. 0; memlen = 64; calendar = 0 };
  tree = record {
    entries = λ a. a;
    directories = λ a. [];
    words = λ a. 1;
    pagetree = 0;
    sigset = 0;
    calendar = 0;
  };
}

register_region-conventional_example :
    ((register_region (λ p. 10) free_ram at_boot).frames.table 0 ≡ 0)
    × ((register_region (λ p. 10) free_ram at_boot).tree.entries 11 ≡ uncached_entry)
register_region-conventional_example =
    register_region-conventional (λ p. 10) free_ram at_boot 11 0 refl (omega arith) (omega arith)

abbrev nowhere : Translations
nowhere = record { kerntree = 0; efisystab = 0; phys_ram_table = 0 }

find_addresses-last_start_example :
    find_addresses 100 200 300 (free_ram ∷ tables ∷ []) nowhere
    ≡ record { kerntree = 4096; efisystab = 0; phys_ram_table = 8192 }
unfolding last_start
find_addresses-last_start_example =
    find_addresses-last_start 100 200 300 (free_ram ∷ tables ∷ []) nowhere (ground arith)
      (ground arith) (ground arith)

abbrev letters : ℕ → ℕ
letters a = if a == 8 then 10 else 97
