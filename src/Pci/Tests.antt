-- ===== src/Pci/Tests.antt =====
-- Configuration space as an array of registers behind an address latch, in which every register
-- takes the value that is written.
use best_kernel.Base.{◌≢◌, ℕ, ◌%◌, ◌^◌, ◌≡◌, refl, arith, get_or, ◌==◌, if◌then◌else◌, [], ◌∷◌}
use best_kernel.Pci.{Ports, Device, offset_mask, boot_mask}
use best_kernel.Pci.Address.{IsDevice}
use best_kernel.Pci.Ranges.{Ranges, get_bar_info, get_bar_info_restores}
use best_kernel.Pci.Enumeration.{set_device_ranges}
use best_kernel.Pci.Enumeration.First.{base_of, OneBase, set_device_ranges-OneBase}
use best_kernel.Pci.Enumeration.Bridge.{set_device_ranges_bridge}

record Latched : Type 0 where
  address : ℕ
  registers : ℕ → ℕ

abbrev latched_out : ℕ → ℕ → Latched → Latched
latched_out value port s =
    if port == 0xCF8
    then record s { address = value }
    else record s { registers = λ b. if b == s.address then value else s.registers b }

abbrev plain_ports : Ports
plain_ports = record {
  State = Latched;
  outd = latched_out;
  ind = λ port s. (s.registers s.address, s);
  register = λ s b. s.registers b;
  effect = λ a before value. value;
  address_keeps = λ a b s. refl;
  reads = λ a s. refl;
  read_keeps = λ b s. refl;
  writes = λ a v b s. refl;
}

abbrev start : Latched
start = record { address = 0; registers = λ b. b % 2 ^ 32 }

abbrev disk : Device
disk = record { bus = 1; device = 2; function = 3 }

disk-IsDevice : IsDevice disk
disk-IsDevice = ground arith

same_register : offset_mask disk 5 ≡ offset_mask disk 6
unfolding offset_mask
same_register = refl

abbrev no_ranges : Ranges
no_ranges = record { bases = 0 ∷ 0 ∷ []; lengths = 0 ∷ 0 ∷ []; types = 0 ∷ 0 ∷ [] }

another_register : boot_mask disk 0x14 ≢ boot_mask disk 4
unfolding boot_mask
another_register e = ground (arith, e)

get_bar_info_restores_example :
    (get_bar_info plain_ports disk 1 0x14 no_ranges start).1.registers (boot_mask disk 0x14)
    ≡ start.registers (boot_mask disk 0x14)
get_bar_info_restores_example =
    get_bar_info_restores plain_ports disk 1 0x14 (boot_mask disk 0x14) no_ranges start
      (λ m x v. refl) another_register another_register

first_register : boot_mask disk 0x10 ≢ boot_mask disk 4
unfolding boot_mask
first_register e = ground (arith, e)

abbrev start_base : ℕ
start_base = base_of (start.registers (boot_mask disk 0x10))

set_device_ranges-OneBase_example :
    OneBase start_base
      (set_device_ranges plain_ports 6 (λ i. 0) (λ x n. 0) disk 0 no_ranges start).0.bases
set_device_ranges-OneBase_example =
    set_device_ranges-OneBase plain_ports (λ m x v. refl) 6 (λ i. 0) (λ x n. 0) disk no_ranges start
      first_register

abbrev bridge_ranges : Ranges
bridge_ranges = (set_device_ranges plain_ports 6 (λ i. 0) (λ x n. 0) disk 1 no_ranges start).0

set_device_ranges_bridge_example :
    (get_or bridge_ranges.bases 0 0 ≡ base_of (start.registers (boot_mask disk 0x14)))
    × (get_or bridge_ranges.bases 1 0 ≡ 0)
    × (get_or bridge_ranges.types 3 0 ≡ 2)
    × (get_or bridge_ranges.types 4 0 ≡ 0)
set_device_ranges_bridge_example =
    set_device_ranges_bridge plain_ports (λ m x v. refl) 6 (λ i. 0) (λ x n. 0) disk 1 no_ranges
      start (omega arith) first_register another_register
