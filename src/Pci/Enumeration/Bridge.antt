-- ===== src/Pci/Enumeration/Bridge.antt =====
-- What set_device_ranges leaves of a bridge.
use best_kernel.Base.{◌≡◌, ◌≢◌, ℕ, arith, get_or}
use best_kernel.Pci.{Ports, Device, boot_mask}
use best_kernel.Pci.Ranges.{Ranges, get_bar_info, get_bar_info_restores}
use best_kernel.Pci.Enumeration.{
  six_zeros, memory_field, ports_field, prefetchable_field, set_device_ranges,
}
use best_kernel.Pci.Enumeration.First.{base_of, get_bar_info-bases, get_bar_info-types}

module _ (p : Ports) (plain : (m x v : ℕ) → p.effect m (p.effect m x v) x ≡ x) where
  open p use {State, register}

  -- Both base address registers of a bridge go to its first range, which is that of register 0x14 in the end,
  -- while the second stays empty; and the range of its serial ports is marked as prefetchable
  -- memory, while the prefetchable one stays marked as plain memory. (If a register takes back a
  -- value that it held, and neither 0x10 nor 0x14 is the command register.)
  pub set_device_ranges_bridge :
      (fuel : ℕ) (skip : ℕ → ℕ) (wide_shift : ℕ → ℕ → ℕ) (dev : Device) (headtype : ℕ) (r : Ranges)
      (s : State)
      → headtype ≢ 0
      → boot_mask dev 0x10 ≢ boot_mask dev 4
      → boot_mask dev 0x14 ≢ boot_mask dev 4
      → let q : Ranges = (set_device_ranges p fuel skip wide_shift dev headtype r s).0 in
        (get_or q.bases 0 0 ≡ base_of (register s (boot_mask dev 0x14)))
        × (get_or q.bases 1 0 ≡ 0)
        × (get_or q.types 3 0 ≡ 2)
        × (get_or q.types 4 0 ≡ 0)
  unfolding set_device_ranges memory_field ports_field prefetchable_field
  set_device_ranges_bridge fuel skip wide_shift dev headtype r s n k l =
      let cleared : Ranges = record r { bases = six_zeros; types = six_zeros } in
      let one = get_bar_info p dev 0 0x10 cleared s in
      ground (
        arith,
        get_bar_info-bases p plain dev 0 0x10 cleared s k,
        get_bar_info-types p plain dev 0 0x10 cleared s k,
        get_bar_info-bases p plain dev 0 0x14 one.0 one.1 l,
        get_bar_info-types p plain dev 0 0x14 one.0 one.1 l,
        get_bar_info_restores p dev 0 0x10 (boot_mask dev 0x14) cleared s plain l k,
      )
