-- ===== src/Pci/Enumeration.antt =====
-- set_device_ranges and pci_init of drivers/pci.cpp: the ranges of a device, from its base address
-- registers, and of a bridge, by hand.
--
-- get_bar_info returns nothing, and its value is added to the index: `skip` is what a call for range
-- `i` leaves as its value. The loop counts its passes: six are enough,
-- unless a call leaves 2 ^ 32 - 1 and the index stays, and what holds is stated for any number of them. The second memset has no
-- length, and is read as one of length 0. In `overarching_dword>>16 - dev->bases[2]` the difference
-- is the count of the shift; `wide_shift` is what the machine makes of a count past 31.
pub mod First
pub mod Bridge
use best_kernel.Base.{
  ℕ, zero, suc, ◌+◌, ◌-◌, ◌*◌, ◌/◌, ◌%◌, ◌^◌, bit_or, List, [], ◌∷◌, ◌==◌, if◌then◌else◌, ltb, set,
  get_or, u32, u64, shl32, shr,
}
use best_kernel.Pci.{Ports, Device, boot_read, boot_write, pci_to_pci_device}
use best_kernel.Pci.Ranges.{Ranges, get_bar_info}

abbrev pub six_zeros : List ℕ
six_zeros = 0 ∷ 0 ∷ 0 ∷ 0 ∷ 0 ∷ 0 ∷ []

-- The memory field of a bridge, from register 0x20.
unfoldable pub memory_field : (wide_shift : ℕ → ℕ → ℕ) → (dword : ℕ) → Ranges → Ranges
memory_field wide_shift dword r =
    let base = shr (shl32 dword 16) 16 in
    let count = u64 (16 + 2 ^ 64 - base) in
    record {
      bases = set r.bases 2 base;
      lengths = set r.lengths 2 (if ltb count 32 then shr dword count else wide_shift dword count);
      types = set r.types 2 0;
    }

-- The field of the serial ports, from registers 0x1c and 0x30.
unfoldable pub ports_field : (dword helper : ℕ) → Ranges → Ranges
ports_field dword helper r =
    let base = bit_or (shr (shl32 dword 24) 24) (shr (shl32 helper 16) 16) in
    record {
      bases = set r.bases 3 base;
      lengths =
          set r.lengths 3
            (u64 (bit_or (shr (shl32 dword 16) 24) (shr helper 16) + (2 ^ 64 - base)));
      types = set r.types 3 1;
    }

-- The prefetchable field, from registers 0x24, 0x28 and 0x2c.
unfoldable pub prefetchable_field : (dword low high : ℕ) → Ranges → Ranges
prefetchable_field dword low high r =
    let base = bit_or (shr (shl32 dword 16) 16) low in
    record {
      bases = set r.bases 4 base;
      lengths = set r.lengths 4 (bit_or (shr dword 16) (u64 (high + (2 ^ 64 - base))));
      types = set r.types 3 2;
    }

module _ (p : Ports) where
  open p use {State}

  -- `for (i = 0; i < 6; ++i){ i += get_bar_info(processor,dev,i,regoff);}`
  unfoldable pub read_ranges :
      (fuel i : ℕ) → (skip : ℕ → ℕ) → Device → Ranges → State → Ranges × State
  read_ranges zero i skip dev r s = (r, s)
  read_ranges (suc fuel) i skip dev r s =
      let found = get_bar_info p dev i 0x10 r s in
      let rest = read_ranges fuel (u32 (u32 (i + skip i) + 1)) skip dev found.0 found.1 in
      if ltb i 6 then rest else (r, s)

  unfoldable pub read_bridge : (wide_shift : ℕ → ℕ → ℕ) → Device → Ranges → State → Ranges × State
  unfolding memory_field ports_field prefetchable_field
  read_bridge wide_shift dev r s =
      let (r1, s1) = get_bar_info p dev 0 0x10 r s in
      let (r2, s2) = get_bar_info p dev 0 0x14 r1 s1 in
      let (memory, s3) = boot_read p dev 0x20 s2 in
      let (ports, s4) = boot_read p dev 0x1c s3 in
      let (helper, s5) = boot_read p dev 0x30 s4 in
      let (prefetch, s6) = boot_read p dev 0x24 s5 in
      let (low, s7) = boot_read p dev 0x28 s6 in
      let (high, s8) = boot_read p dev 0x2c s7 in
      (
        prefetchable_field prefetch low high
            (ports_field ports helper (memory_field wide_shift memory r2)),
        s8,
      )

  unfoldable pub set_device_ranges :
      (fuel : ℕ)
      → (skip : ℕ → ℕ) → (wide_shift : ℕ → ℕ → ℕ) → Device
      → (headtype : ℕ) → Ranges
      → State
      → Ranges × State
  unfolding read_ranges read_bridge
  set_device_ranges fuel skip wide_shift dev headtype r s =
      let cleared = record r { bases = six_zeros; types = six_zeros } in
      if headtype == pci_to_pci_device
      then read_ranges fuel 0 skip dev cleared s
      else read_bridge wide_shift dev cleared s

  -- `boot_write(processor,host,0x71,0x0)`, the host bus being 0, 0, 0.
  unfoldable pub pci_init : State → State
  unfolding boot_write
  pci_init s = boot_write p (record { bus = 0; device = 0; function = 0 }) 0x71 0 s
