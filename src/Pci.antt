-- ===== src/Pci.antt =====
-- class PciKing of drivers/pci.cpp: the configuration mechanism over the ports CF8 and CFC, and the
-- readers of configuration space.
--
-- The port instructions are the machine's. They enter as an interface: a state, `outd` and `ind`,
-- and what the configuration mechanism documents of the two ports.
pub mod Address
pub mod Config
pub mod Ranges
pub mod Enumeration
mod Tests
use best_kernel.Base.{
  ℕ, ◌+◌, ◌-◌, ◌*◌, ◌/◌, ◌%◌, ◌^◌, ◌≡◌, List, [], ◌∷◌, bit_and, bit_or, ◌==◌, ◌!=◌, if◌then◌else◌,
  u32, shl32, shr,
}

pub record Ports : Type 1 where
  pub State : Type 0
  pub outd : ℕ → ℕ → State → State
  pub ind : ℕ → State → ℕ × State
  -- What a configuration register holds, and what a write makes of it: a plain register takes the
  -- value, a base address register only some of its digits.
  pub register : State → ℕ → ℕ
  pub effect : ℕ → ℕ → ℕ → ℕ
  pub address_keeps : (a b : ℕ) (s : State) → register (outd a 0xCF8 s) b ≡ register s b
  pub reads : (a : ℕ) (s : State) → (ind 0xCFC (outd a 0xCF8 s)).0 ≡ register s a
  pub read_keeps : (b : ℕ) (s : State) → register (ind 0xCFC s).1 b ≡ register s b
  pub writes :
      (a v b : ℕ) (s : State)
      → register (outd v 0xCFC (outd a 0xCF8 s)) b
        ≡ (if b == a then effect a (register s a) v else register s b)

-- The part of a Device that addresses it.
pub record Device : Type 0 where
  pub bus : ℕ
  pub device : ℕ
  pub function : ℕ

-- `1<<31 | dev->bus<<16 | dev->device<<11 | dev->function<<8`
unfoldable pub proto_mask : Device → ℕ
proto_mask dev =
    bit_or (bit_or (bit_or (2 ^ 31) (shl32 dev.bus 16)) (shl32 dev.device 11))
      (shl32 dev.function 8)

-- `proto_mask | offsets[g]>>2<<2`
unfoldable pub offset_mask : Device → ℕ → ℕ
unfolding proto_mask
offset_mask dev offset = bit_or (proto_mask dev) (shl32 (shr offset 2) 2)

-- `… | reg`, with no rounding of the register.
unfoldable pub boot_mask : Device → ℕ → ℕ
unfolding proto_mask
boot_mask dev reg = bit_or (proto_mask dev) reg

abbrev pub pci_to_pci_device : ℕ
pci_to_pci_device = 0

module _ (p : Ports) where
  open p use {State, outd, ind}

  -- `write(dev,source,offsets,count)`: `source` and `offsets` are the first `count` of each array.
  unfoldable pub write : Device → List (ℕ × ℕ) → State → State
  write dev [] s = s
  write dev ((offset, value) ∷ rest) s =
      write dev rest (outd value 0xCFC (outd (offset_mask dev offset) 0xCF8 s))

  -- `read(dev,destination,offsets,count)`
  unfoldable pub read : Device → List ℕ → State → List ℕ × State
  read dev [] s = ([], s)
  read dev (offset ∷ offsets) s =
      let (value, s') = ind 0xCFC (outd (offset_mask dev offset) 0xCF8 s) in
      let (values, s'') = read dev offsets s' in (value ∷ values, s'')

  unfoldable pub boot_write : Device → ℕ → ℕ → State → State
  boot_write dev reg contents s = outd contents 0xCFC (outd (boot_mask dev reg) 0xCF8 s)

  unfoldable pub boot_read : Device → ℕ → State → ℕ × State
  boot_read dev reg s = ind 0xCFC (outd (boot_mask dev reg) 0xCF8 s)

  -- `mask = 1<<31 | dev->bus<<16 | dev->device<<11 | 0x4`: the function is left out.
  unfoldable pub get_devsel_timing : Device → State → ℕ × State
  get_devsel_timing dev s =
      let (mask, s') = ind 0xCFC (
        outd (bit_or (bit_or (bit_or (2 ^ 31) (shl32 dev.bus 16)) (shl32 dev.device 11)) 4) 0xCF8
          s) in
      (shr (shl32 mask 22) 30, s')

  -- The header type, and what is stored through `multifunction`.
  unfoldable pub get_headertype : Device → ℕ → State → (ℕ × ℕ) × State
  get_headertype dev multifunction s =
      let (word, s') = boot_read dev 0x6 s in
      let ret = shr (shl32 word 16) 24 in
      (if bit_and ret 128 != 0 then (bit_and ret 127, 1) else (ret, multifunction), s')

  unfoldable pub get_irline_and_pin : Device → State → ℕ × State
  get_irline_and_pin dev s = let (word, s') = boot_read dev 0x3C s in (shr (shl32 word 16) 16, s')

  unfoldable pub get_geninfo : Device → State → ℕ × State
  get_geninfo dev s = boot_read dev 0x8 s

  unfoldable pub get_idinfo : Device → State → ℕ × State
  get_idinfo dev s = boot_read dev 0x0 s

  unfoldable pub get_command : Device → State → ℕ × State
  get_command dev s = let (word, s') = boot_read dev 0x4 s in (shr (shl32 word 16) 16, s')

  unfoldable pub get_status : Device → State → ℕ × State
  get_status dev s = let (word, s') = boot_read dev 0x4 s in (shr word 16, s')

  unfoldable pub get_expansionrom : Device → ℕ → State → ℕ × State
  get_expansionrom dev headertype s =
      boot_read dev (if headertype == pci_to_pci_device then 0x30 + 8 else 0x30) s

  unfoldable pub get_secondarybus_number : Device → State → ℕ × State
  get_secondarybus_number dev s = boot_read dev 0x18 s
