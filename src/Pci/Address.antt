-- ===== src/Pci/Address.antt =====
-- Configuration addresses.
use best_kernel.Base.{ℕ, ◌+◌, ◌*◌, ◌/◌, ◌%◌, ◌^◌, ◌<◌, ◌≡◌, arith}
use best_kernel.Base.Bits.{or_disjoint}
use best_kernel.Pci.{Device, proto_mask, offset_mask, boot_mask}

abbrev pub IsDevice : Device → Type 0
IsDevice d = (d.bus < 256) × (d.device < 32) × (d.function < 8)

pub proto_mask_sum :
    (d : Device)
    → IsDevice d
    → proto_mask d ≡ 2 ^ 31 + d.bus * 2 ^ 16 + d.device * 2 ^ 11 + d.function * 2 ^ 8
unfolding proto_mask
proto_mask_sum d h = ground (
  arith,
  or_disjoint 31 (2 ^ 31) (d.bus * 2 ^ 16 % 2 ^ 32),
  or_disjoint 16 (2 ^ 31 + d.bus * 2 ^ 16 % 2 ^ 32) (d.device * 2 ^ 11 % 2 ^ 32),
  or_disjoint 11 (2 ^ 31 + d.bus * 2 ^ 16 % 2 ^ 32 + d.device * 2 ^ 11 % 2 ^ 32)
      (d.function * 2 ^ 8 % 2 ^ 32),
)

pub offset_mask_sum :
    (d : Device) (offset : ℕ)
    → IsDevice d
    → offset < 256
    → offset_mask d offset
      ≡ 2 ^ 31 + d.bus * 2 ^ 16 + d.device * 2 ^ 11 + d.function * 2 ^ 8 + offset / 4 * 4
unfolding offset_mask
offset_mask_sum d offset h o =
    ground
      (arith, proto_mask_sum d h, or_disjoint 8 (proto_mask d) (offset / 2 ^ 2 * 2 ^ 2 % 2 ^ 32))

-- For devices on a bus below 256 with device number below 32 and function below 8, and offsets of
-- one byte, equal configuration addresses mean the same bus, device, function and 32-bit register,
-- and the address has the enable digit and fits a 32-bit port.
offset_mask_injective :
    (d e : Device) (o q : ℕ)
    → IsDevice d
    → IsDevice e
    → o < 256
    → q < 256
    → offset_mask d o ≡ offset_mask e q
    → (d.bus ≡ e.bus)
      × (d.device ≡ e.device)
      × (d.function ≡ e.function)
      × (o / 4 ≡ q / 4)
      × (offset_mask d o / 2 ^ 31 ≡ 1)
offset_mask_injective d e o q hd he ho hq same =
    omega (arith, offset_mask_sum d o hd ho, offset_mask_sum e q he hq)

pub boot_mask_sum :
    (d : Device) (reg : ℕ)
    → IsDevice d
    → reg < 256
    → reg % 4 ≡ 0
    → boot_mask d reg ≡ 2 ^ 31 + d.bus * 2 ^ 16 + d.device * 2 ^ 11 + d.function * 2 ^ 8 + reg
unfolding boot_mask
boot_mask_sum d reg h r a = ground (arith, proto_mask_sum d h, or_disjoint 8 (proto_mask d) reg)

-- The boot functions and the runtime functions name the same register, when the register's number
-- is a multiple of 4 and one byte.
pub boot_mask_agrees :
    (d : Device) (reg : ℕ)
    → IsDevice d
    → reg < 256
    → reg % 4 ≡ 0
    → boot_mask d reg ≡ offset_mask d reg
unfolding boot_mask
boot_mask_agrees d reg h r a =
    ground (arith, proto_mask_sum d h, offset_mask_sum d reg h r, or_disjoint 8 (proto_mask d) reg)
