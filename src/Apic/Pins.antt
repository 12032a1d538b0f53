-- ===== src/Apic/Pins.antt =====
-- What the pin functions read back and leave alone.
use Prim.Native.Nat.{differ}
use best_kernel.Base.{
  ℕ, zero, suc, ◌⊎◌, ◌∙◌, ◌+◌, ◌-◌, ◌*◌, ◌/◌, ◌%◌, ◌^◌, ◌≤◌, ◌<◌, ◌≡◌, refl, arith, bit_or, bit_xor,
  ◌==◌, if◌then◌else◌, ltb,
}
use best_kernel.Base.Bits.{
  or_step, xor_step, or_single, xor_single, or-zero, xor-zero, or_div, xor_div,
}
use best_kernel.Apic.{
  IoApic, assign_vector, get_vector, mask_pin, unmask_pin, set_delivery_mode, get_delivery_mode,
}

-- A pin's vector reads back after `assign_vector`, as a signed byte: a vector of 128 or more comes
-- back as a number near 2 ^ 32. The rest of the pin's register, and all other registers, are kept.
get_vector-assign_vector :
    (rel_pin vector : ℕ) (io : IoApic)
    → rel_pin < io.linesnum
    → vector < 256
    → ((get_vector rel_pin (assign_vector rel_pin vector io).0).1
        ≡ (if ltb vector 128 then vector else 2 ^ 32 - 256 + vector))
      × ((r : ℕ)
          → (assign_vector rel_pin vector io).0.registers r
            ≡ (if r == 16 + rel_pin then io.registers r / 256 * 256 + vector else io.registers r))
unfolding assign_vector get_vector
get_vector-assign_vector rel_pin vector io on byte = (ground arith, λ r. ground arith)

mask_low_byte : (x : ℕ) → bit_or (x % 2 ^ 8) (2 ^ 16) % 2 ^ 8 ≡ x % 2 ^ 8
mask_low_byte x = omega (arith, or_single 16 (x % 2 ^ 8))

unmask_low_byte : (x : ℕ) → bit_xor (bit_or x (2 ^ 16)) (2 ^ 16) % 2 ^ 8 ≡ x % 2 ^ 8
unmask_low_byte x = omega (arith, or_single 16 x, xor_single 16 (bit_or x (2 ^ 16)))

-- Neither `mask_pin` nor `unmask_pin` changes any register, on any pin: the mask bit is bit 16, and
-- what they write back is cut to the low byte. They return 0 if the pin exists and 1 if not.
mask_pin_idle :
    (rel_pin : ℕ) (io : IoApic) (r : ℕ)
    → ((mask_pin rel_pin io).0.registers r ≡ io.registers r)
      × ((unmask_pin rel_pin io).0.registers r ≡ io.registers r)
      × ((mask_pin rel_pin io).1 ≡ (if ltb rel_pin io.linesnum then 0 else 1))
      × ((unmask_pin rel_pin io).1 ≡ (if ltb rel_pin io.linesnum then 0 else 1))
unfolding mask_pin unmask_pin
mask_pin_idle rel_pin io r = (
  ground (arith, mask_low_byte (io.registers rel_pin)),
  ground (arith, unmask_low_byte (io.registers rel_pin)),
  ground arith,
  ground arith,
)

abbrev new_mode : ℕ → ℕ → ℕ
new_mode x mode = bit_or (bit_xor (bit_or x (7 * 2 ^ 8)) (7 * 2 ^ 8)) mode

new_mode_above :
    (x mode : ℕ) → mode < 8 → new_mode x mode / 2 ^ 8 ≡ bit_xor (bit_or (x / 2 ^ 8) 7) 7
new_mode_above x mode h = ground (
  arith,
  or_div 8 (bit_xor (bit_or x (7 * 2 ^ 8)) (7 * 2 ^ 8)) mode,
  xor_div 8 (bit_or x (7 * 2 ^ 8)) (7 * 2 ^ 8),
  or_div 8 x (7 * 2 ^ 8),
  or-zero (bit_xor (bit_or (x / 2 ^ 8) 7) 7),
)

differ_one : (x : ℕ) → x < 2 → differ x 1 ≡ 1 - x
differ_one zero h = refl
differ_one (suc zero) h = refl
differ_one (suc (suc x)) h = absurd (omega arith)

-- `(y | 7) ^ 7` clears the three low digits and keeps the others.
cleared : (y : ℕ) → bit_xor (bit_or y 7) 7 ≡ y / 8 * 8
cleared y = omega (
  arith,
  or_step y 7,
  or_step (y / 2) 3,
  or_step (y / 2 / 2) 1,
  or-zero (y / 2 / 2 / 2),
  xor_step (bit_or y 7) 7,
  xor_step (bit_or y 7 / 2) 3,
  xor_step (bit_or y 7 / 2 / 2) 1,
  xor-zero (bit_or y 7 / 2 / 2 / 2),
  differ_one (bit_or y 7 % 2),
  differ_one (bit_or y 7 / 2 % 2),
  differ_one (bit_or y 7 / 2 / 2 % 2),
)

-- The mode goes to the vector's digits: for a mode that exists and a pin that exists, after
-- `set_delivery_mode` the pin's delivery field (digits 8 to 10) is 0, FIXED, whatever mode was asked
-- for, and what `get_delivery_mode` returns (it reads digits 13 to 15) is what it was before.
set_delivery_mode_lost :
    (rel_pin mode : ℕ) (io : IoApic)
    → mode ≤ 7
    → rel_pin < io.linesnum
    → ((set_delivery_mode rel_pin mode io).0.registers (16 + rel_pin) / 2 ^ 8 % 8 ≡ 0)
      × ((get_delivery_mode rel_pin (set_delivery_mode rel_pin mode io).0).1
          ≡ (get_delivery_mode rel_pin io).1)
unfolding set_delivery_mode get_delivery_mode
set_delivery_mode_lost rel_pin mode io valid on =
    let x = io.registers (16 + rel_pin) in
    let above : new_mode x mode / 2 ^ 8 ≡ x / 2 ^ 8 / 8 * 8 =
      new_mode_above x mode (omega arith) ∙ cleared (x / 2 ^ 8) in
    (ground arith, ground arith)

-- Both refuse a pin that does not exist, and `set_delivery_mode` a mode above 7, and then change
-- nothing; the error codes are 1 for the setter and 32 for the getter.
pub delivery_mode_refused :
    (rel_pin mode : ℕ) (io : IoApic)
    → (7 < mode) ⊎ (io.linesnum ≤ rel_pin)
    → (set_delivery_mode rel_pin mode io ≡ (io, 1))
      × ((get_delivery_mode rel_pin io).1
          ≡ (if ltb rel_pin io.linesnum then io.registers (16 + rel_pin) / 2 ^ 13 % 8 else 32))
unfolding set_delivery_mode get_delivery_mode
delivery_mode_refused rel_pin mode io bad = (ground arith, ground arith)
