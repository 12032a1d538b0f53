-- ===== src/Apic.antt =====
-- drivers/interrupts.cpp: the pin functions of the IO apic and the local apic's timer and
-- interprocessor interrupts.
--
-- The IO apic's registers are reached as the source reaches them: word 0 of its memory selects a
-- register, word 1 is a window onto it. A cast on the left of an assignment, `(uchar_t)nyu = v`, is
-- read as a store into the low byte of `nyu`.
pub mod Pins
pub mod Timer
pub mod Vectors
mod Tests
use best_kernel.Base.{
  ℕ, ◌+◌, ◌-◌, ◌*◌, ◌/◌, ◌%◌, ◌^◌, bit_and, bit_or, bit_xor, ◌==◌, if◌then◌else◌, ltb, not, u8, u32,
  shl32, shr, set_low_byte,
}

pub record IoApic : Type 0 where
  pub select : ℕ
  pub registers : ℕ → ℕ
  pub linesnum : ℕ

-- `ioapic_cfg[0] = r`
abbrev pub choose : ℕ → IoApic → IoApic
choose r io = record io { select = r }

-- `ioapic_cfg[1]`
abbrev pub window : IoApic → ℕ
window io = io.registers io.select

-- `ioapic_cfg[1] = v`
abbrev pub put : ℕ → IoApic → IoApic
put v io = record io { registers = λ r. if r == io.select then v else io.registers r }

unfoldable pub assign_vector : ℕ → ℕ → IoApic → IoApic × ℕ
assign_vector rel_line vector io =
    let io' = choose (16 + rel_line) io in (put (set_low_byte (window io') vector) io', 0)

-- `return (char)nyu`: a signed byte, widened to 32 bits.
abbrev pub signed_byte : ℕ → ℕ
signed_byte x = if ltb (x % 2 ^ 8) 128 then x % 2 ^ 8 else 2 ^ 32 - 2 ^ 8 + x % 2 ^ 8

unfoldable pub get_vector : ℕ → IoApic → IoApic × ℕ
get_vector rel_pin io =
    if not (ltb rel_pin io.linesnum)
    then (io, 1)
    else (choose (16 + rel_pin) io, signed_byte (io.registers (16 + rel_pin)))

-- `(uchar_t)nyu |= 1<<16`
unfoldable pub mask_pin : ℕ → IoApic → IoApic × ℕ
mask_pin rel_pin io =
    if not (ltb rel_pin io.linesnum)
    then (io, 1)
    else let io' = choose rel_pin io in
      let nyu = window io' in (put (set_low_byte nyu (bit_or (u8 nyu) (2 ^ 16))) io', 0)

-- `(uchar_t)nyu = (nyu | 1<<16)^1<<16`
unfoldable pub unmask_pin : ℕ → IoApic → IoApic × ℕ
unmask_pin rel_pin io =
    if not (ltb rel_pin io.linesnum)
    then (io, 1)
    else let io' = choose rel_pin io in
      let nyu = window io' in
      (put (set_low_byte nyu (bit_xor (bit_or nyu (2 ^ 16)) (2 ^ 16))) io', 0)

-- `nyu = ((nyu | 7<<8)^7<<8) | mode`
unfoldable pub set_delivery_mode : ℕ → ℕ → IoApic → IoApic × ℕ
set_delivery_mode rel_pin mode io =
    if ltb 7 mode
    then (io, 1)
    else if not (ltb rel_pin io.linesnum)
    then (io, 1)
    else let io' = choose (16 + rel_pin) io in
      let nyu = window io' in
      (put (bit_or (bit_xor (bit_or nyu (7 * 2 ^ 8)) (7 * 2 ^ 8)) mode) io', 0)

-- `return nyu<<16>>29`
unfoldable pub get_delivery_mode : ℕ → IoApic → IoApic × ℕ
get_delivery_mode rel_pin io =
    if not (ltb rel_pin io.linesnum)
    then (io, 32)
    else (choose (16 + rel_pin) io, shr (shl32 (io.registers (16 + rel_pin)) 16) 29)

-- `return ioapic[1]<<8>>8`
unfoldable pub get_max_redir_entries : IoApic → IoApic × ℕ
get_max_redir_entries io = (choose 0 io, shr (shl32 (io.registers 0) 8) 8)
