-- ===== src/Apic/Timer.antt =====
-- The local apic: its registers are 32-bit words, `lapic[n]` is the word of number `n`. Where the
-- source writes `lapic[320/]` the divisor 4 of the line that reads the word is supplied.
use best_kernel.Base.{
  ℕ, ◌+◌, ◌-◌, ◌*◌, ◌/◌, ◌%◌, ◌^◌, ◌<◌, ◌≡◌, arith, bit_and, bit_or, ◌==◌, if◌then◌else◌, u8,
  set_low_byte,
}
use best_kernel.Base.Bits.{or_single, or_disjoint}

abbrev pub Lapic : Type 0
Lapic = ℕ → ℕ

abbrev pub write : ℕ → ℕ → Lapic → Lapic
write n v lapic r = if r == n then v else lapic r

unfoldable pub signal_eoi : Lapic → Lapic
signal_eoi = write (0xB0 / 4) 1

unfoldable pub set_spurious : ℕ → Lapic → Lapic
set_spurious newvec = write (0xF0 / 4) (u8 newvec)

unfoldable pub get_spurious : Lapic → ℕ
get_spurious lapic = lapic (0xF0 / 4)

-- `timer` stands for OS_INTERRUPTS::TIMER.
unfoldable pub init_timer : ℕ → Lapic → Lapic
init_timer timer lapic =
    let f = bit_and (lapic (320 / 4)) (0xFFFF_FFFF - 2 ^ 17) in
    write (320 / 4) (set_low_byte f timer) lapic

unfoldable pub mask_timer : Lapic → Lapic
mask_timer lapic = write (320 / 4) (bit_or (lapic (320 / 4)) (2 ^ 16)) lapic

unfoldable pub unmask_timer : Lapic → Lapic
unmask_timer lapic = write (320 / 4) (bit_and (lapic (320 / 4)) (0xFFFF_FFFF - 2 ^ 16)) lapic

-- The divider's part: `lapic[0x3E0/4] = divider; pipe |= 2<<18;`
unfoldable pub set_divider : ℕ → ℕ → Lapic → Lapic
set_divider divider pipe lapic =
    if divider == 0
    then write (0x320 / 4) pipe lapic
    else write (0x320 / 4) (bit_or pipe (2 * 2 ^ 18)) (write (0x3E0 / 4) divider lapic)

unfoldable pub schedule_timed_interrupt : ℕ → ℕ → Lapic → Lapic
unfolding set_divider unmask_timer
schedule_timed_interrupt ticks divider lapic =
    let counting = write (0x380 / 4) ticks lapic in
    unmask_timer (set_divider divider (counting (0x320 / 4)) counting)

-- The masks of the interrupt command register.
abbrev pub get_targetipi_mask : ℕ
get_targetipi_mask = bit_or (bit_or (2 ^ 14) (2 ^ 15)) (0 * 2 ^ 18)

abbrev pub get_selfipi_mask : ℕ
get_selfipi_mask = bit_or (bit_or (2 ^ 14) (2 ^ 15)) (1 * 2 ^ 18)

abbrev pub get_allipi_mask : ℕ
get_allipi_mask = bit_or (bit_or (2 ^ 14) (2 ^ 15)) (2 * 2 ^ 18)

abbrev pub get_exselfipi_mask : ℕ
get_exselfipi_mask = bit_or (bit_or (2 ^ 14) (2 ^ 15)) (3 * 2 ^ 18)

abbrev pub get_startupmode_mask : ℕ
get_startupmode_mask = 6 * 2 ^ 8

abbrev pub get_fixedmode_mask : ℕ
get_fixedmode_mask = 0

abbrev pub get_nmimode_mask : ℕ
get_nmimode_mask = 4 * 2 ^ 8

unfoldable pub brothers_poke : ℕ → Lapic → Lapic
brothers_poke action = write (0x300 / 4) (bit_or get_exselfipi_mask action)

unfoldable pub family_poke : ℕ → Lapic → Lapic
family_poke interrupt = write (0x300 / 4) (bit_or get_allipi_mask interrupt)

-- The two addressed pokes send exactly the command word that they mean to: for a vector of a byte
-- with a delivery mode (digits 0 to 10) the word splits into that, level triggering asserted
-- (digits 14 and 15) and the destination, 3 for all but this processor, 2 for all of them.
pub poke_fields :
    (action : ℕ) (lapic : Lapic)
    → action < 2 ^ 11
    → (brothers_poke action lapic (0x300 / 4) ≡ 3 * 2 ^ 18 + 3 * 2 ^ 14 + action)
      × (family_poke action lapic (0x300 / 4) ≡ 2 * 2 ^ 18 + 3 * 2 ^ 14 + action)
unfolding brothers_poke family_poke
poke_fields action lapic h = (
  omega (arith, or_disjoint 11 get_exselfipi_mask action (omega arith) h),
  omega (arith, or_disjoint 11 get_allipi_mask action (omega arith) h),
)

-- Scheduling a timed interrupt sets the initial count and (for a divider that is not 0) the divider,
-- but never clears the mask bit, digit 16, of the timer's own register 0x320: `unmask_timer` clears
-- that digit of the word at byte 320, decimal.
schedule_stays_masked :
    (ticks divider : ℕ) (lapic : Lapic)
    → lapic (0x320 / 4) / 2 ^ 16 % 2 ≡ 1
    → (schedule_timed_interrupt ticks divider lapic (0x380 / 4) ≡ ticks)
      × (schedule_timed_interrupt ticks divider lapic (0x320 / 4) / 2 ^ 16 % 2 ≡ 1)
      × (schedule_timed_interrupt ticks divider lapic (0x3E0 / 4)
          ≡ (if divider == 0 then lapic (0x3E0 / 4) else divider))
unfolding schedule_timed_interrupt
schedule_stays_masked ticks divider lapic h =
    (ground arith, ground (arith, or_single 19 (lapic (0x320 / 4))), ground arith)
