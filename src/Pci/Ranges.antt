-- ===== src/Pci/Ranges.antt =====
-- get_bar_info of drivers/pci.cpp: the base, the length and the type of a range of a device.
--
-- `boot_reg` is read as boot_read. A pass whose shift `or` is 32 works on 64-bit values. The bound
-- of the loop is 1, and 2 after a first pass over a base with digit 1 set; the count of slots that
-- the function adds up is never returned, and is left out.
use best_kernel.Base.{
  ℕ, ◌+◌, ◌-◌, ◌*◌, ◌^◌, ◌≡◌, ◌≢◌, ◌<◌, arith, List, Bool, ◌&&◌, ◌⊎◌, bit_and, ◌==◌, ◌!=◌,
  if◌then◌else◌, u64, shl32, shr, get_or, set, length, get_or-set_self, length-set, ◌∙◌, sym,
}
use best_kernel.Pci.{Ports, Device, boot_mask, boot_write, boot_read, get_command}
use best_kernel.Pci.Config.{boot_read_lem}

-- The arrays `bases`, `lengths` and `types` of a device.
pub record Ranges : Type 0 where
  pub bases : List ℕ
  pub lengths : List ℕ
  pub types : List ℕ

-- 0 is uncacheable memory, 1 is serial ports and 2 is prefetchable memory.
unfoldable pub range_type : ℕ → ℕ
range_type base = if bit_and base 1 == 0 then (if bit_and base 4 != 0 then 2 else 0) else 1

-- `if !(base & 1)` and `if (base & 3)`: is there a second half?
unfoldable pub is_wide : ℕ → Bool
is_wide base = bit_and base 1 == 0 && bit_and base 3 != 0

-- `(!(size<<2>>2))+1`, with the logical `!`.
unfoldable pub range_length : ℕ → ℕ
range_length size = if shr (shl32 size 2) 2 == 0 then 1 + 1 else 0 + 1

module _ (p : Ports) where
  open p use {State, register, effect, address_keeps, writes}

  -- `set_command(processor,dev,contents)`
  unfoldable pub set_command : Device → ℕ → State → State
  set_command dev contents s = boot_write p dev 0x4 contents s

  -- What one pass reads, as the base and the size, and the state that it leaves.
  unfoldable pub probe : Device → ℕ → State → (ℕ × ℕ) × State
  unfolding set_command
  probe dev reg s =
      let (base, s1) = boot_read p dev reg s in
      let (dis, s2) = get_command p dev s1 in
      let s3 = boot_write p dev reg (2 ^ 32 - 1) (set_command dev (shr (shl32 dis 2) 2) s2) in
      let (size, s4) = boot_read p dev reg s3 in
      ((base, size), set_command dev dis (boot_write p dev reg base s4))

  -- What one pass stores for range `rangenum`: `or` is 0 or 32.
  unfoldable pub store_range : ℕ → ℕ → ℕ × ℕ → Ranges → Ranges
  unfolding range_type range_length
  store_range rangenum or found r = record {
    bases = set r.bases rangenum (u64 (shr found.0 4 * 2 ^ 4 * 2 ^ or));
    lengths = set r.lengths rangenum (u64 (range_length found.1 * 2 ^ or));
    types = set r.types rangenum (range_type found.0);
  }

  unfoldable pub get_bar_info : Device → ℕ → ℕ → Ranges → State → Ranges × State
  unfolding probe store_range is_wide
  get_bar_info dev rangenum reg r s =
      let (found, s') = probe dev reg s in
      let r' = store_range rangenum 0 found r in
      if is_wide found.0
      then (store_range rangenum 32 (probe dev reg s').0 r', (probe dev reg s').1)
      else (r', s')

  stored_length :
      (rangenum or : ℕ) (found : ℕ × ℕ) (r : Ranges)
      → rangenum < length r.lengths
      → (length (store_range rangenum or found r).lengths ≡ length r.lengths)
        × ((get_or (store_range rangenum or found r).lengths rangenum 0 ≡ u64 (2 ^ or))
            ⊎ (get_or (store_range rangenum or found r).lengths rangenum 0 ≡ u64 (2 * 2 ^ or)))
  unfolding store_range
  stored_length rangenum or found r h = ground (
    arith,
    length-set r.lengths rangenum (u64 (range_length found.1 * 2 ^ or)),
    get_or-set_self r.lengths rangenum (u64 (range_length found.1 * 2 ^ or)) 0 h,
  )

  -- The length that get_bar_info stores is never the size of the range: whatever the device answers,
  -- it is 1 or 2, or one of these times 2 ^ 32.
  get_bar_info_lengths :
      (dev : Device) (rangenum reg : ℕ) (r : Ranges) (s : State)
      → rangenum < length r.lengths
      → (get_or (get_bar_info dev rangenum reg r s).0.lengths rangenum 0 ≡ 1)
        ⊎ (get_or (get_bar_info dev rangenum reg r s).0.lengths rangenum 0 ≡ 2)
        ⊎ (get_or (get_bar_info dev rangenum reg r s).0.lengths rangenum 0 ≡ 2 ^ 32)
        ⊎ (get_or (get_bar_info dev rangenum reg r s).0.lengths rangenum 0 ≡ 2 ^ 33)
  unfolding get_bar_info
  get_bar_info_lengths dev rangenum reg r s h = ground (
    arith,
    stored_length rangenum 0 (probe dev reg s).0 r h,
    stored_length rangenum 32 (probe dev reg (probe dev reg s).1).0
        (store_range rangenum 0 (probe dev reg s).0 r),
    length-set r.lengths rangenum (u64 (range_length (probe dev reg s).0.1 * 2 ^ 0)),
  )

  set_command_keeps :
      (dev : Device) (v b : ℕ) (s : State)
      → b ≢ boot_mask dev 4
      → register (set_command dev v s) b ≡ register s b
  unfolding set_command boot_write
  set_command_keeps dev v b s h = ground (arith, writes (boot_mask dev 4) v b s)

  get_command_keeps :
      (dev : Device) (b : ℕ) (s : State) → register (get_command p dev s).1 b ≡ register s b
  unfolding get_command
  get_command_keeps dev b s = (boot_read_lem p dev 4 s).1 b

  -- Writing something to a register and then its old value, with a read in between.
  write_twice :
      (dev : Device) (reg b before v : ℕ) (s : State)
      → effect (boot_mask dev reg) (effect (boot_mask dev reg) before v) before ≡ before
      → register s (boot_mask dev reg) ≡ before
      → register (boot_write p dev reg before (boot_read p dev reg (boot_write p dev reg v s)).1) b
        ≡ register s b
  unfolding boot_write
  write_twice dev reg b before v s plain was =
      let m = boot_mask dev reg in
      let s' = boot_write p dev reg v s in
      ground (
        arith,
        writes m before b (boot_read p dev reg s').1,
        (boot_read_lem p dev reg s').1 m,
        (boot_read_lem p dev reg s').1 b,
        writes m v m s,
        writes m v b s,
      )

  pub probe_restores :
      (dev : Device) (reg b : ℕ) (s : State)
      → ((m x v : ℕ) → effect m (effect m x v) x ≡ x)
      → b ≢ boot_mask dev 4
      → boot_mask dev reg ≢ boot_mask dev 4
      → register (probe dev reg s).1 b ≡ register s b
  unfolding probe
  probe_restores dev reg b s plain h k =
      let s1 = (boot_read p dev reg s).1 in
      let dis = (get_command p dev s1).0 in
      let s2 = (get_command p dev s1).1 in
      let s3 = set_command dev (shr (shl32 dis 2) 2) s2 in
      let kept : (x : ℕ) → x ≢ boot_mask dev 4 → register s3 x ≡ register s x = λ x n.
        set_command_keeps dev (shr (shl32 dis 2) 2) x s2 n
        ∙ get_command_keeps dev x s1
        ∙ (boot_read_lem p dev reg s).1 x in
      let base = (boot_read p dev reg s).0 in
      set_command_keeps dev dis b
        (boot_write p dev reg base (boot_read p dev reg (boot_write p dev reg (2 ^ 32 - 1) s3)).1) h
      ∙ write_twice dev reg b base (2 ^ 32 - 1) s3 (plain (boot_mask dev reg) base (2 ^ 32 - 1))
          (kept (boot_mask dev reg) k ∙ sym (boot_read_lem p dev reg s).0)
      ∙ kept b h

  -- Probing a range leaves every configuration register but the command register as it was, if a
  -- register takes back a value that it held, and the range's register is not the command register
  -- itself.
  pub get_bar_info_restores :
      (dev : Device) (rangenum reg b : ℕ) (r : Ranges) (s : State)
      → ((m x v : ℕ) → effect m (effect m x v) x ≡ x)
      → b ≢ boot_mask dev 4
      → boot_mask dev reg ≢ boot_mask dev 4
      → register (get_bar_info dev rangenum reg r s).1 b ≡ register s b
  unfolding get_bar_info
  get_bar_info_restores dev rangenum reg b r s plain h k = ground (
    arith,
    probe_restores dev reg b s plain h k,
    probe_restores dev reg b (probe dev reg s).1 plain h k,
  )
