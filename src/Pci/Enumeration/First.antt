-- ===== src/Pci/Enumeration/First.antt =====
-- Where the ranges of a device come from.
use best_kernel.Base.{
  ℕ, zero, suc, ◌+◌, ◌*◌, ◌^◌, ◌≡◌, ◌≢◌, Bool-cases, ◌⊎◌, inl, inr, refl, ap, ◌∙◌, arith, List, [],
  ◌∷◌, if◌then◌else◌, ltb, set, get_or, u32, u64, shr,
}
use best_kernel.Pci.{Ports, Device, boot_mask, pci_to_pci_device}
use best_kernel.Pci.Config.{boot_read_lem}
use best_kernel.Pci.Ranges.{
  Ranges, is_wide, probe, range_type, store_range, probe_restores, get_bar_info,
  get_bar_info_restores,
}
use best_kernel.Pci.Enumeration.{six_zeros, read_ranges, set_device_ranges}

-- The base that a register's contents stand for, by get_bar_info.
unfoldable pub base_of : ℕ → ℕ
base_of v = u64 (shr v 4 * 2 ^ 4 * 2 ^ (if is_wide v then 32 else 0))

set-set : (xs : List ℕ) (i v w : ℕ) → set (set xs i v) i w ≡ set xs i w
set-set [] i v w = refl
set-set (x ∷ xs) zero v w = refl
set-set (x ∷ xs) (suc i) v w = ap (λ l. x ∷ l) (set-set xs i v w)

get_or-set_either :
    (xs : List ℕ) (i j v : ℕ)
    → (get_or (set xs i v) j 0 ≡ v) ⊎ (get_or (set xs i v) j 0 ≡ get_or xs j 0)
get_or-set_either [] i j v = inr refl
get_or-set_either (x ∷ xs) zero zero v = inl refl
get_or-set_either (x ∷ xs) zero (suc j) v = inr refl
get_or-set_either (x ∷ xs) (suc i) zero v = inr refl
get_or-set_either (x ∷ xs) (suc i) (suc j) v = get_or-set_either xs i j v

-- Each base is 0 or the one given.
abbrev pub OneBase : ℕ → List ℕ → Type 0
OneBase b xs = (j : ℕ) → (get_or xs j 0 ≡ 0) ⊎ (get_or xs j 0 ≡ b)

set-OneBase : (b : ℕ) (xs : List ℕ) (i : ℕ) → OneBase b xs → OneBase b (set xs i b)
set-OneBase b xs i h j = elim (get_or-set_either xs i j b) [
  | inl e ↦ inr e
  | inr e ↦ elim (h j) [ inl z ↦ inl (e ∙ z) | inr z ↦ inr (e ∙ z) ]
]

zeros : (j : ℕ) → get_or six_zeros j 0 ≡ 0
zeros zero = refl
zeros (suc zero) = refl
zeros (suc (suc zero)) = refl
zeros (suc (suc (suc zero))) = refl
zeros (suc (suc (suc (suc zero)))) = refl
zeros (suc (suc (suc (suc (suc zero))))) = refl
zeros (suc (suc (suc (suc (suc (suc j)))))) = refl

module _ (p : Ports) (plain : (m x v : ℕ) → p.effect m (p.effect m x v) x ≡ x) where
  open p use {State, register}

  probe-base :
      (dev : Device) (reg : ℕ) (s : State)
      → (probe p dev reg s).0.0 ≡ register s (boot_mask dev reg)
  unfolding probe
  probe-base dev reg s = (boot_read_lem p dev reg s).0

  pub get_bar_info-bases :
      (dev : Device) (i reg : ℕ) (r : Ranges) (s : State)
      → boot_mask dev reg ≢ boot_mask dev 4
      → (get_bar_info p dev i reg r s).0.bases
        ≡ set r.bases i (base_of (register s (boot_mask dev reg)))
  unfolding get_bar_info store_range base_of
  get_bar_info-bases dev i reg r s k = ground (
    arith,
    probe-base dev reg s,
    probe-base dev reg (probe p dev reg s).1,
    probe_restores p dev reg (boot_mask dev reg) s plain k k,
    set-set r.bases i (u64 (shr (register s (boot_mask dev reg)) 4 * 2 ^ 4 * 2 ^ 0))
        (u64 (shr (register s (boot_mask dev reg)) 4 * 2 ^ 4 * 2 ^ 32)),
  )

  pub get_bar_info-types :
      (dev : Device) (i reg : ℕ) (r : Ranges) (s : State)
      → boot_mask dev reg ≢ boot_mask dev 4
      → (get_bar_info p dev i reg r s).0.types
        ≡ set r.types i (range_type (register s (boot_mask dev reg)))
  unfolding get_bar_info store_range
  get_bar_info-types dev i reg r s k = ground (
    arith,
    probe-base dev reg s,
    probe-base dev reg (probe p dev reg s).1,
    probe_restores p dev reg (boot_mask dev reg) s plain k k,
    set-set r.types i (range_type (register s (boot_mask dev reg)))
        (range_type (register s (boot_mask dev reg))),
  )

  read_ranges-OneBase :
      (fuel i : ℕ) (skip : ℕ → ℕ) (dev : Device) (r : Ranges) (s : State) (b : ℕ)
      → boot_mask dev 0x10 ≢ boot_mask dev 4
      → base_of (register s (boot_mask dev 0x10)) ≡ b
      → OneBase b r.bases
      → OneBase b (read_ranges p fuel i skip dev r s).0.bases
  unfolding read_ranges
  read_ranges-OneBase zero i skip dev r s b k e h = h
  read_ranges-OneBase (suc fuel) i skip dev r s b k e h =
      let found = get_bar_info p dev i 0x10 r s in
      let m = boot_mask dev 0x10 in
      let kept : register found.1 m ≡ register s m =
        get_bar_info_restores p dev i 0x10 m r s plain k k in
      let now : found.0.bases ≡ set r.bases i b =
        get_bar_info-bases dev i 0x10 r s k ∙ ap (set r.bases i) e in
      let bases : OneBase b found.0.bases = rw now (set-OneBase b r.bases i h) in
      let rest =
        read_ranges-OneBase fuel (u32 (u32 (i + skip i) + 1)) skip dev found.0 found.1 b k
          (ap base_of kept ∙ e) bases in
      elim (Bool-cases (ltb i 6)) [ inl t ↦ rw t rest | inr t ↦ rw t h ]

  -- All ranges of a device that is no bridge come from its first base address register: whatever
  -- the calls of get_bar_info leave as their value, and after any number of passes, each base that set_device_ranges stores is 0 or the
  -- one that register 0x10 holds. (If a register takes back a value that it held, and 0x10 is
  -- not the command register.)
  pub set_device_ranges-OneBase :
      (fuel : ℕ) (skip : ℕ → ℕ) (wide_shift : ℕ → ℕ → ℕ) (dev : Device) (r : Ranges) (s : State)
      → boot_mask dev 0x10 ≢ boot_mask dev 4
      → OneBase
          (base_of (register s (boot_mask dev 0x10)))
          (set_device_ranges p fuel skip wide_shift dev pci_to_pci_device r s).0.bases
  unfolding set_device_ranges
  set_device_ranges-OneBase fuel skip wide_shift dev r s k =
      read_ranges-OneBase fuel 0 skip dev (record r { bases = six_zeros; types = six_zeros }) s
        (base_of (register s (boot_mask dev 0x10))) k refl (λ j. inl (zeros j))
