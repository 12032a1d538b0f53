-- ===== src/Pci/Config.antt =====
-- What the configuration functions read and write.
use mathlib.Core.Path.{ap₂, fun_ext}
use best_kernel.Base.{
  ℕ, ◌+◌, ◌*◌, ◌/◌, ◌%◌, ◌^◌, ◌<◌, ◌≡◌, refl, List, [], ◌∷◌, map, arith, shl32, shr, ◌∙◌, ap, ◌==◌,
  ◌&&◌, if◌then◌else◌,
}
use best_kernel.Base.Bits.{and_mask, and_single}
use best_kernel.Pci.{
  Ports, Device, offset_mask, boot_mask, read, boot_write, boot_read, get_headertype, get_command,
  get_status,
}
use best_kernel.Pci.Address.{IsDevice, boot_mask_sum}

module _ (p : Ports) where
  open p use {State, register, effect, address_keeps, reads, read_keeps, writes}

  pub boot_read_lem :
      (dev : Device) (reg : ℕ) (s : State)
      → ((boot_read p dev reg s).0 ≡ register s (boot_mask dev reg))
        × ((b : ℕ) → register (boot_read p dev reg s).1 b ≡ register s b)
  unfolding boot_read
  boot_read_lem dev reg s = (
    reads (boot_mask dev reg) s,
    λ b. read_keeps b (p.outd (boot_mask dev reg) 0xCF8 s) ∙ address_keeps (boot_mask dev reg) b s,
  )

  -- `read` returns, in order, what the registers at the device's offsets hold, and leaves every
  -- configuration register as it was.
  pub read_registers :
      (dev : Device) (offsets : List ℕ) (s : State)
      → ((read p dev offsets s).0 ≡ map (λ o. register s (offset_mask dev o)) offsets)
        × ((b : ℕ) → register (read p dev offsets s).1 b ≡ register s b)
  unfolding read
  read_registers dev [] s = (refl, λ b. refl)
  read_registers dev (o ∷ offsets) s =
      let s' = (p.ind 0xCFC (p.outd (offset_mask dev o) 0xCF8 s)).1 in
      let keeps : (b : ℕ) → register s' b ≡ register s b = λ b.
        read_keeps b (p.outd (offset_mask dev o) 0xCF8 s) ∙ address_keeps (offset_mask dev o) b s in
      let rest = read_registers dev offsets s' in
      (
        ap₂ ◌∷◌ (reads (offset_mask dev o) s) (
            rest.0
            ∙ ap (λ (f : ℕ → ℕ). map (λ x. f (offset_mask dev x)) offsets)
                (fun_ext {f = register s'} {g = register s} keeps)),
        λ b. rest.1 b ∙ keeps b,
      )

  -- A boot write reaches the register that it names, which becomes what the device makes of the
  -- value, and a boot read returns that; a boot read of another device, or of another register,
  -- returns what it returned before. (For bus, device and function numbers in range, and registers
  -- of one byte that are multiples of 4.)
  boot_read-boot_write :
      (d e : Device) (reg other contents : ℕ) (s : State)
      → IsDevice d
      → IsDevice e
      → (reg < 256) × (reg % 4 ≡ 0)
      → (other < 256) × (other % 4 ≡ 0)
      → (boot_read p e other (boot_write p d reg contents s)).0 ≡ (
          if e.bus == d.bus && e.device == d.device && e.function == d.function && other == reg
          then effect (boot_mask d reg) (boot_read p d reg s).0 contents
          else (boot_read p e other s).0)
  unfolding boot_write
  boot_read-boot_write d e reg other contents s hd he r o = ground (
    arith,
    (boot_read_lem e other (boot_write p d reg contents s)).0,
    (boot_read_lem e other s).0,
    (boot_read_lem d reg s).0,
    writes (boot_mask d reg) contents (boot_mask e other) s,
    boot_mask_sum d reg hd r.0 r.1,
    boot_mask_sum e other he o.0 o.1,
  )

  -- The header type is digits 8 to 14 of the word that is read; digit 15 is reported through the
  -- pointer as 1, and if it is clear the variable behind the pointer keeps its value.
  pub get_headertype_fields :
      (dev : Device) (multifunction : ℕ) (s : State)
      → (get_headertype p dev multifunction s).0 ≡ (
        (boot_read p dev 0x6 s).0 / 2 ^ 8 % 128,
        if (boot_read p dev 0x6 s).0 / 2 ^ 15 % 2 == 1 then 1 else multifunction,
      )
  unfolding get_headertype
  get_headertype_fields dev multifunction s =
      let word = (boot_read p dev 0x6 s).0 in
      let ret = shr (shl32 word 16) 24 in ground (arith, and_mask 7 ret, and_single 7 ret)

  -- The two halves of register 4: the command in its low and the status in its high 16 digits.
  pub command_status :
      (dev : Device) (s : State)
      → (get_status p dev s).0 * 2 ^ 16 + (get_command p dev s).0 ≡ (boot_read p dev 4 s).0
  unfolding get_status get_command
  command_status dev s = omega arith
