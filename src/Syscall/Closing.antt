-- ===== src/Syscall/Closing.antt =====
-- What SYSCLOSE leaves of a descriptor.
use best_kernel.Base.{
  ℕ, zero, suc, ◌+◌, ◌-◌, ◌^◌, ◌≤◌, ◌<◌, ◌≡◌, refl, ap, ◌∙◌, arith, ◌==◌, if◌then◌else◌, Bool,
  false, List, [], ◌∷◌, get_or, set, u32,
}
use best_kernel.Tasks.{Descriptor}
use best_kernel.Pool.{clear}
use best_kernel.Syscall.{Kernel, minus, sysret, no_descriptor, descriptor, bad_descriptor}
use best_kernel.Syscall.Naming.{free_descriptor, sysclose}

get_or-set_same : {A : Type 0} (xs : List A) (i : ℕ) (v : A) → get_or (set xs i v) i v ≡ v
get_or-set_same [] i v = refl
get_or-set_same (x ∷ xs) zero v = refl
get_or-set_same (x ∷ xs) (suc i) v = get_or-set_same xs i v

free_descriptor-findex :
    (desc : ℕ) (k : Kernel) → (descriptor (free_descriptor desc k) desc).findex ≡ 0
unfolding free_descriptor
free_descriptor-findex desc k =
    ap (λ (d : Descriptor). d.findex) (get_or-set_same k.process.descs.pool desc no_descriptor)

clear_none : (desc g : ℕ) (ck : List ℕ) → clear (1 - suc desc) g ck ≡ ck
unfolding clear
clear_none desc g ck =
    let none_left : 1 - suc desc ≡ 0 = omega arith in ap (λ (t : ℕ). clear t g ck) none_left

-- The descriptor after it is freed.
free_descriptor-bad_descriptor :
    (desc : ℕ) (k : Kernel)
    → bad_descriptor k (suc desc) ≡ false
    → suc desc + 1 < k.process.descs.count
    → k.process.descs.count < 2 ^ 32
    → bad_descriptor (free_descriptor (suc desc) k) (suc desc) ≡ false
unfolding free_descriptor bad_descriptor
free_descriptor-bad_descriptor desc k e b m =
    let byte : ℕ = get_or k.process.descs.ckarray (suc desc) 0 in
    let kept : get_or (clear (1 - suc desc) (suc desc) k.process.descs.ckarray) (suc desc) 0
        ≡ byte =
      ap (λ (t : List ℕ). get_or t (suc desc) 0)
        (clear_none desc (suc desc) k.process.descs.ckarray) in
    ground (arith, kept)

sysclose_good :
    (desc : ℕ) (k : Kernel) (listeners : ℕ → ℕ)
    → bad_descriptor k desc ≡ false
    → sysclose desc k listeners ≡ (
      sysret 0 (free_descriptor desc k),
      λ i.
          if i == (descriptor (free_descriptor desc k) desc).findex
          then u32 (listeners i + 2 ^ 32 - 1)
          else listeners i,
    )
unfolding sysclose
sysclose_good desc k listeners e =
    ap
      (λ (t : Bool). if t then (sysret (minus 1) k, listeners) else (
        sysret 0 (free_descriptor desc k),
        λ i.
            if i == (descriptor (free_descriptor desc k) desc).findex
            then u32 (listeners i + 2 ^ 32 - 1)
            else listeners i,
      ))
      e

-- SYSCLOSE leaves a descriptor other than 0 open: where it accepts the descriptor, and more
-- descriptors than the next are counted, the descriptor is good afterwards too; and it is file 0, not the
-- descriptor's own, that loses a listener.
sysclose_again :
    (desc : ℕ) (k : Kernel) (listeners : ℕ → ℕ)
    → bad_descriptor k desc ≡ false
    → 1 ≤ desc
    → desc + 1 < k.process.descs.count
    → k.process.descs.count < 2 ^ 32
    → (bad_descriptor (sysclose desc k listeners).0 desc ≡ false)
      × ((sysclose desc k listeners).1 ≡ λ i.
          if i == 0 then u32 (listeners i + 2 ^ 32 - 1) else listeners i)
unfolding free_descriptor bad_descriptor
sysclose_again zero k listeners e l b m = absurd (omega arith)
sysclose_again (suc desc) k listeners e l b m = (
  ap (λ (t : Kernel × (ℕ → ℕ)). bad_descriptor t.0 (suc desc))
        (sysclose_good (suc desc) k listeners e)
      ∙ free_descriptor-bad_descriptor desc k e b m,
  ap (λ (t : Kernel × (ℕ → ℕ)). t.1) (sysclose_good (suc desc) k listeners e)
      ∙ ap (λ (n : ℕ). λ i. if i == n then u32 (listeners i + 2 ^ 32 - 1) else listeners i)
          (free_descriptor-findex (suc desc) k),
)
