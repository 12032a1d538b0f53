-- ===== src/Apic/Vectors.antt =====
-- init/interrupts.cpp: the check for the apic and the routing of the devices' interrupts.
--
-- `global_base` gives the first line of each IO apic, `bottom` is the low half of the register that
-- rdmsr reads, and `gate_type` is INTERRUPT. The devices are the slots of the directory, with their check byte; `p` and `i` are
-- the source's, so that a pin is chosen by the number of the apic. `range` is never changed.
-- Without an apic of base 0 the source goes on with a null pointer: that is the empty result.
pub mod Routes
use best_kernel.Base.{
  ℕ, zero, suc, ◌+◌, ◌-◌, ◌*◌, ◌/◌, ◌%◌, ◌^◌, bit_and, ◌==◌, if◌then◌else◌, Bool, true, false, not,
  Option, some, none, List, [], ◌∷◌, length, u32,
}
use best_kernel.Apic.{IoApic, assign_vector, mask_pin, unmask_pin}
use best_kernel.Tables.{idescriptor_insert}

-- `if !(bottom & 1<<11){ shutdown(NUH);}`: does the machine shut down?
unfoldable pub ensure_interrupts_mode : ℕ → Bool
ensure_interrupts_mode bottom = bit_and bottom (2 ^ 11) == 0

-- A slot of the devices' directory. `handler_word` is the word that stands at virt_irhandler, the
-- address of the device's handler: Idescriptor_insert stores that word.
pub record DeviceSlot : Type 0 where
  pub taken : ℕ
  pub irline : ℕ
  pub handler_word : ℕ

pub record Routing : Type 0 where
  pub apics : ℕ → IoApic
  pub current : ℕ
  pub vector : ℕ
  pub gates : ℕ → ℕ × ℕ

-- `for (; i < 256; ++i){ if (iogod->pool[i]->global_base == 0){ io = &iogod->pool[i]; break;}}`
unfoldable pub find_apic : (left i : ℕ) → (ℕ → ℕ) → Option ℕ
find_apic zero i global_base = none
find_apic (suc left) i global_base =
    let rest = find_apic left (i + 1) global_base in if global_base i == 0 then some i else rest

-- What is left of a search that finds nothing: the apic that was there.
abbrev pub or_current : Option ℕ → ℕ → ℕ
or_current (some i) current = i
or_current none current = current

-- One turn of the loop over the devices; `n` is their number.
unfoldable pub route : (n gate_type : ℕ) → (ℕ → ℕ) → DeviceSlot → Routing → Routing
unfolding find_apic mask_pin unmask_pin assign_vector idescriptor_insert
route n gate_type global_base d s =
    let i = s.current in
    let io =
      if (s.apics i).linesnum == 0 then or_current (find_apic (256 - i) i global_base) i else i in
    let pin = u32 (io + 2 ^ 32 - global_base io) in
    let masked = (mask_pin pin (s.apics io)).0 in
    let line = u32 (d.irline + 2 ^ 32 - global_base io) in
    let assigned = (assign_vector line s.vector (unmask_pin pin (s.apics io)).0).0 in
    let gate = idescriptor_insert d.handler_word (s.vector + 1) (s.vector / 16) gate_type 0 in
    record {
      apics = λ j. if j == io then (if d.taken == 0 then masked else assigned) else s.apics j;
      current = io;
      vector = u32 (s.vector + 192 / n);
      gates = λ v. if d.taken == 0 then s.gates v else (if v == s.vector then gate else s.gates v);
    }

unfoldable pub route_all : (n gate_type : ℕ) → (ℕ → ℕ) → List DeviceSlot → Routing → Routing
unfolding route
route_all n gate_type global_base [] s = s
route_all n gate_type global_base (d ∷ ds) s =
    route_all n gate_type global_base ds (route n gate_type global_base d s)

unfoldable pub assign_vectors :
    (gate_type : ℕ) → (ℕ → ℕ) → List DeviceSlot → (ℕ → IoApic) → (ℕ → ℕ × ℕ) → Option Routing
unfolding route_all
assign_vectors gate_type global_base ds apics gates = elim (find_apic 256 0 global_base) [
  | none ↦ none
  | some i ↦ some (
      route_all (length ds) gate_type global_base ds
        (record { apics = apics; current = i; vector = 64; gates = gates }))
]
