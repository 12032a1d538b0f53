-- ===== src/Apic/Tests.antt =====
-- Two devices behind IO apics of 24 lines.
use best_kernel.Base.{ℕ, ◌*◌, ◌<◌, ◌≢◌, refl, List, [], ◌∷◌, some, get_or, ◌+◌, ◌/◌, ◌≡◌, arith}
use best_kernel.Apic.{IoApic}
use best_kernel.Apic.Vectors.{DeviceSlot, Routing, find_apic, assign_vectors}
use best_kernel.Apic.Vectors.Routes.{gate_at, assign_vectors_lem}

abbrev two_slots : List DeviceSlot
two_slots =
    record { taken = 1; irline = 4; handler_word = 4096 }
    ∷ record { taken = 1; irline = 9; handler_word = 8192 }
    ∷ []

abbrev apics : ℕ → IoApic
apics i = record { select = 0; registers = λ r. 0; linesnum = 24 }

abbrev free_slot : DeviceSlot
free_slot = record { taken = 0; irline = 0; handler_word = 0 }

first_apic : find_apic 256 0 (λ i. 0) ≡ some 0
unfolding find_apic
first_apic = refl

assign_vectors_lem_example :
    (r : Routing) × (assign_vectors 14 (λ i. 0) two_slots apics (λ v. (0, 0)) ≡ some r)
    × ((p : ℕ)
        → p < 2
        → (get_or two_slots p free_slot).taken ≢ 0
        → (r.gates (64 + p * (192 / 2))
            ≡ gate_at 14 (get_or two_slots p free_slot) (64 + p * (192 / 2)))
          × (64 + p * (192 / 2) < 256))
assign_vectors_lem_example =
    assign_vectors_lem 14 0 (λ i. 0) two_slots apics (λ v. (0, 0)) free_slot first_apic
      (omega arith) (omega arith)
