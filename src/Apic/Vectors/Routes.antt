-- ===== src/Apic/Vectors/Routes.antt =====
-- Which gate each device gets.
use native.Mathlib.Nat.{mul-div-le, lt-mul-div-succ, mul-le-mul_right}
use best_kernel.Base.{
  ℕ, zero, suc, ◌+◌, ◌*◌, ◌/◌, ◌≤◌, ◌<◌, ◌≡◌, ◌≢◌, refl, sym, ap, ◌∙◌, arith, Option, some, none,
  List, [], ◌∷◌, length, get_or, u32,
}
use best_kernel.Tables.{idescriptor_insert}
use best_kernel.Apic.{IoApic}
use best_kernel.Apic.Vectors.{DeviceSlot, Routing, route, route_all, find_apic, assign_vectors}

-- The gate of a device at a vector.
abbrev pub gate_at : ℕ → DeviceSlot → ℕ → ℕ × ℕ
gate_at gate_type d v = idescriptor_insert d.handler_word (v + 1) (v / 16) gate_type 0

module _ (n gate_type : ℕ) (global_base : ℕ → ℕ) where
  route-vector :
      (d : DeviceSlot) (s : Routing)
      → (route n gate_type global_base d s).vector ≡ u32 (s.vector + 192 / n)
  unfolding route
  route-vector d s = refl

  route-gates :
      (d : DeviceSlot) (s : Routing) (v : ℕ)
      → v ≢ s.vector
      → (route n gate_type global_base d s).gates v ≡ s.gates v
  unfolding route
  route-gates d s v h = ground arith

  route_own :
      (d : DeviceSlot) (s : Routing)
      → d.taken ≢ 0
      → (route n gate_type global_base d s).gates s.vector
        ≡ idescriptor_insert d.handler_word (s.vector + 1) (s.vector / 16) gate_type 0
  unfolding route
  route_own d s h = ground arith

  -- A gate below the vector that is next stays.
  route_all-gates :
      (ds : List DeviceSlot) (s : Routing) (v : ℕ)
      → v < s.vector
      → s.vector + length ds * (192 / n) ≤ 256
      → (route_all n gate_type global_base ds s).gates v ≡ s.gates v
  unfolding route_all
  route_all-gates [] s v l b = refl
  route_all-gates (d ∷ ds) s v l b =
      let next : u32 (s.vector + 192 / n) ≡ s.vector + 192 / n = omega arith in
      route_all-gates ds (route n gate_type global_base d s) v (omega (arith, route-vector d s))
        (omega (arith, route-vector d s))
      ∙ route-gates d s v (λ e. absurd (omega (arith, e)))

  routes :
      (ds : List DeviceSlot) (s : Routing) (p : ℕ) (d0 : DeviceSlot)
      → 1 ≤ 192 / n
      → s.vector + length ds * (192 / n) ≤ 256
      → p < length ds
      → (get_or ds p d0).taken ≢ 0
      → (route_all n gate_type global_base ds s).gates (s.vector + p * (192 / n))
        ≡ gate_at gate_type (get_or ds p d0) (s.vector + p * (192 / n))
  unfolding route_all
  routes [] s p d0 k b l t = absurd (omega arith)
  routes (d ∷ ds) s zero d0 k b l t =
      let here : s.vector + 0 * (192 / n) ≡ s.vector = omega arith in
      let next : u32 (s.vector + 192 / n) ≡ s.vector + 192 / n = omega arith in
      let rest : Routing = route n gate_type global_base d s in
      ap (route_all n gate_type global_base ds rest).gates here
      ∙ route_all-gates ds rest s.vector (omega (arith, route-vector d s))
          (omega (arith, route-vector d s))
      ∙ route_own d s t
      ∙ ap (gate_at gate_type d) (sym here)
  routes (d ∷ ds) s (suc p) d0 k b l t =
      let next : u32 (s.vector + 192 / n) ≡ s.vector + 192 / n = omega arith in
      let rest : Routing = route n gate_type global_base d s in
      let there : s.vector + suc p * (192 / n) ≡ rest.vector + p * (192 / n) =
        omega (arith, route-vector d s) in
      ap (route_all n gate_type global_base ds rest).gates there
      ∙ routes ds rest p d0 k (omega (arith, route-vector d s)) (omega arith) t
      ∙ ap (gate_at gate_type (get_or ds p d0)) (sym there)

step_bound : (n : ℕ) → 1 ≤ n → n ≤ 192 → 1 ≤ 192 / n
step_bound n l b =
    let none_left : 192 / n ≡ 0 → n * (192 / n + 1) ≡ n =
      λ e. ap (λ (t : ℕ). n * (t + 1)) e ∙ omega arith in
    ground (arith, none_left, lt-mul-div-succ 192 l)

within : (n p : ℕ) → p < n → 1 ≤ 192 / n → n * (192 / n) ≤ 192 → 64 + p * (192 / n) < 256
within n p l k b = omega (arith, mul-le-mul_right (192 / n) l)

-- Up to 192 devices get a gate each: where an apic of base 0 is found, assign_vectors ends, and the
-- device in slot `p`, if it is there, has the word at its handler's address, not that address, in the
-- gate 64 + p * (192 / number), which stays below 256.
pub assign_vectors_lem :
    (gate_type i : ℕ) (global_base : ℕ → ℕ) (ds : List DeviceSlot) (apics : ℕ → IoApic)
    (gates : ℕ → ℕ × ℕ) (d0 : DeviceSlot)
    → find_apic 256 0 global_base ≡ some i
    → 1 ≤ length ds
    → length ds ≤ 192
    → (r : Routing) × (assign_vectors gate_type global_base ds apics gates ≡ some r)
      × ((p : ℕ)
          → p < length ds
          → (get_or ds p d0).taken ≢ 0
          → (r.gates (64 + p * (192 / length ds))
              ≡ gate_at gate_type (get_or ds p d0) (64 + p * (192 / length ds)))
            × (64 + p * (192 / length ds) < 256))
unfolding assign_vectors
assign_vectors_lem gate_type i global_base ds apics gates d0 e l b =
    let n = length ds in
    let s : Routing = record { apics = apics; current = i; vector = 64; gates = gates } in
    let step : 1 ≤ 192 / n = step_bound n l b in
    let room : n * (192 / n) ≤ 192 = mul-div-le 192 n in
    (
      route_all n gate_type global_base ds s,
      ap
          (λ (t : Option ℕ). elim t [
            | none ↦ none
            | some j ↦ some (
                route_all n gate_type global_base ds
                  (record { apics = apics; current = j; vector = 64; gates = gates }))
          ])
          e,
      λ p q t. (
        routes n gate_type global_base ds s p d0 step (omega (arith, room)) q t,
        within n p q step room,
      ),
    )
