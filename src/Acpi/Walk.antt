-- ===== src/Acpi/Walk.antt =====
-- The walk over the structures of a MADT, against the list of the structures.
use best_kernel.Base.{
  ℕ, zero, suc, ◌+◌, ◌≤◌, ◌<◌, ◌≡◌, refl, ap, ◌∙◌, arith, lt→ltb, Option, some, none, List, [], ◌∷◌,
  length,
}
use best_kernel.Acpi.{
  word, Rsdp, Topology, find_toplevel_table, read_madt, add_processor, add_ioapic, read_structure,
  walk, build_processors_and_ioapic_array,
}

-- A structure, with its length in bytes.
pub data Structure : Type 0 where
  local_apic : (size apic_id flags : ℕ) → Structure
  io_apic : (size id address base : ℕ) → Structure
  other : (size type : ℕ) → Structure

abbrev pub size_of : Structure → ℕ
size_of (local_apic size apic_id flags) = size
size_of (io_apic size id address base) = size
size_of (other size type) = size

-- The structure stands in memory at `a`.
abbrev pub StandsAt : (ℕ → ℕ) → ℕ → Structure → Type 0
StandsAt memory a (local_apic size apic_id flags) =
    (memory a ≡ 0)
    × (memory (a + 1) ≡ size)
    × (memory (a + 3) ≡ apic_id)
    × (word memory (a + 4) ≡ flags)
StandsAt memory a (io_apic size id address base) =
    (memory a ≡ 1)
    × (memory (a + 1) ≡ size)
    × (memory (a + 2) ≡ id)
    × (word memory (a + 4) ≡ address)
    × (word memory (a + 8) ≡ base)
StandsAt memory a (other size type) = (memory a ≡ type) × (memory (a + 1) ≡ size) × (1 < type)

-- The structures stand one after the other from `a` to `limit`.
abbrev pub Laid : (ℕ → ℕ) → (limit a : ℕ) → List Structure → Type 0
Laid memory limit a [] = limit ≤ a
Laid memory limit a (x ∷ xs) =
    (a < limit) × StandsAt memory a x × Laid memory limit (a + size_of x) xs

-- What a structure tells.
unfoldable pub take_in : Structure → Topology → Topology
unfolding add_processor add_ioapic
take_in (local_apic size apic_id flags) t = add_processor apic_id flags t
take_in (io_apic size id address base) t = add_ioapic id base address t
take_in (other size type) t = t

unfoldable pub take_all : List Structure → Topology → Topology
unfolding take_in
take_all [] t = t
take_all (x ∷ xs) t = take_all xs (take_in x t)

StandsAt-size :
    (memory : ℕ → ℕ) (a : ℕ) (x : Structure) → StandsAt memory a x → memory (a + 1) ≡ size_of x
StandsAt-size memory a (local_apic size apic_id flags) h = h.1
StandsAt-size memory a (io_apic size id address base) h = h.1
StandsAt-size memory a (other size type) h = h.1

read_structure_processor :
    (memory : ℕ → ℕ) (a : ℕ) (t : Topology)
    → memory a ≡ 0
    → read_structure memory a t ≡ add_processor (memory (a + 3)) (word memory (a + 4)) t
unfolding read_structure
read_structure_processor memory a t e = ground arith

read_structure_ioapic :
    (memory : ℕ → ℕ) (a : ℕ) (t : Topology)
    → memory a ≡ 1
    → read_structure memory a t
      ≡ add_ioapic (memory (a + 2)) (word memory (a + 8)) (word memory (a + 4)) t
unfolding read_structure
read_structure_ioapic memory a t e = ground arith

read_structure-take_in :
    (memory : ℕ → ℕ) (a : ℕ) (x : Structure) (t : Topology)
    → StandsAt memory a x
    → read_structure memory a t ≡ take_in x t
unfolding take_in
read_structure-take_in memory a (local_apic size apic_id flags) t (e, s, i, f) =
    read_structure_processor memory a t e
    ∙ ap (λ n. add_processor n (word memory (a + 4)) t) i
    ∙ ap (λ w. add_processor apic_id w t) f
read_structure-take_in memory a (io_apic size id address base) t (e, s, i, f, b) =
    read_structure_ioapic memory a t e
    ∙ ap (λ n. add_ioapic n (word memory (a + 8)) (word memory (a + 4)) t) i
    ∙ ap (λ w. add_ioapic id w (word memory (a + 4)) t) b
    ∙ ap (λ w. add_ioapic id base w t) f
read_structure-take_in memory a (other size type) t (e, s, l) =
    unfold read_structure in ground arith

walk-take_all :
    (fuel : ℕ) (memory : ℕ → ℕ) (limit a : ℕ) (xs : List Structure) (t : Topology)
    → Laid memory limit a xs
    → length xs < fuel
    → walk fuel memory limit a t ≡ some (take_all xs t)
unfolding walk take_all
walk-take_all zero memory limit a xs t h b = elim b [ ]
walk-take_all (suc fuel) memory limit a [] t h b = ground arith
walk-take_all (suc fuel) memory limit a (x ∷ xs) t (l, st, rest) b =
    rw (StandsAt-size memory a x st, read_structure-take_in memory a x t st, lt→ltb a limit l)
      (walk-take_all fuel memory limit (a + size_of x) xs (take_in x t) rest (omega arith))

-- Where the search returns `madt`, which may be null, the walk takes in, in order, the processors and the IO
-- apics of all structures that stand from the 44th byte of it up to the address that is its length,
-- and ends; fuel for one pass more than there are structures is enough.
pub build_processors_and_ioapic_array-take_all :
    (search fuel mask madt : ℕ) (r : Rsdp) (memory : ℕ → ℕ) (t : Topology) (xs : List Structure)
    → find_toplevel_table search mask r memory ≡ some madt
    → Laid memory (word memory (madt + 4)) (madt + 44) xs
    → length xs < fuel
    → build_processors_and_ioapic_array search fuel mask r memory t
      ≡ some (take_all xs (record t { lapic_pointer = word memory (madt + 36) }))
unfolding build_processors_and_ioapic_array read_madt
build_processors_and_ioapic_array-take_all search fuel mask madt r memory t xs e h b =
    ap (λ (found : Option ℕ). elim found [ none ↦ none | some m ↦ read_madt fuel memory m t ]) e
    ∙ walk-take_all fuel memory (word memory (madt + 4)) (madt + 44) xs
        (record t { lapic_pointer = word memory (madt + 36) }) h b

-- But that length is compared with an address: no processor and no IO apic is found in a MADT that
-- does not lie below its own length less 44, whatever structures it has.
pub build_processors_and_ioapic_array_empty :
    (search fuel mask madt : ℕ) (r : Rsdp) (memory : ℕ → ℕ) (t : Topology)
    → find_toplevel_table search mask r memory ≡ some madt
    → word memory (madt + 4) ≤ madt + 44
    → build_processors_and_ioapic_array search (suc fuel) mask r memory t
      ≡ some (record t { lapic_pointer = word memory (madt + 36) })
build_processors_and_ioapic_array_empty search fuel mask madt r memory t e h =
    unfold take_all in
    build_processors_and_ioapic_array-take_all search (suc fuel) mask madt r memory t [] e h
      (omega arith)

-- A structure of length 0 is never left: the walk ends with no fuel.
pub walk_stays :
    (fuel : ℕ) (memory : ℕ → ℕ) (limit table : ℕ) (t : Topology)
    → table < limit
    → memory (table + 1) ≡ 0
    → walk fuel memory limit table t ≡ none
unfolding walk
walk_stays zero memory limit table t l e = refl
walk_stays (suc fuel) memory limit table t l e =
    let stays : table + memory (table + 1) ≡ table = omega arith in
    rw (lt→ltb table limit l, stays)
      (walk_stays fuel memory limit table (read_structure memory table t) l e)
