-- ===== src/Acpi.antt =====
-- The ACPI tables, drivers/acpi/core.cpp with the layouts of drivers/acpi/spec.h: the search for a
-- table, the walk over the interrupt structures, and the test for a PS/2 controller.
--
-- The first copy of the class is the one modelled; the second repeats it. Memory is a function from
-- addresses to bytes. get_toplevel_table is read as find_toplevel_table, and the pointers of the walk move by bytes.
-- A field that spec.h spells otherwise is the one at its place: `lapic_override` is lapic_pointer,
-- `global_system_interrupt_base` the override of that name, and `table->length` and
-- `table->head->signature` are those of a header that starts at `table`. attach_SCI, which calls a
-- function that nothing declares, is left out.
pub mod Search
pub mod Walk
mod Tests
use best_kernel.Base.{
  ℕ, zero, suc, ◌+◌, ◌-◌, ◌*◌, ◌/◌, ◌%◌, ◌^◌, bit_and, bit_or, ◌==◌, ◌!=◌, if◌then◌else◌, ltb,
  Option, some, none, u32, u64, shr,
}
use best_kernel.Apic.{IoApic, get_max_redir_entries}

-- A little-endian word of 32 digits.
abbrev pub word : (ℕ → ℕ) → ℕ → ℕ
word memory a =
    memory a + memory (a + 1) * 2 ^ 8 + memory (a + 2) * 2 ^ 16 + memory (a + 3) * 2 ^ 24

-- A word of 64 digits, as a pointer.
abbrev pub pointer : (ℕ → ℕ) → ℕ → ℕ
pointer memory a = word memory a + word memory (a + 4) * 2 ^ 32

-- The fields of the RSDP that are read.
pub record Rsdp : Type 0 where
  pub revision : ℕ
  pub rsdt_ptr : ℕ
  pub xsdt_ptr : ℕ

-- sizeof(ACPI_SYSHEADER)
abbrev pub header_size : ℕ
header_size = 36

-- The loop over `i` below `bound`, whose body does not name `i`: `test` is the first entry. `i` is of 32
-- digits and the bound of 64. Empty where the fuel runs out.
unfoldable pub search_entries : (fuel i bound mask table : ℕ) → (memory : ℕ → ℕ) → Option ℕ
search_entries zero i bound mask table memory = none
search_entries (suc fuel) i bound mask table memory =
    let rest = search_entries fuel (u32 (i + 1)) bound mask table memory in
    if ltb i bound
    then if word memory table == mask then some (pointer memory table) else rest
    else some 0

-- What is added to the typed pointer counts headers, not bytes.
unfoldable pub first_entry : Rsdp → ℕ
first_entry r =
    u64 (header_size + header_size * (if ltb 0 r.revision then r.xsdt_ptr else r.rsdt_ptr))

unfoldable pub find_toplevel_table : (fuel mask : ℕ) → Rsdp → (memory : ℕ → ℕ) → Option ℕ
unfolding first_entry search_entries
find_toplevel_table fuel mask r memory =
    let table = first_entry r in
    search_entries fuel 0 (u64 (word memory (table + 4) + (2 ^ 64 - header_size)) / 8) mask table
      memory

-- An entry of the array of IO apics.
pub record IoapicSlot : Type 0 where
  pub global_base : ℕ
  pub pointer : ℕ
  pub linesnum : ℕ

-- What the walk fills; `apics` is the hardware, by address.
pub record Topology : Type 0 where
  pub lapic_pointer : ℕ
  pub online_capable : ℕ → ℕ
  pub processors : ℕ
  pub slots : ℕ → IoapicSlot
  pub ioapics : ℕ
  pub apics : ℕ → IoApic

-- `online_capable |= flags>>1; ++prgod->count;`
unfoldable pub add_processor : (apic_id flags : ℕ) → Topology → Topology
add_processor apic_id flags t = record t {
  online_capable =
      λ i. if i == apic_id then bit_or (t.online_capable i) (shr flags 1) else t.online_capable i;
  processors = u32 (t.processors + 1);
}

unfoldable pub add_ioapic : (id base address : ℕ) → Topology → Topology
unfolding get_max_redir_entries
add_ioapic id base address t =
    let (chosen, lines) = get_max_redir_entries (t.apics address) in
    let slot : IoapicSlot = record { global_base = base; pointer = address; linesnum = lines } in
    record t {
      slots = λ i. if i == id then slot else t.slots i;
      ioapics = u32 (t.ioapics + 1);
      apics = λ a. if a == address then chosen else t.apics a;
    }

-- The body of the walk for the structure at `table`: types 0 and 1 are LOCALAPIC and IOAPIC.
unfoldable pub read_structure : (memory : ℕ → ℕ) → (table : ℕ) → Topology → Topology
unfolding add_processor add_ioapic
read_structure memory table t =
    if memory table == 0
    then add_processor (memory (table + 3)) (word memory (table + 4)) t
    else if memory table == 1
    then add_ioapic (memory (table + 2)) (word memory (table + 8)) (word memory (table + 4)) t
    else t

-- `for (table = …; table < limit; table += table->head->length)`; empty where the fuel runs out.
unfoldable pub walk : (fuel : ℕ) → (memory : ℕ → ℕ) → (limit table : ℕ) → Topology → Option Topology
unfolding read_structure
walk zero memory limit table t = none
walk (suc fuel) memory limit table t =
    let rest =
      walk fuel memory limit (table + memory (table + 1)) (read_structure memory table t) in
    if ltb table limit then rest else some t

-- The structures of a MADT stand 44 bytes after its start, and its length at 4.
unfoldable pub read_madt : (fuel : ℕ) → (memory : ℕ → ℕ) → (madt : ℕ) → Topology → Option Topology
unfolding walk
read_madt fuel memory madt t =
    walk fuel memory (word memory (madt + 4)) (madt + 44)
      (record t { lapic_pointer = word memory (madt + 36) })

-- Empty also where the search for the table does not end.
unfoldable pub build_processors_and_ioapic_array :
    (search fuel mask : ℕ) → Rsdp → (memory : ℕ → ℕ) → Topology → Option Topology
unfolding find_toplevel_table read_madt
build_processors_and_ioapic_array search fuel mask r memory t =
    elim (find_toplevel_table search mask r memory) [
      | none ↦ none
      | some madt ↦ read_madt fuel memory madt t
    ]

-- `return (fadt[109] & 2)`
unfoldable pub test_ps2_controller : (search mask : ℕ) → Rsdp → (memory : ℕ → ℕ) → Option ℕ
unfolding find_toplevel_table
test_ps2_controller search mask r memory = elim (find_toplevel_table search mask r memory) [
  | none ↦ none
  | some fadt ↦ some (bit_and (memory (fadt + 109)) 2)
]
