-- ===== src/Acpi/Tests.antt =====
-- A table of tables at 0 whose first entry is a MADT at 256, which is taken for its signature, with
-- one processor.
use best_kernel.Base.{
  ℕ, ◌+◌, ◌^◌, ◌<◌, ◌≡◌, refl, arith, some, none, List, [], ◌∷◌, ◌==◌, if◌then◌else◌,
}
use best_kernel.Acpi.{
  Rsdp, Topology, first_entry, word, find_toplevel_table, walk, build_processors_and_ioapic_array,
}
use best_kernel.Acpi.Search.{find_toplevel_table_first}
use best_kernel.Acpi.Walk.{
  Structure, Laid, local_apic, walk_stays, take_all, build_processors_and_ioapic_array-take_all,
}

abbrev root : Rsdp
root = record { revision = 0; rsdt_ptr = 0; xsdt_ptr = 0 }

abbrev bytes : ℕ → ℕ
bytes a =
    if a == 37
    then 1
    else if a == 260
    then 52
    else if a == 261
    then 1
    else if a == 301
    then 8
    else if a == 303
    then 5
    else if a == 304
    then 3
    else 0

abbrev nothing : Topology
nothing = record {
  lapic_pointer = 0;
  online_capable = λ i. 0;
  processors = 0;
  slots = λ i. record { global_base = 0; pointer = 0; linesnum = 0 };
  ioapics = 0;
  apics = λ a. record { select = 0; registers = λ x. 0; linesnum = 0 };
}

bytes-lt : (a : ℕ) → bytes a < 2 ^ 8
bytes-lt a = ground arith

abbrev enough : ℕ
enough = 2 ^ 29 + 1

found : find_toplevel_table enough 256 root bytes ≡ some 256
unfolding first_entry
found = find_toplevel_table_first enough 256 root bytes bytes-lt (omega arith)

find_toplevel_table_first_example : find_toplevel_table enough 256 root bytes ≡ some 256
unfolding first_entry
find_toplevel_table_first_example =
    find_toplevel_table_first enough 256 root bytes bytes-lt (omega arith)

-- The upper half of the first entry is 0: a search for another table does not end.
missing : find_toplevel_table enough 7 root bytes ≡ none
unfolding first_entry
missing = find_toplevel_table_first enough 7 root bytes bytes-lt (omega arith)

abbrev one_processor : List Structure
one_processor = local_apic 8 5 3 ∷ []

laid : Laid bytes (word bytes (256 + 4)) (256 + 44) one_processor
laid = omega arith

build_processors_and_ioapic_array-take_all_example :
    build_processors_and_ioapic_array enough 2 256 root bytes nothing
    ≡ some (take_all one_processor (record nothing { lapic_pointer = word bytes (256 + 36) }))
build_processors_and_ioapic_array-take_all_example =
    build_processors_and_ioapic_array-take_all enough 2 256 256 root bytes nothing one_processor
      found laid (omega arith)

endless_madt_test : walk 9 bytes 400 310 nothing ≡ none
endless_madt_test = walk_stays 9 bytes 400 310 nothing (omega arith) refl
