-- ===== src/Acpi/Search.antt =====
-- What the search for a table looks at.
use best_kernel.Base.{
  ℕ, zero, suc, ◌+◌, ◌-◌, ◌*◌, ◌/◌, ◌^◌, ◌<◌, ◌≤◌, ◌≡◌, ◌≢◌, some, none, refl, arith, ◌==◌, ◌&&◌,
  ◌||◌, if◌then◌else◌, ltb, u32, u64,
}
use native.Mathlib.Decide.{ℕ_discrete, dec_lt}
use best_kernel.Acpi.{
  word, pointer, Rsdp, header_size, first_entry, search_entries, find_toplevel_table,
}

search_entries_first :
    (fuel i bound mask table : ℕ) (memory : ℕ → ℕ)
    → i < bound
    → word memory table ≡ mask
    → search_entries (suc fuel) i bound mask table memory ≡ some (pointer memory table)
unfolding search_entries
search_entries_first fuel i bound mask table memory l e = ground arith

search_entries_ends :
    (left i bound mask table fuel : ℕ) (memory : ℕ → ℕ)
    → i + left ≡ bound
    → bound < 2 ^ 32
    → word memory table ≢ mask
    → left < fuel
    → search_entries fuel i bound mask table memory ≡ some 0
unfolding search_entries
search_entries_ends left i bound mask table zero memory e b n l = absurd (omega arith)
search_entries_ends zero i bound mask table (suc fuel) memory e b n l = ground arith
search_entries_ends (suc left) i bound mask table (suc fuel) memory e b n l =
    let next : u32 (i + 1) ≡ i + 1 = omega arith in
    let rest =
      search_entries_ends left (i + 1) bound mask table fuel memory (omega arith) b n
        (omega arith) in
    rw next (ground (arith, rest, n))

search_entries_stays :
    (fuel i bound mask table : ℕ) (memory : ℕ → ℕ)
    → 2 ^ 32 ≤ bound
    → i < 2 ^ 32
    → word memory table ≢ mask
    → search_entries fuel i bound mask table memory ≡ none
unfolding search_entries
search_entries_stays zero i bound mask table memory b l n = refl
search_entries_stays (suc fuel) i bound mask table memory b l n =
    ground
      (arith, search_entries_stays fuel (u32 (i + 1)) bound mask table memory b (omega arith) n, n)

bound_zero :
    (fuel mask table : ℕ) (memory : ℕ → ℕ)
    → search_entries (suc fuel) 0 0 mask table memory ≡ some 0
unfolding search_entries
bound_zero fuel mask table memory = refl

-- The search sees only the first entry of the table of tables, and takes the entry's own address
-- for a signature. With bytes as they are in memory and 2 ^ 29 + 1 passes of fuel or more: if the lower
-- half of that address is the signature sought and the upper half is at least 44 or less than 36, the
-- search finds that entry. If not, it returns null, except that it never ends where the upper half is
-- less than 36, which makes the bound of the loop greater than any `i`. What the tables hold does
-- not matter.
pub find_toplevel_table_first :
    (fuel mask : ℕ) (r : Rsdp) (memory : ℕ → ℕ)
    → ((a : ℕ) → memory a < 2 ^ 8)
    → 2 ^ 29 < fuel
    → let low : ℕ = word memory (first_entry r) in
      let high : ℕ = word memory (first_entry r + 4) in
      find_toplevel_table fuel mask r memory ≡ (
        if low == mask && (ltb high 36 || ltb 43 high)
        then some (low + high * 2 ^ 32)
        else if ltb high 36
        then none
        else some 0)
unfolding find_toplevel_table
find_toplevel_table_first zero mask r memory bytes f = absurd (omega arith)
find_toplevel_table_first (suc fuel) mask r memory bytes f =
    let table = first_entry r in
    let high = word memory (table + 4) in
    let bound = u64 (high + (2 ^ 64 - header_size)) / 8 in
    let small : high < 2 ^ 32 = omega (
      arith,
      bytes (table + 4),
      bytes (table + 4 + 1),
      bytes (table + 4 + 2),
      bytes (table + 4 + 3),
    ) in
    elim (ℕ_discrete (word memory table) mask) [
      | yes e ↦ elim (ℕ_discrete bound 0) [
        | yes z ↦ ground (arith, small, z, e, bound_zero fuel mask table memory)
        | no n ↦ ground (
          arith,
          small,
          n,
          e,
          search_entries_first fuel 0 bound mask table memory (omega (arith, n)) e,
        )
      ]
      | no n ↦ elim (dec_lt high 36) [
        | yes l ↦ ground (
          arith,
          small,
          n,
          l,
          search_entries_stays (suc fuel) 0 bound mask table memory (omega arith) (omega arith) n,
        )
        | no g ↦ ground (
          arith,
          small,
          n,
          g,
          search_entries_ends bound 0 bound mask table (suc fuel) memory (omega arith) (omega arith)
              n (omega arith),
        )
      ]
    ]
