-- ===== src/Paging/Entries.antt =====
-- What the fields of a page entry are after it has been made.
use best_kernel.Base.{
  ℕ, zero, suc, ◌+◌, ◌-◌, ◌*◌, ◌/◌, ◌%◌, ◌^◌, ◌<◌, ◌≡◌, arith, bit_or, ◌==◌, if◌then◌else◌, shl64,
  leb, ltb, ◌&&◌, ap,
}
use best_kernel.Base.Bits.{or_disjoint, or_single, or-zero}
use best_kernel.Paging.{memreq_template, place_cache, write_entries}

-- The cache type stays in the low digits for every page type: the rotation moves it out of the half
-- that is shifted.
pub place_cache_lem : (pagetype cache : ℕ) → cache < 2 ^ 16 → place_cache pagetype cache ≡ cache
unfolding place_cache
place_cache_lem pagetype cache h = ground arith

abbrev pub template_sum : ℕ → ℕ → ℕ → ℕ
template_sum mode cache exec = exec * 2 ^ 63 + mode * 2 ^ 9 + cache + (1 - cache % 2)

with_exec : (x exec : ℕ) → exec < 2 → x < 2 ^ 63 → bit_or x (shl64 exec 63) ≡ exec * 2 ^ 63 + x
with_exec x zero p q = ground (arith, or-zero x)
with_exec x (suc zero) p q = ground (arith, or_single 63 x)
with_exec x (suc (suc e)) p q = absurd (omega arith)

pub memreq_template_sum :
    (pagetype mode cache exec : ℕ)
    → mode < 8
    → cache < 6
    → exec < 2
    → memreq_template pagetype mode cache exec ≡ template_sum mode cache exec
unfolding memreq_template
memreq_template_sum pagetype mode cache exec m c e = ground (
  arith,
  place_cache_lem pagetype cache (omega arith),
  or_disjoint 9 (mode * 2 ^ 9) cache (omega arith) (omega arith),
  with_exec (mode * 2 ^ 9 + cache) exec e (omega arith),
  or_single 0 (exec * 2 ^ 63 + (mode * 2 ^ 9 + cache)),
)

-- An entry that memreq_template makes, for a mode below 8, a cache type of the enum and an
-- executable digit, has its mode in digits 9 to 11 and the executable digit at the top; its digit 0
-- is set. But digits 1 and 2, those of writing and of the user, are those of the cache type, for
-- every page type.
memreq_template_fields :
    (pagetype mode cache exec : ℕ)
    → mode < 8
    → cache < 6
    → exec < 2
    → (memreq_template pagetype mode cache exec / 2 ^ 9 % 8 ≡ mode)
      × (memreq_template pagetype mode cache exec / 2 ^ 63 ≡ exec)
      × (memreq_template pagetype mode cache exec % 2 ≡ 1)
      × (memreq_template pagetype mode cache exec / 2 % 4 ≡ cache / 2)
memreq_template_fields pagetype mode cache exec m c e =
    let sum = memreq_template_sum pagetype mode cache exec m c e in
    (omega (arith, sum), omega (arith, sum), omega (arith, sum), omega (arith, sum))

pub write_entries_lem :
    (left h at : ℕ) (value entries : ℕ → ℕ) (a : ℕ)
    → write_entries left h at value entries a
      ≡ (if leb (at + h) a && ltb a (at + h + left) then value (a - at) else entries a)
unfolding write_entries
write_entries_lem zero h at value entries a = ground arith
write_entries_lem (suc left) h at value entries a = ground (
  arith,
  write_entries_lem left (h + 1) at value (λ b. if b == at + h then value h else entries b) a,
  ap value {x = a - at} {y = h},
)
