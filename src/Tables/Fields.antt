-- ===== src/Tables/Fields.antt =====
-- What the words of a descriptor hold, and how pages are counted.
use best_kernel.Base.{
  ℕ, ◌+◌, ◌*◌, ◌/◌, ◌%◌, ◌^◌, ◌<◌, ◌≤◌, ◌≡◌, arith, bit_or, shl32, shl64, shr, ◌==◌, if◌then◌else◌,
}
use best_kernel.Base.Bits.{or_disjoint, or_disjoint_low, or_comm, or_assoc}
use best_kernel.Paging.{get_multi_from_pagetype}
use best_kernel.Tables.{tosmallpage, pagetype_roundown, pagetype_roundup, idescriptor_insert}

-- The second of seven fields goes to the left.
field_to_front :
    (lo hi a b c d e : ℕ)
    → bit_or (bit_or (bit_or (bit_or (bit_or (bit_or lo hi) a) b) c) d) e
      ≡ bit_or hi (bit_or (bit_or (bit_or (bit_or (bit_or lo a) b) c) d) e)
field_to_front lo hi a b c d e = rw (
  or_comm lo hi,
  or_assoc hi lo a,
  or_assoc hi (bit_or lo a) b,
  or_assoc hi (bit_or (bit_or lo a) b) c,
  or_assoc hi (bit_or (bit_or (bit_or lo a) b) c) d,
  or_assoc hi (bit_or (bit_or (bit_or (bit_or lo a) b) c) d) e,
)

fields_sum :
    (lo hi a b c d : ℕ)
    → lo < 2 ^ 16
    → hi < 2 ^ 16
    → a < 2 ^ 16
    → b < 2 ^ 8
    → c < 2 ^ 5
    → d < 4
    → bit_or
        (bit_or
          (bit_or
            (bit_or (bit_or (bit_or lo (hi * 2 ^ 48)) (a * 2 ^ 16)) (b * 2 ^ 32))
            (c * 2 ^ 40))
          (d * 2 ^ 45))
        (2 ^ 47)
      ≡ lo + a * 2 ^ 16 + b * 2 ^ 32 + c * 2 ^ 40 + d * 2 ^ 45 + 2 ^ 47 + hi * 2 ^ 48
fields_sum lo hi a b c d l h p q r s =
    rw
      (
        field_to_front lo (hi * 2 ^ 48) (a * 2 ^ 16) (b * 2 ^ 32) (c * 2 ^ 40) (d * 2 ^ 45)
            (2 ^ 47),
        or_disjoint_low 16 lo (a * 2 ^ 16) l (omega arith),
        or_disjoint_low 32 (a * 2 ^ 16 + lo) (b * 2 ^ 32) (omega arith) (omega arith),
        or_disjoint_low 40 (b * 2 ^ 32 + (a * 2 ^ 16 + lo)) (c * 2 ^ 40) (omega arith)
            (omega arith),
        or_disjoint_low 45 (c * 2 ^ 40 + (b * 2 ^ 32 + (a * 2 ^ 16 + lo))) (d * 2 ^ 45)
            (omega arith) (omega arith),
        or_disjoint_low 47 (d * 2 ^ 45 + (c * 2 ^ 40 + (b * 2 ^ 32 + (a * 2 ^ 16 + lo)))) (2 ^ 47)
            (omega arith) (omega arith),
        or_disjoint 48 (hi * 2 ^ 48)
            (2 ^ 47 + (d * 2 ^ 45 + (c * 2 ^ 40 + (b * 2 ^ 32 + (a * 2 ^ 16 + lo))))) (omega arith)
            (omega arith),
      )
      (omega arith)

-- The first word of a gate holds the low 16 digits of the handler's address, the selector, the stack
-- number, the type, the privilege level, the present digit and the digits 16 to 31 of the address;
-- but the second word holds the digits from 32 on in its own high half, where the processor looks in
-- the low one. (For an address of 64 digits, a selector of 16, a stack number of 8, a type of 5 and a
-- privilege level of 2.)
idescriptor_insert_sum :
    (ins gdt_segsel tss_entry gate_type privilege_level : ℕ)
    → ins < 2 ^ 64
    → gdt_segsel < 2 ^ 16
    → tss_entry < 2 ^ 8
    → gate_type < 2 ^ 5
    → privilege_level < 4
    → ((idescriptor_insert ins gdt_segsel tss_entry gate_type privilege_level).0
        ≡ ins % 2 ^ 16
          + gdt_segsel * 2 ^ 16
          + tss_entry * 2 ^ 32
          + gate_type * 2 ^ 40
          + privilege_level * 2 ^ 45
          + 2 ^ 47
          + ins / 2 ^ 16 % 2 ^ 16 * 2 ^ 48)
      × ((idescriptor_insert ins gdt_segsel tss_entry gate_type privilege_level).1
          ≡ ins / 2 ^ 32 * 2 ^ 32)
unfolding idescriptor_insert
idescriptor_insert_sum ins gdt_segsel tss_entry gate_type privilege_level a b c d e =
    let low : shr (shl64 ins 48) 48 ≡ ins % 2 ^ 16 = omega arith in
    let high : shl64 (shr ins 16) 48 ≡ ins / 2 ^ 16 % 2 ^ 16 * 2 ^ 48 = omega arith in
    let selector : shl32 gdt_segsel 16 ≡ gdt_segsel * 2 ^ 16 = omega arith in
    let stack : shl64 tss_entry 32 ≡ tss_entry * 2 ^ 32 = omega arith in
    let type : shl64 gate_type 40 ≡ gate_type * 2 ^ 40 = omega arith in
    let level : shl64 privilege_level 45 ≡ privilege_level * 2 ^ 45 = omega arith in
    (
      rw (low, high, selector, stack, type, level)
          (fields_sum (ins % 2 ^ 16) (ins / 2 ^ 16 % 2 ^ 16) gdt_segsel tss_entry gate_type
            privilege_level (omega arith) (omega arith) b c d e),
      omega arith,
    )

-- tosmallpage counts exactly the small pages that hold `x` bytes: they do, and one page less does
-- not. pagetype_roundup has its two cases the wrong way round: where the bytes fill pages exactly it
-- counts one page too many, and elsewhere one too few, so that they do not fit.
rounding_up :
    (x pagetype : ℕ)
    → (x ≤ tosmallpage x * 4096)
      × (tosmallpage x * 4096 < x + 4096)
      × (pagetype_roundup x pagetype ≡ (
          if x % get_multi_from_pagetype pagetype == 0
          then pagetype_roundown pagetype x + 1
          else pagetype_roundown pagetype x))
unfolding tosmallpage pagetype_roundup pagetype_roundown
rounding_up x pagetype = ground arith
