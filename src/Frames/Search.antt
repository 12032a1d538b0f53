-- ===== src/Frames/Search.antt =====
-- get_free_identity where no page is free.
use native.Mathlib.Nat.{pow-succ', pow-le-pow_right}
use best_kernel.Base.{
  ℕ, zero, suc, ◌+◌, ◌-◌, ◌*◌, ◌/◌, ◌%◌, ◌^◌, ◌≤◌, ◌<◌, ◌≡◌, ◌≢◌, refl, sym, arith, bit_and, ◌==◌,
  if◌then◌else◌, u32, ltb, ◌∙◌, ap, none, false, Bool-cases, inl, inr,
}
use best_kernel.Base.Bits.{and_single}
use best_kernel.Paging.{smallpage, get_multi_from_pagetype}
use best_kernel.Frames.{Frames, Place, refill, advance_place, search_identity, get_free_identity}
use best_kernel.Frames.Digits.{div_sum, two_power, power_sum, powers}

abbrev ones : ℕ
ones = 2 ^ 32 - 1

-- Every second digit of a full word is set.
taken : (k : ℕ) → k < 16 → bit_and ones (2 ^ (2 * k)) ≢ 0
taken k q =
    let rest : suc (31 - 2 * k) + 2 * k ≡ 32 = omega arith in
    let top : ℕ = 2 ^ suc (31 - 2 * k) in
    let split : (top - 1 + 1) * 2 ^ (2 * k) ≡ top * 2 ^ (2 * k) =
      ap (λ (t : ℕ). t * 2 ^ (2 * k)) (omega (arith, two_power (suc (31 - 2 * k)))) in
    let shape : ones ≡ (top - 1) * 2 ^ (2 * k) + (2 ^ (2 * k) - 1) =
      omega (arith, powers (suc (31 - 2 * k)) (2 * k) rest, split, two_power (2 * k)) in
    let digit : ones / 2 ^ (2 * k) % 2 ≡ 1 =
      ap (λ (t : ℕ). t / 2 ^ (2 * k) % 2) shape
      ∙ ap (λ (t : ℕ). t % 2)
          (div_sum (2 * k) (top - 1) (2 ^ (2 * k) - 1) (omega (arith, two_power (2 * k))))
      ∙ omega (arith, pow-succ' 2 (31 - 2 * k), two_power (31 - 2 * k)) in
    let value : bit_and ones (2 ^ (2 * k)) ≡ 1 * 2 ^ (2 * k) =
      and_single (2 * k) ones ∙ ap (λ (t : ℕ). t * 2 ^ (2 * k)) digit in
    ground (arith, value, two_power (2 * k))

-- Where the search stands at the beginning of a pass that met no free page.
abbrev place : ℕ → ℕ → Place
place at k = record { indexer = at; bit = u32 (2 ^ (2 * k)); gate = 0 }

advance_taken :
    (f : Frames) (at k : ℕ)
    → f.table at ≡ ones
    → k < 16
    → advance_place f.table 4096 (place at k)
      ≡ place (if at * 8 % 4096 == 0 then u32 (at + 512) else u32 (at / 512 + 512)) (suc k)
unfolding advance_place
advance_taken f at k e q =
    let below : 2 ^ (2 * k) ≤ 2 ^ 30 = pow-le-pow_right (omega arith) {j = 30} (omega arith) in
    let same : u32 (2 ^ (2 * k)) ≡ 2 ^ (2 * k) = omega arith in
    let sum : 2 * suc k ≡ 2 * k + 2 = omega arith in
    let next : 2 ^ (2 * suc k) ≡ 2 ^ (2 * k) * 4 =
      ap (λ (t : ℕ). 2 ^ t) sum ∙ sym (power_sum (2 * k) 2) in
    rw (e, same, next) (ground (arith, taken k q))

refill-place : (at k : ℕ) → k < 16 → refill (place at k) ≡ place at k
unfolding refill
refill-place at k q =
    let below : 2 ^ (2 * k) ≤ 2 ^ 30 = pow-le-pow_right (omega arith) {j = 30} (omega arith) in
    ground (arith, two_power (2 * k))

-- The next word, after a taken page in word `at`.
abbrev leap : ℕ → ℕ
leap at = if at * 8 % 4096 == 0 then u32 (at + 512) else u32 (at / 512 + 512)

module _ (pages_number : ℕ) (f : Frames) (p : 0 < pages_number) (q : pages_number < 2 ^ 20) where
  -- A pass that starts at `at`, and looks into word `word` after refill.
  pass :
      (fuel at word k k' : ℕ)
      → at < f.memlen / 8
      → refill (place at k) ≡ place word k'
      → f.table word ≡ ones
      → k' < 16
      → search_identity (suc fuel) 4096 pages_number f (place at k)
        ≡ search_identity fuel 4096 pages_number f (place (leap word) (suc k'))
  unfolding search_identity
  pass fuel at word k k' m r e l =
      let closed : (0 == u32 (4096 * pages_number)) ≡ false = ground arith in
      rw (r, advance_taken f word k' e l, closed) (ground arith)

  -- The words 513 and 514 hold the search.
  held :
      (fuel k : ℕ)
      → 514 < f.memlen / 8
      → f.table 513 ≡ ones
      → f.table 514 ≡ ones
      → k ≤ 16
      → search_identity fuel 4096 pages_number f (place 513 k) ≡ none
  unfolding search_identity refill
  held zero k m a b l = refl
  held (suc fuel) k m a b l = elim (Bool-cases (ltb k 16)) [
    | inl e ↦
        pass fuel 513 513 k k (omega arith) (refill-place 513 k (ground arith)) a (ground arith)
        ∙ held fuel (suc k) m a b (ground arith)
    | inr e ↦
        let last : k ≡ 16 = ground arith in
        ap (λ (t : ℕ). search_identity (suc fuel) 4096 pages_number f (place 513 t)) last
        ∙ pass fuel 513 514 16 0 (omega arith) refl b (omega arith)
        ∙ held fuel 1 m a b (omega arith)
  ]

  lands :
      (fuel : ℕ)
      → 8193 < f.memlen / 8
      → ((i : ℕ) → f.table i ≡ ones)
      → search_identity fuel 4096 pages_number f (place 528 1) ≡ none
  unfolding search_identity
  lands zero m t = refl
  lands (suc fuel) m t =
      pass fuel 528 528 1 1 (omega arith) (refill-place 528 1 (omega arith)) (t 528) (omega arith)
      ∙ held fuel 2 (omega arith) (t 513) (t 514) (omega arith)

  -- From the first place the search leaps to word 8193, and from there to word 513.
  leaps :
      (fuel left k : ℕ)
      → 8193 < f.memlen / 8
      → ((i : ℕ) → f.table i ≡ ones)
      → left + k ≡ 16
      → search_identity fuel 4096 pages_number f (place (512 * k) k) ≡ none
  unfolding search_identity refill
  leaps zero left k m t e = refl
  leaps (suc fuel) (suc left) k m t e =
      pass fuel (512 * k) (512 * k) k k (omega arith) (refill-place (512 * k) k (omega arith))
        (t (512 * k)) (omega arith)
      ∙ ap (λ (n : ℕ). search_identity fuel 4096 pages_number f (place n (suc k))) (ground arith)
      ∙ leaps fuel left (suc k) m t (omega arith)
  leaps (suc fuel) zero k m t e =
      let last : k ≡ 16 = omega arith in
      ap (λ (n : ℕ). search_identity (suc fuel) 4096 pages_number f (place (512 * n) n)) last
      ∙ pass fuel 8192 8193 16 0 (omega arith) refl (t 8193) (omega arith)
      ∙ lands fuel m t

-- Where every page is taken, in a table of more than 8193 words, get_free_identity for one page or
-- more (fewer than 2^20) never returns and keeps the lock: whatever the fuel, there is no
-- address and the lock is 255.
get_free_identity_hangs :
    (fuel pages_number : ℕ) (f : Frames)
    → 0 < pages_number
    → pages_number < 2 ^ 20
    → 8193 < f.memlen / 8
    → ((i : ℕ) → f.table i ≡ 2 ^ 32 - 1)
    → get_free_identity fuel pages_number smallpage f ≡ (none, record f { calendar = 255 })
unfolding get_free_identity get_multi_from_pagetype
get_free_identity_hangs fuel pages_number f p q m t =
    rw (get_free_identity, leaps pages_number f p q fuel 16 0 m t refl) refl
