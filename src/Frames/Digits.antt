-- ===== src/Frames/Digits.antt =====
-- The digits of the one word that manipulate_phys works on.
use native.Mathlib.Nat.{pow-le-pow_right, pow-succ', one-le-pow, div-eq_of_lt, mul-add-div_right}
use best_kernel.Base.{
  ℕ, zero, suc, ◌+◌, ◌-◌, ◌*◌, ◌/◌, ◌%◌, ◌^◌, ◌≤◌, ◌<◌, ◌≡◌, refl, sym, arith, bit_or, bit_xor, ◌⊎◌,
  ◌∙◌, ap,
}
use best_kernel.Base.Bits.{or_single, xor_single}
use best_kernel.Frames.{Action, set_bits, clear_bits, touch, next_bit, mark_word}

-- What a marked digit is.
abbrev pub mark_of : Action → ℕ
mark_of set_bits = 1
mark_of clear_bits = 0

pub two_power : (k : ℕ) → 0 < 2 ^ k
two_power k = omega (arith, one-le-pow k 2)

pub div_sum : (k q r : ℕ) → r < 2 ^ k → (q * 2 ^ k + r) / 2 ^ k ≡ q
div_sum k q r h = omega (arith, div-eq_of_lt h, mul-add-div_right (two_power k) q r)

-- `h` times a power, by the lowest digit of `h`.
by_digit :
    (h p : ℕ)
    → (h % 2 ≡ 0) × (h * p ≡ h / 2 * (2 * p)) ⊎ (h % 2 ≡ 1) × (h * p ≡ h / 2 * (2 * p) + p)
by_digit h p =
    let even : h % 2 ≡ 0 → h ≡ 2 * (h / 2) = λ e. omega arith in
    let odd : h % 2 ≡ 1 → h ≡ 2 * (h / 2) + 1 = λ e. omega arith in
    let even' : h % 2 ≡ 0 → h * p ≡ h / 2 * (2 * p) =
      λ e. ap (λ (t : ℕ). t * p) (even e) ∙ omega arith in
    let odd' : h % 2 ≡ 1 → h * p ≡ h / 2 * (2 * p) + p =
      λ e. ap (λ (t : ℕ). t * p) (odd e) ∙ omega arith in
    ground (arith, even', odd')

-- `|` at digit `k` sets it, and leaves the `k` digits below.
set_digit :
    (k h r : ℕ) → r < 2 ^ k → bit_or (h * 2 ^ k + r) (2 ^ k) ≡ h / 2 * (2 * 2 ^ k) + 2 ^ k + r
set_digit k h r q =
    let start : bit_or (h * 2 ^ k + r) (2 ^ k) ≡ h * 2 ^ k + r + (1 - h % 2) * 2 ^ k =
      or_single k (h * 2 ^ k + r)
      ∙ ap (λ (t : ℕ). h * 2 ^ k + r + (1 - t % 2) * 2 ^ k) (div_sum k h r q) in
    let even : h % 2 ≡ 0 → (1 - h % 2) * 2 ^ k ≡ 2 ^ k =
      λ e. ap (λ (t : ℕ). (1 - t) * 2 ^ k) e ∙ omega arith in
    let odd : h % 2 ≡ 1 → (1 - h % 2) * 2 ^ k ≡ 0 =
      λ e. ap (λ (t : ℕ). (1 - t) * 2 ^ k) e ∙ omega arith in
    ground (arith, start, even, odd, by_digit h (2 ^ k))

-- `^` at digit `k` clears it, where it is set.
clear_digit :
    (k e r : ℕ) → r < 2 ^ k → bit_xor (e * (2 * 2 ^ k) + 2 ^ k + r) (2 ^ k) ≡ e * (2 * 2 ^ k) + r
clear_digit k e r q =
    let shape : e * (2 * 2 ^ k) + 2 ^ k + r ≡ (2 * e + 1) * 2 ^ k + r = omega arith in
    let digit : (e * (2 * 2 ^ k) + 2 ^ k + r) / 2 ^ k % 2 * 2 ^ k * 2 ≡ 1 * 2 ^ k * 2 =
      ap (λ (t : ℕ). t / 2 ^ k % 2 * 2 ^ k * 2) shape
      ∙ ap (λ (t : ℕ). t % 2 * 2 ^ k * 2) (div_sum k (2 * e + 1) r q)
      ∙ ap (λ (t : ℕ). t * 2 ^ k * 2) (omega arith) in
    omega (arith, xor_single k (e * (2 * 2 ^ k) + 2 ^ k + r), digit)

touched :
    (action : Action) (k h r : ℕ)
    → r < 2 ^ k
    → touch action (2 ^ k) (h * 2 ^ k + r) ≡ h / 2 * 2 ^ suc k + mark_of action * 2 ^ k + r
unfolding touch
touched set_bits k h r q =
    omega (arith, set_digit k h r q, ap (λ (t : ℕ). h / 2 * t) (pow-succ' 2 k))
touched clear_bits k h r q = omega (
  arith,
  ap (λ (t : ℕ). bit_xor t (2 ^ k)) (set_digit k h r q),
  clear_digit k (h / 2) r q,
  ap (λ (t : ℕ). h / 2 * t) (pow-succ' 2 k),
)

-- The word once `k` digits are marked: those digits, and above them what it was.
abbrev pub upto : Action → ℕ → ℕ → ℕ
upto action k h = h * 2 ^ k + mark_of action * (2 ^ k - 1)

touch-upto :
    (action : Action) (k h : ℕ)
    → touch action (2 ^ k) (upto action k h) ≡ upto action (suc k) (h / 2)
touch-upto set_bits k h = omega (
  arith,
  touched set_bits k h (1 * (2 ^ k - 1)) (omega (arith, two_power k)),
  two_power k,
  pow-succ' 2 k,
)
touch-upto clear_bits k h =
    omega (arith, touched clear_bits k h (0 * (2 ^ k - 1)) (omega (arith, two_power k)))

-- A word with every digit marked.
abbrev pub full : Action → ℕ
full action = mark_of action * (2 ^ 32 - 1)

pub power_sum : (a b : ℕ) → 2 ^ a * 2 ^ b ≡ 2 ^ (a + b)
power_sum zero b = let same : b ≡ 0 + b = omega arith in omega (arith, ap (λ (t : ℕ). 2 ^ t) same)
power_sum (suc a) b =
    ap (λ (t : ℕ). t * 2 ^ b) (pow-succ' 2 a)
    ∙ omega (arith, power_sum a b)
    ∙ sym (pow-succ' 2 (a + b))
    ∙ ap (λ (t : ℕ). 2 ^ t) (omega arith)

pub powers : (a b : ℕ) → a + b ≡ 32 → 2 ^ a * 2 ^ b ≡ 2 ^ 32
powers a b e = power_sum a b ∙ ap (λ (t : ℕ). 2 ^ t) e

next_bit-power : (k j : ℕ) → suc (suc j) + k ≡ 32 → next_bit (2 ^ k) ≡ 2 ^ suc k
unfolding next_bit
next_bit-power k j e =
    let below : 2 ^ k ≤ 2 ^ 30 = pow-le-pow_right (omega arith) {j = 30} (omega arith) in
    ground (arith, pow-succ' 2 k, two_power k, below)

upto-full :
    (action : Action) (j k : ℕ)
    → j + k ≡ 32
    → upto action k (mark_of action * (2 ^ j - 1)) ≡ full action
upto-full set_bits j k e =
    let split : (2 ^ j - 1 + 1) * 2 ^ k ≡ 2 ^ j * 2 ^ k =
      ap (λ (t : ℕ). t * 2 ^ k) (omega (arith, two_power j)) in
    omega (arith, powers j k e, two_power k, split)
upto-full clear_bits j k e = omega arith

halved :
    (action : Action) (j : ℕ) → mark_of action * (2 ^ suc j - 1) / 2 ≡ mark_of action * (2 ^ j - 1)
halved set_bits j = omega (arith, two_power j, pow-succ' 2 j)
halved clear_bits j = omega arith

-- Past the highest digit the next one is the lowest again.
wraps : (action : Action) (h : ℕ) → h < 2 → upto action 32 (h / 2) ≡ upto action 0 (full action)
wraps set_bits h q = omega arith
wraps clear_bits h q = omega arith

small : (action : Action) → mark_of action * 1 < 2
small set_bits = omega arith
small clear_bits = omega arith

stays :
    (left : ℕ) (action : Action) (j k : ℕ)
    → suc j + k ≡ 32
    → mark_word left action (2 ^ k) (upto action k (mark_of action * (2 ^ suc j - 1))) ≡ full action
unfolding mark_word next_bit
stays zero action j k e = upto-full action (suc j) k e
stays (suc left) action zero k e =
    let last : k ≡ 31 = omega arith in
    rw
      (
        touch-upto action k (mark_of action * (2 ^ suc zero - 1)),
        last,
        wraps action (mark_of action * 1) (small action),
      )
      (stays left action 31 0 refl)
stays (suc left) action (suc j) k e =
    rw
      (
        touch-upto action k (mark_of action * (2 ^ suc (suc j) - 1)),
        halved action (suc j),
        next_bit-power k j e,
      )
      (stays left action j (suc k) (omega arith))

pub fills :
    (left : ℕ) (action : Action) (j k h : ℕ)
    → suc j + k ≡ 32
    → h < 2 ^ suc j
    → suc j ≤ left
    → mark_word left action (2 ^ k) (upto action k h) ≡ full action
unfolding mark_word next_bit
fills zero action j k h e q l = absurd (omega arith)
fills (suc left) action zero k h e q l =
    let last : k ≡ 31 = omega arith in
    rw (touch-upto action k h, last, wraps action h q) (stays left action 31 0 refl)
fills (suc left) action (suc j) k h e q l =
    rw (touch-upto action k h, next_bit-power k j e)
      (fills left action j (suc k) (h / 2) (omega arith) (omega (arith, pow-succ' 2 (suc j)))
        (omega arith))
