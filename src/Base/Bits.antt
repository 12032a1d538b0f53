-- ===== src/Base/Bits.antt =====
-- `|`, `&` and `^` at variables. The native operations recur on binary digits with fuel; here
-- each gets an equation for its lowest digit, and from that the masks that the sources use.
use Prim.Native.Nat.{
  ℕ, zero, suc, ◌+◌, ◌-◌, ◌*◌, ◌/◌, ◌%◌, ◌^◌, ◌≤◌, ◌<◌, min, max, digits, differ, bit_and, bit_or,
  bit_xor, bit_and-bitwise, bit_or-bitwise, bit_xor-bitwise,
}
use mathlib.Core.Path.{◌≡◌, refl, ap, ◌∙◌, sym}
use native.Mathlib.Nat.{pow-succ', div-add-mod', one-le-pow, div-div-eq-div-mul, div-one}
use native.Mathlib.Omega.{arith}

-- Fuel beyond the number's own value changes nothing.
module _ (z : ℕ → ℕ) (f : ℕ → ℕ → ℕ) where
  enough : (n m a b : ℕ) → a ≤ n → a ≤ m → digits z f n a b ≡ digits z f m a b
  enough zero zero a b p q = refl
  enough (suc n) zero zero b p q = refl
  enough (suc n) zero (suc a) b p q = elim q [ ]
  enough zero (suc m) zero b p q = refl
  enough zero (suc m) (suc a) b p q = elim p [ ]
  enough (suc n) (suc m) zero b p q = refl
  enough (suc n) (suc m) (suc a) b p q =
      ap (λ (t : ℕ). t * 2 + f (suc a % 2) (b % 2))
        (enough n m (suc a / 2) (b / 2) (omega arith) (omega arith))

pub or_step : (a b : ℕ) → bit_or a b ≡ bit_or (a / 2) (b / 2) * 2 + max (a % 2) (b % 2)
or_step zero b = omega (arith, bit_or-bitwise 0 b, bit_or-bitwise 0 (b / 2))
or_step (suc a) b = omega (
  arith,
  bit_or-bitwise (suc a) b,
  bit_or-bitwise (suc a / 2) (b / 2),
  enough (λ y. y) max a (suc a / 2) (suc a / 2) (b / 2) (omega arith) (omega arith),
)

pub and_step : (a b : ℕ) → bit_and a b ≡ bit_and (a / 2) (b / 2) * 2 + min (a % 2) (b % 2)
and_step zero b = omega (arith, bit_and-bitwise 0 b, bit_and-bitwise 0 (b / 2))
and_step (suc a) b = omega (
  arith,
  bit_and-bitwise (suc a) b,
  bit_and-bitwise (suc a / 2) (b / 2),
  enough (λ y. 0) min a (suc a / 2) (suc a / 2) (b / 2) (omega arith) (omega arith),
)

pub xor_step : (a b : ℕ) → bit_xor a b ≡ bit_xor (a / 2) (b / 2) * 2 + differ (a % 2) (b % 2)
xor_step zero b = omega (arith, bit_xor-bitwise 0 b, bit_xor-bitwise 0 (b / 2))
xor_step (suc a) b = omega (
  arith,
  bit_xor-bitwise (suc a) b,
  bit_xor-bitwise (suc a / 2) (b / 2),
  enough (λ y. y) differ a (suc a / 2) (suc a / 2) (b / 2) (omega arith) (omega arith),
)

or-zero_upto : (n a : ℕ) → a ≤ n → bit_or a 0 ≡ a
or-zero_upto n zero h = refl
or-zero_upto zero (suc a) h = elim h [ ]
or-zero_upto (suc n) (suc a) h =
    omega (arith, or_step (suc a) 0, or-zero_upto n (suc a / 2) (omega arith))

pub or-zero : (a : ℕ) → bit_or a 0 ≡ a
or-zero a = or-zero_upto a a (omega arith)

and-zero_upto : (n a : ℕ) → a ≤ n → bit_and a 0 ≡ 0
and-zero_upto n zero h = refl
and-zero_upto zero (suc a) h = elim h [ ]
and-zero_upto (suc n) (suc a) h =
    omega (arith, and_step (suc a) 0, and-zero_upto n (suc a / 2) (omega arith))

pub and-zero : (a : ℕ) → bit_and a 0 ≡ 0
and-zero a = and-zero_upto a a (omega arith)

differ-zero : (x : ℕ) → differ x 0 ≡ x
differ-zero zero = refl
differ-zero (suc x) = refl

xor-zero_upto : (n a : ℕ) → a ≤ n → bit_xor a 0 ≡ a
xor-zero_upto n zero h = refl
xor-zero_upto zero (suc a) h = elim h [ ]
xor-zero_upto (suc n) (suc a) h =
    ground (
      arith,
      differ-zero (suc a % 2),
      xor_step (suc a) 0,
      xor-zero_upto n (suc a / 2) (omega arith),
    )

pub xor-zero : (a : ℕ) → bit_xor a 0 ≡ a
xor-zero a = xor-zero_upto a a (omega arith)

doubled : (q k : ℕ) → q * 2 ^ suc k ≡ 2 * (q * 2 ^ k)
doubled q k = omega (arith, ap (λ (t : ℕ). q * t) (pow-succ' 2 k))

or_multiple : (k q r : ℕ) → r < 2 ^ k → bit_or (q * 2 ^ k) r ≡ q * 2 ^ k + r
or_multiple zero q r h = ground (arith, or-zero q)
or_multiple (suc k) q r h = ground (
  arith,
  or_step (q * 2 ^ suc k) r,
  doubled q k,
  pow-succ' 2 k,
  or_multiple k q (r / 2) (omega (arith, pow-succ' 2 k)),
)

-- `|` of a value with `k` clear low bits and a value of `k` bits is their sum.
pub or_disjoint : (k a r : ℕ) → a % 2 ^ k ≡ 0 → r < 2 ^ k → bit_or a r ≡ a + r
or_disjoint k a r e h =
    let split : a / 2 ^ k * 2 ^ k ≡ a = omega (arith, div-add-mod' a (2 ^ k)) in
    ap (λ (t : ℕ). bit_or t r) (sym split)
    ∙ or_multiple k (a / 2 ^ k) r h
    ∙ ap (λ (t : ℕ). t + r) split

and_low : (k q r : ℕ) → r < 2 ^ k → bit_and (q * 2 ^ k + r) (2 ^ k - 1) ≡ r
and_low zero q r h = ground (arith, and-zero (q * 1 + r))
and_low (suc k) q r h = ground (
  arith,
  and_step (q * 2 ^ suc k + r) (2 ^ suc k - 1),
  doubled q k,
  pow-succ' 2 k,
  one-le-pow k 2,
  and_low k q (r / 2) (omega (arith, pow-succ' 2 k)),
)

-- `x & (2 ^ k - 1)` keeps the `k` low bits.
pub and_mask : (k a : ℕ) → bit_and a (2 ^ k - 1) ≡ a % 2 ^ k
and_mask k a = ground (
  arith,
  one-le-pow k 2,
  div-add-mod' a (2 ^ k),
  and_low k (a / 2 ^ k) (a % 2 ^ k) (omega (arith, one-le-pow k 2)),
)

halves : (a k : ℕ) → a / 2 ^ suc k ≡ a / 2 / 2 ^ k
halves a k = ap (λ (t : ℕ). a / t) (pow-succ' 2 k) ∙ sym (div-div-eq-div-mul a 2 (2 ^ k))

-- `x & (1 << k)` is the digit of that weight.
pub and_single : (k a : ℕ) → bit_and a (2 ^ k) ≡ a / 2 ^ k % 2 * 2 ^ k
and_single zero a = omega (arith, and_step a 1, and-zero (a / 2))
and_single (suc k) a = ground (
  arith,
  and_step a (2 ^ suc k),
  pow-succ' 2 k,
  halves a k,
  ap (λ (t : ℕ). a / 2 ^ suc k % 2 * t) (pow-succ' 2 k),
  and_single k (a / 2),
)

-- `x | (1 << k)` sets that digit.
pub or_single : (k a : ℕ) → bit_or a (2 ^ k) ≡ a + (1 - a / 2 ^ k % 2) * 2 ^ k
or_single zero a = omega (arith, or_step a 1, or-zero (a / 2))
or_single (suc k) a = ground (
  arith,
  or_step a (2 ^ suc k),
  pow-succ' 2 k,
  halves a k,
  ap (λ (t : ℕ). (1 - a / 2 ^ suc k % 2) * t) (pow-succ' 2 k),
  or_single k (a / 2),
)

differ-bit_zero : (x : ℕ) → differ (x % 2) 1 ≡ 1 - x % 2
differ-bit_zero x = go (x % 2) (omega arith)
  where
    go : (d : ℕ) → d < 2 → differ d 1 ≡ 1 - d
    go zero h = refl
    go (suc zero) h = refl
    go (suc (suc d)) h = absurd (omega arith)

-- `x ^ (1 << k)` flips it.
pub xor_single : (k a : ℕ) → bit_xor a (2 ^ k) + a / 2 ^ k % 2 * 2 ^ k * 2 ≡ a + 2 ^ k
xor_single zero a = omega (arith, xor_step a 1, xor-zero (a / 2), differ-bit_zero a)
xor_single (suc k) a = ground (
  arith,
  xor_step a (2 ^ suc k),
  differ-zero (a % 2),
  pow-succ' 2 k,
  halves a k,
  ap (λ (t : ℕ). a / 2 ^ suc k % 2 * t) (pow-succ' 2 k),
  xor_single k (a / 2),
)

-- The digits above weight `2 ^ k`.
pub or_div : (k a b : ℕ) → bit_or a b / 2 ^ k ≡ bit_or (a / 2 ^ k) (b / 2 ^ k)
or_div zero a b = simp div-one
or_div (suc k) a b =
    rw (halves a k, halves b k, halves (bit_or a b) k)
      (ap (λ (t : ℕ). t / 2 ^ k) (omega (arith, or_step a b)) ∙ or_div k (a / 2) (b / 2))

differ-lt_two : (x y : ℕ) → x < 2 → y < 2 → differ x y < 2
differ-lt_two zero y p q = q
differ-lt_two (suc x) zero p q = p
differ-lt_two (suc x) (suc y) p q = differ-lt_two x y (omega arith) (omega arith)

pub xor_div : (k a b : ℕ) → bit_xor a b / 2 ^ k ≡ bit_xor (a / 2 ^ k) (b / 2 ^ k)
xor_div zero a b = simp div-one
xor_div (suc k) a b =
    rw (halves a k, halves b k, halves (bit_xor a b) k)
      (ap (λ (t : ℕ). t / 2 ^ k)
          (omega (arith, xor_step a b, differ-lt_two (a % 2) (b % 2) (omega arith) (omega arith)))
        ∙ xor_div k (a / 2) (b / 2))

or_comm_upto : (n a b : ℕ) → a ≤ n → b ≤ n → bit_or a b ≡ bit_or b a
or_comm_upto zero a b p q =
    let e : a ≡ 0 = omega arith in let f : b ≡ 0 = omega arith in rw (e, f) refl
or_comm_upto (suc n) a b p q =
    omega
      (arith, or_step a b, or_step b a, or_comm_upto n (a / 2) (b / 2) (omega arith) (omega arith))

pub or_comm : (a b : ℕ) → bit_or a b ≡ bit_or b a
or_comm a b = or_comm_upto (a + b) a b (omega arith) (omega arith)

pub or_disjoint_low : (k a r : ℕ) → a < 2 ^ k → r % 2 ^ k ≡ 0 → bit_or a r ≡ r + a
or_disjoint_low k a r h e = or_comm a r ∙ or_disjoint k r a e h

or_assoc_upto :
    (n a b c : ℕ) → a ≤ n → b ≤ n → c ≤ n → bit_or (bit_or a b) c ≡ bit_or a (bit_or b c)
or_assoc_upto zero a b c p q r =
    let e : a ≡ 0 = omega arith in
    let f : b ≡ 0 = omega arith in let g : c ≡ 0 = omega arith in rw (e, f, g) refl
or_assoc_upto (suc n) a b c p q r =
    let lower : bit_or a b / 2 ≡ bit_or (a / 2) (b / 2) = omega (arith, or_step a b) in
    let upper : bit_or b c / 2 ≡ bit_or (b / 2) (c / 2) = omega (arith, or_step b c) in
    let left : bit_or (bit_or a b / 2) (c / 2) ≡ bit_or (bit_or (a / 2) (b / 2)) (c / 2) =
      ap (λ (t : ℕ). bit_or t (c / 2)) lower in
    let right : bit_or (a / 2) (bit_or b c / 2) ≡ bit_or (a / 2) (bit_or (b / 2) (c / 2)) =
      ap (λ (t : ℕ). bit_or (a / 2) t) upper in
    omega (
      arith,
      or_step (bit_or a b) c,
      or_step a (bit_or b c),
      or_step a b,
      or_step b c,
      left,
      right,
      or_assoc_upto n (a / 2) (b / 2) (c / 2) (omega arith) (omega arith) (omega arith),
    )

pub or_assoc : (a b c : ℕ) → bit_or (bit_or a b) c ≡ bit_or a (bit_or b c)
or_assoc a b c = or_assoc_upto (a + b + c) a b c (omega arith) (omega arith) (omega arith)
