-- ===== src/Tasks/Signals.antt =====
-- Which signals reach a thread, and what they do.
use native.Mathlib.Nat.{pow-suc, pow-le-pow_right, one-le-pow}
use native.Mathlib.Numerals.{add-one}
use best_kernel.Base.{
  ℕ, zero, suc, ◌+◌, ◌-◌, ◌*◌, ◌/◌, ◌%◌, ◌^◌, ◌≤◌, ◌<◌, ◌≡◌, refl, ◌≢◌, arith, bit_and, ◌==◌, ◌!=◌,
  if◌then◌else◌, List, [], ◌∷◌, get_or, set, length, length-set, get_or-set_self, get_or-set_ne,
  ltb, ◌∙◌, ap, ◌&&◌, leb, ◌⊎◌, inl, inr, bit, u32,
}
use best_kernel.Base.Bits.{and_single, or-zero}
use best_kernel.Tasks.{
  Thread, runs, rescheduled, gone, handles, enters, signal_handler, check_from, check_signals,
  continue_with, deliver, fill_overrides, shift_overrides, signal_handler_return,
}

digit_test : (d p : ℕ) → d < 2 → 1 ≤ p → (d * p != 0) ≡ (d == 1)
digit_test zero p h q = ground arith
digit_test (suc zero) p h q = ground arith
digit_test (suc (suc d)) p h q = absurd (omega arith)

-- The test `x & (1 << k)` is one of the digit.
pub test_digit : (x k : ℕ) → (bit_and x (2 ^ k) != 0) ≡ (bit x k == 1)
test_digit x k =
    rw (and_single k x)
      (digit_test (x / 2 ^ k % 2) (2 ^ k) (omega arith) (one-le-pow k 2 (omega arith)))

-- Neither SIGKILL, SIGSTOP nor SIGCONT.
abbrev pub Ordinary : ℕ → Type 0
Ordinary k = (k ≢ 0) × (k ≢ 2) × (k ≢ 3)

-- Signal `k` is not pending, or is an ordinary one that is masked or has no handler.
abbrev pub Ignored : Thread → ℕ → Type 0
Ignored t k =
    (bit t.sigset k ≡ 0) ⊎ (Ordinary k × ((bit t.sigmask k ≡ 1) ⊎ (get_or t.sighandlers k 0 ≡ 0)))

next_power : (i : ℕ) → i < 31 → u32 (2 ^ i * 2) ≡ 2 ^ (i + 1)
next_power i h = omega (
  arith,
  pow-suc 2 i,
  ap (λ (t : ℕ). 2 ^ t) (add-one i),
  pow-le-pow_right {n = 2} (omega arith) {i = i} {j = 30} (omega arith),
)

skip_one :
    (left i : ℕ) (t : Thread)
    → i < 31
    → Ignored t i
    → check_from (suc left) i (2 ^ i) t ≡ check_from left (i + 1) (2 ^ (i + 1)) t
unfolding check_from deliver
skip_one left i t h ignored =
    rw (next_power i h, test_digit t.sigset i) (ground (arith, test_digit t.sigmask i))

skip :
    (n left i total : ℕ) (t : Thread)
    → total ≡ n + left
    → i + total ≤ 31
    → ((k : ℕ) → i ≤ k → k < i + n → Ignored t k)
    → check_from total i (2 ^ i) t ≡ check_from left (i + n) (2 ^ (i + n)) t
skip zero left i total t e room all =
    let there : total ≡ left = omega arith in
    let start : i + 0 ≡ i = omega arith in rw (start, there)
skip (suc n) left i zero t e room all = absurd (omega arith)
skip (suc n) left i (suc total) t e room all =
    let next : i + 1 + n ≡ i + suc n = omega arith in
    skip_one total i t (omega arith) (all i (omega arith) (omega arith))
    ∙ rw (← next) (
        skip n left (i + 1) total t (omega arith) (omega arith)
          (λ k p q. all k (omega arith) (omega arith)))

-- A thread all of whose signals (numbers 0 to 13) are ignored runs on, unchanged.
pub check_signals_idle : (t : Thread) → ((k : ℕ) → k < 14 → Ignored t k) → check_signals t ≡ runs t
unfolding check_signals check_from
check_signals_idle t all = skip 14 0 0 14 t refl (omega arith) (λ k p q. all k q)

deliver_lem :
    (t : Thread) (k handler : ℕ)
    → Ordinary k
    → bit t.sigmask k ≡ 0
    → get_or t.sighandlers k 0 ≡ handler
    → handler ≢ 0
    → signal_handler k (2 ^ k) t
      ≡ enters (record t {
        state = record (t.state) { instruction_pointer = handler; accumulator = t.sys_retval };
      })
unfolding signal_handler deliver
deliver_lem t k handler ord unmasked at live =
    ground (arith, test_digit t.sigmask k, or-zero t.sigset)

-- The lowest signal that is not ignored is the one that is delivered: if signal `k` below 14 is
-- pending, unmasked, an ordinary one and has a handler, and all signals below it are ignored, then
-- the thread goes to that handler with the return value of its last system call in the accumulator,
-- and nothing else of it changes.
pub check_signals_delivers :
    (t : Thread) (k handler : ℕ)
    → k < 14
    → ((j : ℕ) → j < k → Ignored t j)
    → Ordinary k
    → bit t.sigset k ≡ 1
    → bit t.sigmask k ≡ 0
    → get_or t.sighandlers k 0 ≡ handler
    → handler ≢ 0
    → check_signals t
      ≡ handles (record t {
        state = record (t.state) { instruction_pointer = handler; accumulator = t.sys_retval };
      })
unfolding check_signals
check_signals_delivers t k handler h below ord pending unmasked at live =
    skip k (suc (13 - k)) 0 14 t (omega arith) (omega arith) (λ j p q. below j (omega arith)) ∙ last
  where
    start : 0 + k ≡ k
    start = omega arith

    last :
        check_from (suc (13 - k)) (0 + k) (2 ^ (0 + k)) t
        ≡ handles (record t {
          state = record (t.state) { instruction_pointer = handler; accumulator = t.sys_retval };
        })
    last = rw start (
        unfold check_from in
        rw (test_digit t.sigset k, pending) (rw (deliver_lem t k handler ord unmasked at live)))

pending_step :
    (left i : ℕ) (t : Thread)
    → bit t.sigset i ≡ 1
    → check_from (suc left) i (2 ^ i) t
      ≡ continue_with (check_from left (i + 1) (u32 (2 ^ i * 2))) (signal_handler i (2 ^ i) t)
unfolding check_from
pending_step left i t h = rw (test_digit t.sigset i, h)

-- SIGKILL (number 0) ends the thread if it is pending, and SIGSTOP (number 2) puts it off if it is
-- pending and the signals 0 and 1 are not, whatever the mask says.
check_signals_forced :
    (t : Thread)
    → (bit t.sigset 0 ≡ 1) ⊎ (t.sigset % 8 ≡ 4)
    → check_signals t ≡ (if bit t.sigset 0 == 1 then gone else rescheduled t)
unfolding check_signals signal_handler continue_with
check_signals_forced t (inl kill) = rw (pending_step 13 0 t kill, kill)
check_signals_forced t (inr stop) =
    skip_one 13 0 t (omega arith) (inl (omega arith))
    ∙ skip_one 12 1 t (omega arith) (inl (omega arith))
    ∙ pending_step 11 2 t (omega arith)
    ∙ ground arith

get_or-fill_overrides :
    (insert : ℕ) (codes : List ℕ) (i : ℕ)
    → i < length codes
    → get_or (fill_overrides insert codes) i 0
      ≡ (if get_or codes i 0 == 0 then insert else get_or codes i 0)
unfolding fill_overrides
get_or-fill_overrides insert [] i h = elim h [ ]
get_or-fill_overrides insert (x ∷ xs) zero h = refl
get_or-fill_overrides insert (x ∷ xs) (suc i) h = get_or-fill_overrides insert xs i (omega arith)

get_or-shift_overrides :
    (left i : ℕ) (codes : List ℕ) (j : ℕ)
    → i + left < length codes
    → get_or (shift_overrides left i codes) j 0
      ≡ (if leb i j && ltb j (i + left) then get_or codes (j + 1) 0 else get_or codes j 0)
unfolding shift_overrides
get_or-shift_overrides zero i codes j h = ground arith
get_or-shift_overrides (suc left) i codes j h = ground (
  arith,
  length-set codes i (get_or codes (i + 1) 0),
  get_or-shift_overrides left (i + 1) (set codes i (get_or codes (i + 1) 0)) j,
  get_or-set_self codes i (get_or codes (i + 1) 0) 0,
  get_or-set_ne codes i j (get_or codes (i + 1) 0) 0,
  get_or-set_ne codes i (j + 1) (get_or codes (i + 1) 0) 0,
)

-- Where a thread has its 16 overrides, signal_handler_return drops the first, moves the others one
-- place down, and leaves the last one in place twice.
pub signal_handler_return_shifts :
    (t : Thread) (j : ℕ)
    → length (t.state.instruction_override) ≡ 16
    → get_or (signal_handler_return t).state.instruction_override j 0
      ≡ get_or t.state.instruction_override (if ltb j 15 then j + 1 else j) 0
unfolding signal_handler_return
signal_handler_return_shifts t j h =
    ground (arith, get_or-shift_overrides 15 0 t.state.instruction_override j)
