-- ===== src/Ps2/Counts.antt =====
-- How many answers of the controller each routine of drivers/ps2_controller.cpp waits for.
use best_kernel.Base.{
  ℕ, ◌+◌, ◌-◌, ◌*◌, ◌^◌, ◌≤◌, ◌<◌, ◌≡◌, refl, ap, arith, bit_and, ◌==◌, ◌!=◌, if◌then◌else◌, Option,
  some, none, List, [], ◌∷◌, Bool, true, false, u32,
}
use best_kernel.Ps2.{
  Controller, Routine, ◌>>=◌, ◌>>◌, return, when, keyboard, mouse, outb, shutdown, wait, take_byte,
  ps2_in, ps2_flush_obf, ps2_read_conf, ps2_probe_device, ps2_disable_device, create_at,
  create_device, ps2_create_device_structures, probe_and_reset, ps2ctrl_init, ps2_enable_device,
  ps2_select_device, ps2_reset_device,
}

-- The reads of 0x64 that find a byte ready.
abbrev pub ready : List ℕ → ℕ
ready [] = 0
ready (s ∷ rest) = if bit_and s 1 == 0 then ready rest else 1 + ready rest

-- A run of the routine that ends has seen `n` of them at least.
abbrev pub Uses : {A : Type 0} → ℕ → Routine A → Type 0
Uses {A} n m =
    (c : Controller) (a : A) (c' : Controller)
    → m c ≡ some (a, c')
    → ready c'.status + n ≤ ready c.status

Uses-bind :
    {A : Type 0} {B : Type 0} (n k : ℕ) (m : Routine A) (f : A → Routine B)
    → Uses n m
    → ((a : A) → Uses k (f a))
    → Uses (n + k) (m >>= f)
Uses-bind {A = A} n k m f p q c b c' e =
    let Goal : Option (A × Controller) → Type 0 = λ r.
      m c ≡ r
      → (elim r [ none ↦ none | some (a, c1) ↦ f a c1 ]) ≡ some (b, c')
      → ready c'.status + (n + k) ≤ ready c.status in
    elim (m c) as Goal [
      | none ↦ λ r h. absurd (ground (arith, h))
      | some (a, c1) ↦ λ r h. omega (arith, p c a c1 r, q a c1 b c' h)
    ]
      refl e

Uses-then :
    {B : Type 0} (n k : ℕ) (m : Routine (Unit {0})) (f : Routine B)
    → Uses n m
    → Uses k f
    → Uses (n + k) (m >> f)
Uses-then n k m f p q = Uses-bind n k m (λ u. f) p (λ u. q)

Uses-less : {A : Type 0} (n k : ℕ) (m : Routine A) → k ≤ n → Uses n m → Uses k m
Uses-less n k m l p c a c' e = omega (arith, p c a c' e)

Uses-return : {A : Type 0} (a : A) → Uses 0 (return a)
Uses-return a c b c' e = ground arith

Uses-when : (test : Bool) (m : Routine (Unit {0})) → Uses 0 m → Uses 0 (when test m)
Uses-when true m p c a c' e = p c a c' e
Uses-when false m p c a c' e = ground arith

Uses-outb : (value port : ℕ) → Uses 0 (outb value port)
unfolding outb
Uses-outb value port c a c' e = ground arith

wait-ready : (status rest : List ℕ) → wait status ≡ some rest → ready rest + 1 ≡ ready status
unfolding wait
wait-ready [] rest e = ground arith
wait-ready (s ∷ left) rest e = ground (arith, wait-ready left rest)

taken :
    (bytes : List ℕ) (c : Controller) (a : ℕ) (c' : Controller)
    → take_byte bytes c ≡ some (a, c')
    → c'.status ≡ c.status
unfolding take_byte
taken [] c a c' e = ground arith
taken (b ∷ rest) c a c' e = ground arith

Uses-in : Uses 1 ps2_in
unfolding ps2_in
Uses-in c a c' e =
    let Goal : Option (List ℕ) → Type 0 = λ r.
      wait c.status ≡ r
      → (elim r [ none ↦ none | some rest ↦ take_byte c.data_bytes (record c { status = rest }) ])
        ≡ some (a, c')
      → ready c'.status + 1 ≤ ready c.status in
    elim (wait c.status) as Goal [
      | none ↦ λ r h. absurd (ground (arith, h))
      | some rest ↦ λ r h. omega (
        arith,
        wait-ready c.status rest r,
        ap ready (taken c.data_bytes (record c { status = rest }) a c' h),
      )
    ]
      refl e

Uses-flush : Uses 1 ps2_flush_obf
unfolding ps2_flush_obf
Uses-flush = Uses-bind 1 0 ps2_in (λ b. return tt) Uses-in (λ b. Uses-return tt)

Uses-read_conf : Uses 2 ps2_read_conf
unfolding ps2_read_conf
Uses-read_conf =
    Uses-then 0 2 (outb 0x20 0x64) (ps2_flush_obf >> ps2_in) (Uses-outb 0x20 0x64)
      (Uses-then 1 1 ps2_flush_obf ps2_in Uses-flush Uses-in)

Uses-probe : (dev : ℕ) → Uses 2 (ps2_probe_device dev)
unfolding ps2_probe_device
Uses-probe dev =
    Uses-bind 2 0 ps2_read_conf (λ conf. return (bit_and conf (u32 (16 * 2 ^ dev)))) Uses-read_conf
      (λ conf. Uses-return (bit_and conf (u32 (16 * 2 ^ dev))))

Uses-disable : (dev : ℕ) → Uses 1 (ps2_disable_device dev)
unfolding ps2_disable_device
Uses-disable dev =
    Uses-then 0 1 (outb (0xAD - dev * 13) 0) ps2_flush_obf (Uses-outb (0xAD - dev * 13) 0)
      Uses-flush

Uses-enable : (dev : ℕ) → Uses 1 (ps2_enable_device dev)
unfolding ps2_enable_device
Uses-enable dev =
    Uses-then 0 1 (outb (0xAE - dev * 13) 0) ps2_flush_obf (Uses-outb (0xAE - dev * 13) 0)
      Uses-flush

Uses-select : (dev : ℕ) → Uses 2 (ps2_select_device dev)
unfolding ps2_select_device
Uses-select dev =
    let other : ℕ = if dev == 0 then 1 else 0 in
    Uses-then 1 1 (ps2_disable_device other) (ps2_enable_device dev) (Uses-disable other)
      (Uses-enable dev)

Uses-shutdown : Uses 0 shutdown
unfolding shutdown
Uses-shutdown c a c' e = ground arith

Uses-reset : (dev : ℕ) → Uses 4 (ps2_reset_device dev)
unfolding ps2_reset_device
Uses-reset dev =
    let check : ℕ → Routine (Unit {0}) = λ answer. when (answer != 0xAA) shutdown in
    let answers : Routine (Unit {0}) = ps2_in >>= check in
    let flushes : Routine (Unit {0}) = ps2_flush_obf >> answers in
    let sends : Routine (Unit {0}) = outb 0xFF 0x64 >> flushes in
    Uses-then 2 2 (ps2_select_device dev) sends (Uses-select dev) (
      Uses-then 0 2 (outb 0xFF 0x64) flushes (Uses-outb 0xFF 0x64) (
        Uses-then 1 1 ps2_flush_obf answers Uses-flush (
          Uses-bind 1 0 ps2_in check Uses-in
            (λ answer. Uses-when (answer != 0xAA) shutdown Uses-shutdown))))

-- A probe, and what is done where it finds the device.
Uses-found :
    (dev : ℕ) (m : Routine (Unit {0}))
    → Uses 0 m
    → Uses 2 (ps2_probe_device dev >>= λ found. when (found != 0) m)
Uses-found dev m p =
    Uses-bind 2 0 (ps2_probe_device dev) (λ found. when (found != 0) m) (Uses-probe dev)
      (λ found. Uses-when (found != 0) m p)

Uses-create : (dev : ℕ) → Uses 0 (create_device dev)
unfolding create_device
Uses-create dev c a c' e = ground arith

Uses-create_at : (dev : ℕ) → Uses 2 (create_at dev)
unfolding create_at
Uses-create_at dev = Uses-found dev (create_device dev) (Uses-create dev)

Uses-probe_and_reset : (dev : ℕ) → Uses 2 (probe_and_reset dev)
unfolding probe_and_reset
Uses-probe_and_reset dev =
    Uses-found dev (ps2_reset_device dev)
      (Uses-less 4 0 (ps2_reset_device dev) (omega arith) (Uses-reset dev))

Uses-structures : Uses 4 ps2_create_device_structures
unfolding ps2_create_device_structures
Uses-structures = Uses-then 2 2 (create_at 0) (create_at 1) (Uses-create_at 0) (Uses-create_at 1)

Uses-init : Uses 11 ps2ctrl_init
unfolding ps2ctrl_init
Uses-init =
    let last : Routine (Unit {0}) = probe_and_reset mouse >> ps2_create_device_structures in
    let probes : Routine (Unit {0}) = probe_and_reset keyboard >> last in
    let flushes : Routine (Unit {0}) = ps2_flush_obf >> probes in
    let second : Routine (Unit {0}) = ps2_disable_device mouse >> flushes in
    Uses-then 1 10 (ps2_disable_device keyboard) second (Uses-disable keyboard) (
      Uses-then 1 9 (ps2_disable_device mouse) flushes (Uses-disable mouse) (
        Uses-then 1 8 ps2_flush_obf probes Uses-flush (
          Uses-then 2 6 (probe_and_reset keyboard) last (Uses-probe_and_reset keyboard) (
            Uses-then 2 4 (probe_and_reset mouse) ps2_create_device_structures
              (Uses-probe_and_reset mouse) Uses-structures))))

-- Where the controller has a byte ready at fewer than eleven reads of its status, ps2ctrl_init does
-- not return: it waits for ever.
ps2ctrl_init_waits : (c : Controller) → ready c.status < 11 → ps2ctrl_init c ≡ none
ps2ctrl_init_waits c l =
    let Goal : Option (Unit {0} × Controller) → Type 0 = λ r. ps2ctrl_init c ≡ r → r ≡ none in
    elim (ps2ctrl_init c) as Goal [
      | none ↦ λ r. refl
      | some (a, c') ↦ λ r. absurd (omega (arith, Uses-init c a c' r))
    ]
      refl
