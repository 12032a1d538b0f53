-- ===== src/Ps2/Init.antt =====
-- What the routines of drivers/ps2_controller.cpp do where the controller answers.
use best_kernel.Base.{
  ℕ, ◌+◌, ◌*◌, ◌^◌, ◌≡◌, ◌≢◌, ap, ◌∙◌, arith, bit_and, ◌==◌, ◌!=◌, if◌then◌else◌, some, none, List,
  [], ◌∷◌, Bool, true, false, u8, u32,
}
use best_kernel.Ps2.{
  Controller, Routine, ◌>>=◌, ◌>>◌, when, mouse, outb, wait, take_byte, ps2_in, ps2_flush_obf,
  ps2_read_conf, ps2_probe_device, ps2_disable_device, create_at, create_device, set_line,
  ps2_create_device_structures, probe_and_reset, ps2ctrl_init, ps2_reset_device,
}

-- A controller that has a byte ready at the next reads, and these bytes.
abbrev pub answering : List ℕ → List ℕ → Controller → Controller
answering status bytes c = record c { status = status; data_bytes = bytes }

-- The controller once the configuration has been asked for.
abbrev pub probed : List ℕ → List ℕ → Controller → Controller
probed status bytes c = answering status bytes (record c { written = (0x20, 0x64) ∷ c.written })

module _ (dev : ℕ) (m : Routine (Unit {0})) (status bytes : List ℕ) (first conf : ℕ)
    (c : Controller) where
  -- A probe, and what is done where it finds the device.
  found_lem :
      (test : Bool)
      → (bit_and (u8 conf) (u32 (16 * 2 ^ dev)) != 0) ≡ test
      → (ps2_probe_device dev >>= λ found. when (found != 0) m)
          (answering (1 ∷ 1 ∷ status) (first ∷ conf ∷ bytes) c)
        ≡ when test m (probed status bytes c)
  unfolding ps2_probe_device ps2_read_conf outb ps2_flush_obf ps2_in wait take_byte
  found_lem test e = ap (λ (t : Bool). when t m (probed status bytes c)) e

-- Each device that the probe finds gets line 1, the keyboard too, and is put one slot past the end:
-- where both configurations that are read tell of their device, ps2_create_device_structures
-- returns, the directory is longer by two, and of its slots only the second and the third from the old end are
-- written.
ps2_create_device_structures_lem :
    (c : Controller) (status bytes : List ℕ) (first conf second conf' : ℕ)
    → bit_and (u8 conf) 16 ≢ 0
    → bit_and (u8 conf') 32 ≢ 0
    → ps2_create_device_structures
        (answering (1 ∷ 1 ∷ 1 ∷ 1 ∷ status) (first ∷ conf ∷ second ∷ conf' ∷ bytes) c)
      ≡ some (
        tt,
        record (answering status bytes c) {
          written = (0x20, 0x64) ∷ (0x20, 0x64) ∷ c.written;
          length = c.length + 1 + 1;
          lines = λ i.
              if i == c.length + 1 + 1
              then some 1
              else if i == c.length + 1
              then some 1
              else c.lines i;
        },
      )
unfolding ps2_create_device_structures create_at create_device set_line
ps2_create_device_structures_lem c status bytes first conf second conf' p q =
    let rest : Controller = record (probed (1 ∷ 1 ∷ status) (second ∷ conf' ∷ bytes) c) {
      length = c.length + 1;
      lines = λ i. if i == c.length + 1 then some 1 else c.lines i;
    } in
    ap (λ r. elim r [ none ↦ none | some (u, c') ↦ create_at 1 c' ])
      (found_lem 0 (create_device 0) (1 ∷ 1 ∷ status) (second ∷ conf' ∷ bytes) first conf c true
        (ground arith))
    ∙ found_lem 1 (create_device 1) status bytes second conf' rest true (ground arith)

-- Where no device is there (the two digits of the configuration are clear), eleven
-- bytes are enough: ps2ctrl_init returns, and has sent four requests for the configuration to port
-- 0x64 and the two commands that disable the devices, 0xAD and 0xA0, to port 0.
ps2ctrl_init_idle :
    (c : Controller) (a b d e g h k l m n o : ℕ)
    → bit_and (u8 e) 16 ≡ 0
    → bit_and (u8 h) 32 ≡ 0
    → bit_and (u8 l) 16 ≡ 0
    → bit_and (u8 n) 32 ≡ 0
    → ps2ctrl_init (
        answering
          (1 ∷ 1 ∷ 1 ∷ 1 ∷ 1 ∷ 1 ∷ 1 ∷ 1 ∷ 1 ∷ 1 ∷ 1 ∷ [])
          (a ∷ b ∷ o ∷ d ∷ e ∷ g ∷ h ∷ k ∷ l ∷ m ∷ n ∷ [])
          c)
      ≡ some (
        tt,
        record (answering [] [] c) {
          written =
              (0x20, 0x64)
              ∷ (0x20, 0x64)
              ∷ (0x20, 0x64)
              ∷ (0x20, 0x64)
              ∷ (0xA0, 0)
              ∷ (0xAD, 0)
              ∷ c.written;
        },
      )
unfolding ps2ctrl_init ps2_disable_device outb ps2_flush_obf ps2_in wait take_byte probe_and_reset
    ps2_create_device_structures create_at
ps2ctrl_init_idle c a b d e g h k l m n o p q r s =
    let ones : List ℕ = 1 ∷ 1 ∷ [] in
    let log : List (ℕ × ℕ) → Controller = λ w. record c { written = w } in
    let first : List (ℕ × ℕ) = (0xA0, 0) ∷ (0xAD, 0) ∷ c.written in
    let second : List (ℕ × ℕ) = (0x20, 0x64) ∷ first in
    let third : List (ℕ × ℕ) = (0x20, 0x64) ∷ second in
    ap
      (λ z. elim z [
        | none ↦ none
        | some (u, c') ↦ (probe_and_reset mouse >> ps2_create_device_structures) c'
      ])
      (found_lem 0 (ps2_reset_device 0) (1 ∷ 1 ∷ 1 ∷ 1 ∷ ones) (g ∷ h ∷ k ∷ l ∷ m ∷ n ∷ []) d e
        (log first) false (ground arith))
    ∙ ap (λ z. elim z [ none ↦ none | some (u, c') ↦ ps2_create_device_structures c' ])
        (found_lem 1 (ps2_reset_device 1) (1 ∷ 1 ∷ ones) (k ∷ l ∷ m ∷ n ∷ []) g h (log second) false
          (ground arith))
    ∙ ap (λ z. elim z [ none ↦ none | some (u, c') ↦ create_at 1 c' ])
        (found_lem 0 (create_device 0) ones (m ∷ n ∷ []) k l (log third) false (ground arith))
    ∙ found_lem 1 (create_device 1) [] [] m n (log ((0x20, 0x64) ∷ third)) false (ground arith)
