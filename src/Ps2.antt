-- ===== src/Ps2.antt =====
-- The driver of the PS/2 controller, drivers/ps2_controller.cpp, and the drivers of the two devices
-- behind it, drivers/devices/ps2_keyboard.cpp and ps2_mouse.cpp.
--
-- The controller is what the ports answer: the values that the reads of 0x64 and of 0x60 give, in
-- their order. A read past the last value waits for ever. `written` holds the bytes that outb
-- sends, each with its port, the newest first. An argument that a call leaves out is 0, so
-- `outb(0xAD - dev*13)` writes to port 0. flush_OBF is read as ps2_flush_OBF, ps_in as ps2_in,
-- ps2_device_select and ps2_device_enable as ps2_select_device and ps2_enable_device, and the `dev`
-- of ps2_create_device_structures as its `i`. pool_alloc and pool_realloc succeed there.
pub mod Devices
pub mod Counts
pub mod Init
pub mod Packets
mod Tests
use best_kernel.Base.{
  ℕ, zero, suc, ◌+◌, ◌-◌, ◌*◌, ◌%◌, ◌^◌, bit_and, bit_or, ◌==◌, ◌!=◌, if◌then◌else◌, Option, some,
  none, List, [], ◌∷◌, u8, u32, Bool, true, false,
}

pub record Controller : Type 0 where
  pub status : List ℕ
  pub data_bytes : List ℕ
  pub written : List (ℕ × ℕ)
  pub shut_down : Bool
  pub lines : ℕ → Option ℕ
  pub length : ℕ

-- A routine ends in a value and the controller after it, or waits for ever.
abbrev pub Routine : Type 0 → Type 0
Routine A = Controller → Option (A × Controller)

infixl 5 ◌>>=◌ ◌>>◌
abbrev pub ◌>>=◌ : {A B : Type 0} → Routine A → (A → Routine B) → Routine B
◌>>=◌ m f c = elim (m c) [ none ↦ none | some (a, c') ↦ f a c' ]

abbrev pub ◌>>◌ : {B : Type 0} → Routine (Unit {0}) → Routine B → Routine B
◌>>◌ m k c = elim (m c) [ none ↦ none | some (u, c') ↦ k c' ]

abbrev pub return : {A : Type 0} → A → Routine A
return a c = some (a, c)

abbrev pub when : Bool → Routine (Unit {0}) → Routine (Unit {0})
when test m c = if test then m c else some (tt, c)

abbrev pub keyboard : ℕ
keyboard = 0

abbrev pub mouse : ℕ
mouse = 1

unfoldable pub outb : ℕ → ℕ → Routine (Unit {0})
outb value port c = some (tt, record c { written = (u8 value, port) ∷ c.written })

unfoldable pub shutdown : Routine (Unit {0})
shutdown c = some (tt, record c { shut_down = true })

-- `while !(inb(0x64) & 1)`: what is left of the reads of 0x64, or nothing.
unfoldable pub wait : List ℕ → Option (List ℕ)
wait [] = none
wait (s ∷ rest) = if bit_and s 1 == 0 then wait rest else some rest

-- `return inb(0x60)`
unfoldable pub take_byte : List ℕ → Controller → Option (ℕ × Controller)
take_byte [] c = none
take_byte (b ∷ rest) c = some (u8 b, record c { data_bytes = rest })

unfoldable pub ps2_in : Routine ℕ
unfolding wait take_byte
ps2_in c = elim (wait c.status) [
  | none ↦ none
  | some rest ↦ take_byte c.data_bytes (record c { status = rest })
]

unfoldable pub ps2_flush_obf : Routine (Unit {0})
unfolding ps2_in
ps2_flush_obf = do ignored ← ps2_in; return tt

unfoldable pub ps2_read_conf : Routine ℕ
unfolding outb ps2_flush_obf ps2_in
ps2_read_conf = do outb 0x20 0x64; ps2_flush_obf; ps2_in

unfoldable pub ps2_write_conf : ℕ → Routine (Unit {0})
unfolding outb ps2_flush_obf
ps2_write_conf nyu = do outb 0x60 0x64; outb nyu 0x60; ps2_flush_obf

unfoldable pub enable_a20 : Routine (Unit {0})
unfolding outb ps2_flush_obf ps2_in ps2_write_conf
enable_a20 = do
  outb 0xD0 0x64
  ps2_flush_obf
  conf ← ps2_in
  when (bit_and conf 2 == 0) (ps2_write_conf (bit_or conf 2))

unfoldable pub post_check : Routine (Unit {0})
unfolding ps2_read_conf shutdown
post_check = do conf ← ps2_read_conf; when (bit_and conf 4 == 0) shutdown

unfoldable pub ps2_probe_device : ℕ → Routine ℕ
unfolding ps2_read_conf
ps2_probe_device dev = do conf ← ps2_read_conf; return (bit_and conf (u32 (16 * 2 ^ dev)))

unfoldable pub ps2_disable_device : ℕ → Routine (Unit {0})
unfolding outb ps2_flush_obf
ps2_disable_device dev = do outb (0xAD - dev * 13) 0; ps2_flush_obf

unfoldable pub ps2_enable_device : ℕ → Routine (Unit {0})
unfolding outb ps2_flush_obf
ps2_enable_device dev = do outb (0xAE - dev * 13) 0; ps2_flush_obf

-- `ps2_disable_device(!dev)`
unfoldable pub ps2_select_device : ℕ → Routine (Unit {0})
unfolding ps2_disable_device ps2_enable_device
ps2_select_device dev = do ps2_disable_device (if dev == 0 then 1 else 0); ps2_enable_device dev

unfoldable pub ps2_reset_device : ℕ → Routine (Unit {0})
unfolding ps2_select_device outb ps2_flush_obf ps2_in shutdown
ps2_reset_device dev = do
  ps2_select_device dev
  outb 0xFF 0x64
  ps2_flush_obf
  answer ← ps2_in
  when (answer != 0xAA) shutdown

-- `switch (dev)`: the first case falls into the second.
unfoldable pub set_line : ℕ → ℕ → ℕ
set_line dev irline = if dev == keyboard then 1 else if dev == mouse then 1 else irline

-- The new device goes into the slot after `++devices->length`.
unfoldable pub create_device : ℕ → Routine (Unit {0})
unfolding set_line
create_device dev c = some (
  tt,
  record c {
    length = c.length + 1;
    lines = λ i. if i == c.length + 1 then some (set_line dev 0) else c.lines i;
  },
)

unfoldable pub create_at : ℕ → Routine (Unit {0})
unfolding ps2_probe_device create_device
create_at dev = do found ← ps2_probe_device dev; when (found != 0) (create_device dev)

unfoldable pub ps2_create_device_structures : Routine (Unit {0})
unfolding create_at
ps2_create_device_structures = do create_at 0; create_at 1

unfoldable pub probe_and_reset : ℕ → Routine (Unit {0})
unfolding ps2_probe_device ps2_reset_device
probe_and_reset dev = do found ← ps2_probe_device dev; when (found != 0) (ps2_reset_device dev)

unfoldable pub ps2ctrl_init : Routine (Unit {0})
unfolding ps2_disable_device ps2_flush_obf probe_and_reset ps2_create_device_structures
ps2ctrl_init = do
  ps2_disable_device keyboard
  ps2_disable_device mouse
  ps2_flush_obf
  probe_and_reset keyboard
  probe_and_reset mouse
  ps2_create_device_structures
