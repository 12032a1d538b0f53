-- ===== src/Ps2/Devices.antt =====
-- drivers/devices/ps2_keyboard.cpp and ps2_mouse.cpp.
--
-- The interrupt routines work for the first thread of process 1. `retaction` is that of
-- `thread->poll[KEYBOARD]`, and `code` and `packet` are what the pipes of the two files hold. WRITE,
-- which nothing declares, is an argument. A byte that is read as signed is extended to 32 digits.
use best_kernel.Base.{ℕ, ◌+◌, ◌-◌, ◌*◌, ◌^◌, bit_and, bit_or, bit_xor, if◌then◌else◌, ltb, u32}
use best_kernel.Tasks.{sigpolling}
use best_kernel.Ps2.{
  Routine, ◌>>=◌, ◌>>◌, return, keyboard, mouse, outb, ps2_in, ps2_flush_obf, ps2_disable_device,
  ps2_enable_device, ps2_select_device,
}

unfoldable pub ps2_keyboard_leds : ℕ → Routine (Unit {0})
unfolding ps2_select_device outb ps2_flush_obf ps2_enable_device
ps2_keyboard_leds which = do
  ps2_select_device keyboard
  outb 0xED 0x64
  outb which 0x60
  ps2_flush_obf
  ps2_enable_device mouse

unfoldable pub ps2_keyboard_set_scancode_1 : Routine (Unit {0})
unfolding ps2_select_device outb ps2_flush_obf ps2_enable_device
ps2_keyboard_set_scancode_1 = do
  ps2_select_device keyboard
  outb 0xF0 0x64
  outb 0x1 0x60
  ps2_flush_obf
  ps2_enable_device mouse

unfoldable pub ps2_keyboard_set_keyboard_sensitivity : ℕ → Routine (Unit {0})
unfolding ps2_select_device outb ps2_flush_obf ps2_enable_device
ps2_keyboard_set_keyboard_sensitivity sens = do
  ps2_select_device keyboard
  outb 0xF3 0x64
  outb (bit_or 0 (sens * 2 ^ 5)) 0x60
  ps2_flush_obf
  ps2_enable_device mouse

unfoldable pub ps2_mouse_set_scaling : ℕ → Routine (Unit {0})
unfolding ps2_select_device outb ps2_flush_obf ps2_enable_device
ps2_mouse_set_scaling scale = do
  ps2_select_device mouse
  outb (0xE6 + scale) 0x64
  ps2_flush_obf
  ps2_enable_device keyboard

unfoldable pub ps2_mouse_set_resolution : ℕ → Routine (Unit {0})
unfolding ps2_select_device outb ps2_flush_obf ps2_enable_device
ps2_mouse_set_resolution res = do
  ps2_select_device mouse
  outb 0xE8 0x64
  outb res 0x60
  ps2_flush_obf
  ps2_enable_device keyboard

pub record MouseInfo : Type 0 where
  pub x : ℕ
  pub y : ℕ
  pub xaxis_overflow : ℕ
  pub yaxis_overflow : ℕ
  pub left_click : ℕ
  pub right_click : ℕ
  pub middle_click : ℕ

pub record Receiver : Type 0 where
  pub sigset : ℕ
  pub retaction : ℕ
  pub code : ℕ
  pub packet : MouseInfo

-- `thread->sigset &= MAX32BIT^SIGPOLLING`
unfoldable pub end_polling : ℕ → ℕ
end_polling sigset = bit_and sigset (bit_xor (2 ^ 32 - 1) sigpolling)

unfoldable pub ps3_keyboard_get_char : ℕ → Receiver → Routine Receiver
unfolding ps2_in ps2_disable_device end_polling
ps3_keyboard_get_char write t = do
  code ← ps2_in
  ps2_disable_device keyboard
  ps2_disable_device mouse
  return (record t { sigset = end_polling t.sigset; retaction = write; code = code })

unfoldable pub sign_extend : ℕ → ℕ
sign_extend b = if ltb b 128 then b else b + (2 ^ 32 - 256)

-- The three bytes of a packet as the fields of mouseinfo.
unfoldable pub decode_packet : ℕ → ℕ → ℕ → MouseInfo
unfolding sign_extend
decode_packet info x y = record {
  x = u32 (sign_extend x + bit_and info 16 * 2 ^ 8);
  xaxis_overflow = bit_and info 64;
  yaxis_overflow = bit_and info 128;
  y = u32 (sign_extend y + bit_and info 32 * 2 ^ 8);
  left_click = bit_and info 1;
  right_click = bit_and info 2;
  middle_click = bit_and info 3;
}

unfoldable pub ps2_mouse_get_packet : Receiver → Routine Receiver
unfolding ps2_in ps2_disable_device end_polling decode_packet
ps2_mouse_get_packet t = do
  info ← ps2_in
  x ← ps2_in
  y ← ps2_in
  ps2_disable_device mouse
  ps2_disable_device keyboard
  return (record t { sigset = end_polling t.sigset; packet = decode_packet info x y })
