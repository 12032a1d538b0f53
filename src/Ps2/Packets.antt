-- ===== src/Ps2/Packets.antt =====
-- The packets of the mouse, and the polling signal that both drivers take back.
use best_kernel.Base.{
  ℕ, ◌+◌, ◌-◌, ◌*◌, ◌/◌, ◌^◌, ◌<◌, ◌≡◌, refl, ap, ◌∙◌, arith, bit_or, bit, some, List, ◌∷◌, u8,
}
use best_kernel.Base.Bits.{and_step, and_mask, or_single, and-zero}
use best_kernel.Tasks.{sigpolling}
use best_kernel.Ps2.{Controller, ps2_in, ps2_disable_device, outb, ps2_flush_obf, wait, take_byte}
use best_kernel.Ps2.Init.{answering}
use best_kernel.Ps2.Devices.{Receiver, end_polling, decode_packet, ps2_mouse_get_packet}

end_polling_lem : (sigset : ℕ) → sigset < 2 ^ 32 → end_polling sigset + bit sigset 3 * 8 ≡ sigset
unfolding end_polling
end_polling_lem sigset l = omega (
  arith,
  and_step sigset 4294967287,
  and_step (sigset / 2) 2147483643,
  and_step (sigset / 2 / 2) 1073741821,
  and_step (sigset / 2 / 2 / 2) 536870910,
  and_mask 28 (sigset / 2 / 2 / 2 / 2),
)

-- What an interrupt of the mouse leaves where three bytes and the answers to the two commands are
-- there: the routine returns, middle_click is the sum of the other two buttons, so it is set
-- exactly where one of them is, and of the signals only digit 3 is taken back, the one that
-- SYSPOLL sets.
ps2_mouse_get_packet_lem :
    (t : Receiver) (info x y a b : ℕ) (status bytes : List ℕ) (c : Controller)
    → t.sigset < 2 ^ 32
    → (t' : Receiver) × (c' : Controller) × (ps2_mouse_get_packet t
          (answering (1 ∷ 1 ∷ 1 ∷ 1 ∷ 1 ∷ status) (info ∷ x ∷ y ∷ a ∷ b ∷ bytes) c)
        ≡ some (t', c'))
      × (t'.packet.middle_click ≡ t'.packet.left_click + t'.packet.right_click)
      × (t'.sigset + bit t.sigset 3 * 8 ≡ t.sigset)
unfolding ps2_mouse_get_packet ps2_in ps2_disable_device outb ps2_flush_obf wait take_byte
    decode_packet
ps2_mouse_get_packet_lem t info x y a b status bytes c l = (
  record t { sigset = end_polling t.sigset; packet = decode_packet (u8 info) (u8 x) (u8 y) },
  record (answering status bytes c) { written = (0xAD, 0) ∷ (0xA0, 0) ∷ c.written },
  refl,
  omega (
    arith,
    and_step (u8 info) 3,
    and_step (u8 info) 1,
    and_step (u8 info) 2,
    and_step (u8 info / 2) 1,
    and_step (u8 info / 2) 0,
    and-zero (u8 info / 2),
    and-zero (u8 info / 2 / 2),
  ),
  end_polling_lem t.sigset l,
)

-- A keystroke undoes what SYSPOLL did: where the process was not waiting before it (digit 3 of its
-- signals is clear), the mask after `|= SIGPOLLING` and `&= MAX32BIT^SIGPOLLING` is the one before.
end_polling-bit_or :
    (sigset : ℕ)
    → sigset < 2 ^ 32
    → bit sigset 3 ≡ 0
    → end_polling (bit_or sigset sigpolling) ≡ sigset
end_polling-bit_or sigset l e =
    let set : bit_or sigset 8 ≡ sigset + 8 =
      or_single 3 sigset ∙ ap (λ (t : ℕ). sigset + (1 - t) * 8) e in
    omega (arith, set, end_polling_lem (bit_or sigset 8) (omega (arith, set)))
