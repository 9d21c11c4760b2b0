-- ===== src/Usb/Command/Power.antt =====
-- The output power that a request sets.
use crazyradio2_firmware.Base.{
  ℕ, ◌*◌, ◌≤◌, ◌≡◌, refl, ◌⊎◌, inl, inr, min, if◌then◌else◌, true, ◌==◌, List, [], ◌∷◌, get_or,
  arith,
}
use crazyradio2_firmware.Platform.{Calls, ◌▹◌, spi_write}
use crazyradio2_firmware.Fem.{fem_set_power, write_register}
use crazyradio2_firmware.Esb.Isr.{Irq}
use crazyradio2_firmware.Usb.State.{Usb, SetupCommand, ◌▹▹▹◌}
use crazyradio2_firmware.Usb.Command.{set_radio_power, power_mapping, asks, handle_vendor_command}

-- The gain of the amplifier that a value of the request asks for: the largest for all above 2.
pub gain : ℕ → ℕ
gain value = if value == 0 then 1 else if value == 1 then 10 else if value == 2 then 20 else 31

gain-cases :
    (value : ℕ) → (gain value ≡ 1) ⊎ (gain value ≡ 10) ⊎ (gain value ≡ 20) ⊎ (gain value ≡ 31)
unfolding gain
gain-cases value = ground arith

gain-monotone : (v w : ℕ) → v ≤ w → gain v ≤ gain w
unfolding gain
gain-monotone v w h = ground arith

mapped-cases :
    (value : ℕ)
    → ((min value 3 ≡ 0) × (gain value ≡ 1))
      ⊎ ((min value 3 ≡ 1) × (gain value ≡ 10))
      ⊎ ((min value 3 ≡ 2) × (gain value ≡ 20))
      ⊎ ((min value 3 ≡ 3) × (gain value ≡ 31))
unfolding gain
mapped-cases value = ground arith

mapped-gain : (value : ℕ) → get_or power_mapping (min value 3) 0 ≡ gain value
mapped-gain value = elim (mapped-cases value) [
  | inl e ↦ rw (e.0, e.1) refl
  | inr (inl e) ↦ rw (e.0, e.1) refl
  | inr (inr (inl e)) ↦ rw (e.0, e.1) refl
  | inr (inr (inr e)) ↦ rw (e.0, e.1) refl
]

-- A gain of five bits stands two bits higher in the register.
fem_set_power-gain :
    (g : ℕ) (t : Calls)
    → (g ≡ 1) ⊎ (g ≡ 10) ⊎ (g ≡ 20) ⊎ (g ≡ 31)
    → fem_set_power g t ≡ (t ▹ spi_write (0xc0 ∷ g * 4 ∷ []))
unfolding fem_set_power write_register
fem_set_power-gain g t (inl e) = rw e refl
fem_set_power-gain g t (inr (inl e)) = rw e refl
fem_set_power-gain g t (inr (inr (inl e))) = rw e refl
fem_set_power-gain g t (inr (inr (inr e))) = rw e refl

-- A power request makes one write, to register 0 of the front end, of the gain that its value asks
-- for, shifted over the two lowest bits; the gain is one of five bits, and no request of a larger
-- value asks for a smaller one.
pub power_request :
    (prefix0 : ℕ) (irqs : List Irq) (setup : SetupCommand) (u : Usb) (larger : ℕ)
    → asks setup.setup_packet set_radio_power 0 ≡ true
    → setup.setup_packet.w_value ≤ larger
    → let g = gain setup.setup_packet.w_value in
      (handle_vendor_command prefix0 irqs setup u
        ≡ (u ▹▹▹ (λ t. t ▹ spi_write (0xc0 ∷ g * 4 ∷ []))))
      × (g ≤ 31)
      × (g ≤ gain larger)
unfolding handle_vendor_command gain
power_request prefix0 irqs setup u larger asked h =
    let g = gain setup.setup_packet.w_value in
    let mapped = mapped-gain setup.setup_packet.w_value in
    let written = fem_set_power-gain g u.radio.calls (gain-cases setup.setup_packet.w_value) in
    (ground (arith, asked, mapped, written), ground arith, gain-monotone _ larger h)
