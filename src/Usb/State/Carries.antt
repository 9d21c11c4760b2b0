-- ===== src/Usb/State/Carries.antt =====
-- What only the sniffer's callback and its start change: the drop counter, and the packets that the
-- callback has been given; and what a handler does with the mutexes.
use crazyradio2_firmware.Base.{◌≡◌, refl, ◌∙◌, true}
use crazyradio2_firmware.Platform.Trace.{LockState, lock_state}
use crazyradio2_firmware.Esb.State.{Esb}
use crazyradio2_firmware.Esb.Unnoticed.{all_fit, Unnoticed}
use crazyradio2_firmware.Usb.State.{Usb, Outcome, ok, fault, out_of_fuel}
use crazyradio2_firmware.Usb.State.Partial.{Allows}

-- From `u` to `u'`, with the mutexes going from `l` to `l'`.
pub record Carries (l l' : LockState) (u u' : Usb) : Type 0 where
  pub drops_same : u'.sniffer_drop_count ≡ u.sniffer_drop_count
  pub fit_kept : all_fit u.radio.delivered ≡ true → all_fit u'.radio.delivered ≡ true
  pub locks_move : lock_state u.radio.calls ≡ l → lock_state u'.radio.calls ≡ l'

pub Carries-refl : {l : LockState} (u : Usb) → Carries l l u u
Carries-refl u = record { drops_same = refl; fit_kept = λ h. h; locks_move = λ h. h }

pub Carries-trans :
    {l l' l'' : LockState} (u v w : Usb) → Carries l l' u v → Carries l' l'' v w → Carries l l'' u w
Carries-trans u v w h k = record {
  drops_same = k.drops_same ∙ h.drops_same;
  fit_kept = λ e. k.fit_kept (h.fit_kept e);
  locks_move = λ e. k.locks_move (h.locks_move e);
}

-- An operation of the radio alone carries on as the radio does.
pub radio-Carries :
    {l l' : LockState} (u : Usb) (s : Esb)
    → Unnoticed l l' u.radio s
    → Carries l l' u (record u { radio = s })
radio-Carries u s h = record { drops_same = refl; fit_kept = h.fit_kept; locks_move = h.locks_move }

-- The result, if there is one, carries on from `u`.
abbrev pub Carrying : LockState → LockState → Usb → Outcome Usb → Type 0
Carrying l l' u = Allows (Carries l l' u)

pub any_result {ℓ} : {A : Type ℓ} (o : Outcome A) → Allows (λ _. Unit) o
any_result (ok a) = tt
any_result fault = tt
any_result out_of_fuel = tt
