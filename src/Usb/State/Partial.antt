-- ===== src/Usb/State/Partial.antt =====
-- What holds of a result of src/legacy_usb.c if there is one.
use crazyradio2_firmware.Base.{
  ℕ, ◌+◌, ◌≤◌, ◌≡◌, ◌∙◌, ◌&&◌, arith, List, length, take, leb, length-blit, length-take, if_rule,
}
use crazyradio2_firmware.Usb.State.{Outcome, ok, fault, out_of_fuel, ◌>>=◌, memcpy, Gives}

-- If there is a result, it satisfies `P`.
abbrev pub Allows {ℓ} : {A : Type ℓ} → (A → Type 0) → Outcome A → Type 0
Allows P (ok a) = P a
Allows P fault = Unit
Allows P out_of_fuel = Unit

pub Allows-bind {ℓ κ} :
    {A : Type ℓ} {B : Type κ} (P : A → Type 0) (Q : B → Type 0) (o : Outcome A) (f : A → Outcome B)
    → Allows P o
    → ((a : A) → P a → Allows Q (f a))
    → Allows Q (o >>= f)
Allows-bind P Q (ok a) f h k = k a h
Allows-bind P Q fault f h k = h
Allows-bind P Q out_of_fuel f h k = h

pub Allows-mono {ℓ} :
    {A : Type ℓ} (P Q : A → Type 0) (o : Outcome A)
    → ((a : A) → P a → Q a)
    → Allows P o
    → Allows Q o
Allows-mono P Q (ok a) f h = f a h
Allows-mono P Q fault f h = h
Allows-mono P Q out_of_fuel f h = h

pub Gives-and {ℓ} :
    {A : Type ℓ} (P Q : A → Type 0) (o : Outcome A)
    → Gives P o
    → Allows Q o
    → Gives (λ a. P a × Q a) o
Gives-and P Q (ok a) p q = (p, q)
Gives-and P Q fault p q = p
Gives-and P Q out_of_fuel p q = p

pub Gives-both {ℓ} :
    {A : Type ℓ} (P Q : A → Type 0) (o : Outcome A)
    → Gives P o
    → Gives Q o
    → Gives (λ a. P a × Q a) o
Gives-both P Q (ok a) h k = (h, k)
Gives-both P Q fault h k = h
Gives-both P Q out_of_fuel h k = h

-- A copy keeps the length of its destination.
pub memcpy-length :
    (dst : List ℕ) (off : ℕ) (src : List ℕ) (n : ℕ)
    → length dst ≡ 128
    → Allows (λ a. length a ≡ 128) (memcpy dst off src n)
unfolding memcpy
memcpy-length dst off src n room =
    if_rule (Allows (λ a. length a ≡ 128)) (leb (off + n) (length dst) && leb n (length src)) _ _
      (λ fits.
        let inside : off + n ≤ length dst = ground arith in
        let enough : n ≤ length src = ground arith in
        length-blit off (take n src) dst (omega (arith, length-take n src)) ∙ room)
      (λ _. tt)
