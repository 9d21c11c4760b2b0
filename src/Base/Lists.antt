-- ===== src/Base/Lists.antt =====
-- C arrays as lists, measured and indexed by native numbers.
use Prim.Native.Nat.{ℕ, zero, suc, ◌+◌, ◌-◌, ◌≤◌, min}
use mathlib.Core.Path.{◌≡◌, refl, ap, ◌∙◌}
use mathlib.Core.List.{List, [], ◌∷◌, ◌++◌}
use native.Mathlib.Omega.{arith}

module _ {ℓ} {A : Type ℓ} where
  abbrev pub length : List A → ℕ
  length [] = 0
  length (x ∷ xs) = suc (length xs)

  abbrev pub get_or : List A → ℕ → A → A
  get_or [] i d = d
  get_or (x ∷ xs) zero d = x
  get_or (x ∷ xs) (suc i) d = get_or xs i d

  abbrev pub take : ℕ → List A → List A
  take zero xs = []
  take (suc n) [] = []
  take (suc n) (x ∷ xs) = x ∷ take n xs

  abbrev pub drop : ℕ → List A → List A
  drop zero xs = xs
  drop (suc n) [] = []
  drop (suc n) (x ∷ xs) = drop n xs

  abbrev pub replicate : ℕ → A → List A
  replicate zero a = []
  replicate (suc n) a = a ∷ replicate n a

module _ {ℓ} {A : Type ℓ} where
  pub length-append : (xs ys : List A) → length (xs ++ ys) ≡ length xs + length ys
  length-append [] ys = omega arith
  length-append (x ∷ xs) ys = omega (arith, length-append xs ys)

  pub length-take : (n : ℕ) (xs : List A) → length (take n xs) ≡ min n (length xs)
  length-take zero xs = omega arith
  length-take (suc n) [] = omega arith
  length-take (suc n) (x ∷ xs) = omega (arith, length-take n xs)

  pub length-drop : (n : ℕ) (xs : List A) → length (drop n xs) ≡ length xs - n
  length-drop zero xs = omega arith
  length-drop (suc n) [] = omega arith
  length-drop (suc n) (x ∷ xs) = omega (arith, length-drop n xs)

  pub length-replicate : (n : ℕ) (a : A) → length (replicate n a) ≡ n
  length-replicate zero a = refl
  length-replicate (suc n) a = ap suc (length-replicate n a)

  pub take_all : (n : ℕ) (xs : List A) → length xs ≤ n → take n xs ≡ xs
  take_all zero [] h = refl
  take_all zero (x ∷ xs) h = absurd (omega arith)
  take_all (suc n) [] h = refl
  take_all (suc n) (x ∷ xs) h = ap (λ ys. x ∷ ys) (take_all n xs (omega arith))

  -- A prefix no longer than the first part is a prefix of it.
  pub take-append : (n : ℕ) (xs ys : List A) → n ≤ length xs → take n (xs ++ ys) ≡ take n xs
  take-append zero xs ys h = refl
  take-append (suc n) [] ys h = absurd (omega arith)
  take-append (suc n) (x ∷ xs) ys h = ap (λ zs. x ∷ zs) (take-append n xs ys (omega arith))

  -- A longer one has all of the first part.
  pub take-append_past :
      (n m : ℕ) (xs ys : List A) → length xs + m ≡ n → take n (xs ++ ys) ≡ xs ++ take m ys
  take-append_past n m [] ys h = let e : n ≡ m = omega arith in ap (λ k. take k ys) e
  take-append_past zero m (x ∷ xs) ys h = absurd (omega arith)
  take-append_past (suc n) m (x ∷ xs) ys h =
      ap (λ zs. x ∷ zs) (take-append_past n m xs ys (omega arith))

-- What a copy of `xs` to the offset `off` leaves, if it fits.
module _ {ℓ} {A : Type ℓ} where
  unfoldable pub blit : ℕ → List A → List A → List A
  blit off xs dst = take off dst ++ (xs ++ drop (off + length xs) dst)

  pub length-blit :
      (off : ℕ) (xs dst : List A)
      → off + length xs ≤ length dst
      → length (blit off xs dst) ≡ length dst
  unfolding blit
  length-blit off xs dst fits = ground (
    arith,
    length-append (take off dst) (xs ++ drop (off + length xs) dst),
    length-append xs (drop (off + length xs) dst),
    length-take off dst,
    length-drop (off + length xs) dst,
  )

  -- What was before the copy, then the copied part.
  pub take-blit :
      (off n : ℕ) (xs dst : List A)
      → off + length xs ≤ length dst
      → off + length xs ≡ n
      → take n (blit off xs dst) ≡ take off dst ++ xs
  unfolding blit
  take-blit off n xs dst fits e =
      take-append_past n (length xs) (take off dst) _ (omega (arith, length-take off dst))
      ∙ ap (λ ys. take off dst ++ ys)
          (take-append (length xs) xs _ (omega arith) ∙ take_all (length xs) xs (omega arith))

module _ {ℓ} {A : Type ℓ} where
  pub take-append_split :
      (n : ℕ) (xs ys : List A) → take n (xs ++ ys) ≡ take n xs ++ take (n - length xs) ys
  take-append_split zero [] ys = refl
  take-append_split zero (x ∷ xs) ys = let e : 0 - suc (length xs) ≡ 0 = omega arith in rw e
  take-append_split (suc n) [] ys = let e : suc n - 0 ≡ suc n = omega arith in rw e
  take-append_split (suc n) (x ∷ xs) ys =
      let e : suc n - suc (length xs) ≡ n - length xs = omega arith in
      rw e (ap (λ zs. x ∷ zs) (take-append_split n xs ys))

  -- Taking more than there is.
  pub take-take : (n m : ℕ) (xs : List A) → n ≤ m → take n (take m xs) ≡ take n xs
  take-take zero m xs le = refl
  take-take (suc n) zero xs le = absurd (omega arith)
  take-take (suc n) (suc m) [] le = refl
  take-take (suc n) (suc m) (x ∷ xs) le = ap (λ ys. x ∷ ys) (take-take n m xs (omega arith))

  pub take-min : (n : ℕ) (xs : List A) → take (min n (length xs)) xs ≡ take n xs
  take-min zero xs = let e : min 0 (length xs) ≡ 0 = omega arith in rw e
  take-min (suc n) [] = let e : min (suc n) 0 ≡ 0 = omega arith in rw e
  take-min (suc n) (x ∷ xs) =
      let e : min (suc n) (suc (length xs)) ≡ suc (min n (length xs)) = omega arith in
      rw e (ap (λ zs. x ∷ zs) (take-min n xs))
