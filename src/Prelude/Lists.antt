-- ===== src/Prelude/Lists.antt =====
-- C arrays as lists, measured and indexed by native numbers, and runs of an indexed buffer.
use Prim.Native.Nat.{ℕ, zero, suc, ◌+◌, ◌<◌}
use mathlib.Core.Path.{◌≡◌, refl, ap, ap₂, ◌∙◌}
use mathlib.Core.Logic.{◌≢◌}
use mathlib.Core.List.{List, [], ◌∷◌, ◌++◌}
use native.Mathlib.Omega.{arith}

module _ {ℓ} {A : Type ℓ} where
  abbrev pub length : List A → ℕ
  length [] = 0
  length (x ∷ xs) = suc (length xs)

  abbrev pub get_or : List A → ℕ → A → A
  get_or [] i d = d
  get_or (x ∷ xs) zero d = x
  get_or (x ∷ xs) (suc i) d = get_or xs i d

  -- A write out of bounds changes nothing.
  abbrev pub set : List A → ℕ → A → List A
  set [] i v = []
  set (x ∷ xs) zero v = v ∷ xs
  set (x ∷ xs) (suc i) v = x ∷ set xs i v

  abbrev pub take : ℕ → List A → List A
  take zero xs = []
  take (suc n) [] = []
  take (suc n) (x ∷ xs) = x ∷ take n xs

  abbrev pub drop : ℕ → List A → List A
  drop zero xs = xs
  drop (suc n) [] = []
  drop (suc n) (x ∷ xs) = drop n xs

  abbrev pub replicate : ℕ → A → List A
  replicate zero a = []
  replicate (suc n) a = a ∷ replicate n a

  pub length-append : (xs ys : List A) → length (xs ++ ys) ≡ length xs + length ys
  length-append [] ys = omega arith
  length-append (x ∷ xs) ys = omega (arith, length-append xs ys)

  pub length-set : (xs : List A) (i : ℕ) (v : A) → length (set xs i v) ≡ length xs
  length-set [] i v = refl
  length-set (x ∷ xs) zero v = refl
  length-set (x ∷ xs) (suc i) v = ap suc (length-set xs i v)

  pub length-replicate : (n : ℕ) (a : A) → length (replicate n a) ≡ n
  length-replicate zero a = refl
  length-replicate (suc n) a = ap suc (length-replicate n a)

  pub get_or-replicate : (n i : ℕ) (a : A) → get_or (replicate n a) i a ≡ a
  get_or-replicate zero i a = refl
  get_or-replicate (suc n) zero a = refl
  get_or-replicate (suc n) (suc i) a = get_or-replicate n i a

  pub get_or-set_self :
      (xs : List A) (i : ℕ) (v d : A) → i < length xs → get_or (set xs i v) i d ≡ v
  get_or-set_self [] i v d h = absurd (omega arith)
  get_or-set_self (x ∷ xs) zero v d h = refl
  get_or-set_self (x ∷ xs) (suc i) v d h = get_or-set_self xs i v d (omega arith)

  pub get_or-set_ne :
      (xs : List A) (i j : ℕ) (v d : A) → i ≢ j → get_or (set xs i v) j d ≡ get_or xs j d
  get_or-set_ne [] i j v d h = refl
  get_or-set_ne (x ∷ xs) zero zero v d h = absurd (h refl)
  get_or-set_ne (x ∷ xs) zero (suc j) v d h = refl
  get_or-set_ne (x ∷ xs) (suc i) zero v d h = refl
  get_or-set_ne (x ∷ xs) (suc i) (suc j) v d h = get_or-set_ne xs i j v d (λ e. h (ap suc e))

  -- `slice f i n` is `f i`, …, `f (i + n - 1)`.
  abbrev pub slice : (ℕ → A) → ℕ → ℕ → List A
  slice f i zero = []
  slice f i (suc n) = f i ∷ slice f (i + 1) n

  pub length-slice : (f : ℕ → A) (i n : ℕ) → length (slice f i n) ≡ n
  length-slice f i zero = refl
  length-slice f i (suc n) = ap suc (length-slice f (i + 1) n)

  -- Two runs agree where the buffers do.
  pub slice_ext :
      (f g : ℕ → A) (i j n : ℕ)
      → ((k : ℕ) → k < n → f (i + k) ≡ g (j + k))
      → slice f i n ≡ slice g j n
  slice_ext f g i j zero h = refl
  slice_ext f g i j (suc n) h =
      ap₂ ◌∷◌ (ground (arith, h 0))
        (slice_ext f g (i + 1) (j + 1) n λ k p. ground (arith, h (k + 1)))

  pub slice-append :
      (f : ℕ → A) (i j n m : ℕ) → j ≡ i + n → slice f i n ++ slice f j m ≡ slice f i (n + m)
  slice-append f i j zero m h = ground arith
  slice-append f i j (suc n) m h =
      let e : suc n + m ≡ suc (n + m) = omega arith in
      rw e (ap (λ r. f i ∷ r) (slice-append f (i + 1) j n m (omega arith)))

  -- The run of all the elements of a list is the list.
  pub slice-get_or :
      (f : ℕ → A) (d : A) (i n : ℕ) (xs : List A)
      → length xs ≡ n
      → ((k : ℕ) → f (i + k) ≡ get_or xs k d)
      → slice f i n ≡ xs
  slice-get_or f d i zero [] e h = refl
  slice-get_or f d i zero (x ∷ xs) e h = absurd (omega arith)
  slice-get_or f d i (suc n) [] e h = absurd (omega arith)
  slice-get_or f d i (suc n) (x ∷ xs) e h =
      ap₂ ◌∷◌ (ground (arith, h 0))
        (slice-get_or f d (i + 1) n xs (omega arith) λ k. ground (arith, h (k + 1)))

  pub get_or-slice : (f : ℕ → A) (i n k : ℕ) (d : A) → k < n → get_or (slice f i n) k d ≡ f (i + k)
  get_or-slice f i zero k d h = absurd (omega arith)
  get_or-slice f i (suc n) zero d h = ap f (omega arith)
  get_or-slice f i (suc n) (suc k) d h =
      get_or-slice f (i + 1) n k d (omega arith) ∙ ap f (omega arith)
