-- ===== src/Prelude/Results.antt =====
-- What a C function of the program returns. Its `int` is a value when it is 0 or more and an error
-- when it is negative.
use Prim.Native.Nat.{ℕ, ◌-◌, ◌%◌, ◌^◌}
use mathlib.Core.Path.{◌≡◌, refl}
use mathlib.Core.Logic.{◌⊎◌, inl, inr}
use file_system_public_copy.Prelude.Tests.{ltb, if◌then◌else◌}

-- `err n` is the negative number -n. `fault` is behaviour that C leaves undefined.
pub data Result {ℓ} (A : Type ℓ) : Type ℓ where
  ok : A → Result A
  err : ℕ → Result A
  fault : Result A

infixl 5 ◌>>=◌
abbrev pub ◌>>=◌ {ℓ κ} : {A : Type ℓ} {B : Type κ} → Result A → (A → Result B) → Result B
ok a >>= f = f a
err n >>= f = err n
fault >>= f = fault

-- `(int)` of an unsigned number: the low 32 bits, read in two's complement.
abbrev pub to_int : ℕ → Result ℕ
to_int n = let w = n % 2 ^ 32 in if ltb w (2 ^ 31) then ok w else err (2 ^ 32 - w)

-- `int16_t` likewise.
abbrev pub to_int16 : ℕ → Result ℕ
to_int16 n = let w = n % 2 ^ 16 in if ltb w (2 ^ 15) then ok w else err (2 ^ 16 - w)

pub Result-cases {ℓ} :
    {A : Type ℓ} (r : Result A) → ((a : A) × (r ≡ ok a)) ⊎ (((n : ℕ) × (r ≡ err n)) ⊎ (r ≡ fault))
Result-cases (ok a) = inl (a, refl)
Result-cases (err n) = inr (inl (n, refl))
Result-cases fault = inr (inr refl)
