-- ===== src/Prelude/Bits.antt =====
-- Single binary digits of `|` and `&`, and the two as arithmetic on fields.
use Prim.Native.Nat.{
  ℕ, zero, suc, ◌+◌, ◌-◌, ◌*◌, ◌/◌, ◌%◌, ◌^◌, ◌≤◌, ◌<◌, min, max, bit_and, bit_or, digits, bitwise,
  bit_and-bitwise, bit_or-bitwise,
}
use native.Mathlib.Nat.{pow-suc, pow-succ', one-le-pow, le_refl, div-div-eq-div-mul, div-add-mod}
use native.Mathlib.Omega.{arith}
use mathlib.Core.Path.{◌≡◌, refl, ap, sym, ◌∙◌}
use mathlib.Core.Logic.{◌≢◌}

-- The library gives `|` and `&` as a recursion on fuel: any fuel that reaches the number will do.
module _ (rest : ℕ → ℕ) (op : ℕ → ℕ → ℕ) where
  digits_of_zero : (k b : ℕ) → digits rest op k 0 b ≡ rest b
  digits_of_zero zero b = refl
  digits_of_zero (suc k) b = refl

  digits_enough : (k l a b : ℕ) → a ≤ k → a ≤ l → digits rest op k a b ≡ digits rest op l a b
  digits_enough k l zero b _ _ = digits_of_zero k b ∙ sym (digits_of_zero l b)
  digits_enough zero l (suc a) b hk _ = absurd (omega arith)
  digits_enough (suc k) zero (suc a) b _ hl = absurd (omega arith)
  digits_enough (suc k) (suc l) (suc a) b hk hl =
      ap (λ t. t * 2 + op (suc a % 2) (b % 2))
        (digits_enough k l (suc a / 2) (b / 2) (omega arith) (omega arith))

  bitwise_half :
      (a b : ℕ)
      → 0 < a
      → bitwise rest op a b ≡ bitwise rest op (a / 2) (b / 2) * 2 + op (a % 2) (b % 2)
  bitwise_half zero b h = absurd (omega arith)
  bitwise_half (suc a) b h =
      ap (λ t. t * 2 + op (suc a % 2) (b % 2))
        (digits_enough a (suc a / 2) (suc a / 2) (b / 2) (omega arith) (omega arith))

zero-bit_or : (b : ℕ) → bit_or 0 b ≡ b
zero-bit_or b = bit_or-bitwise 0 b

zero-bit_and : (b : ℕ) → bit_and 0 b ≡ 0
zero-bit_and b = bit_and-bitwise 0 b

-- The lowest digit, and the rest.
pub bit_or_halves : (a b : ℕ) → bit_or a b ≡ bit_or (a / 2) (b / 2) * 2 + max (a % 2) (b % 2)
bit_or_halves zero b = omega (arith, zero-bit_or b, zero-bit_or (b / 2))
bit_or_halves (suc a) b = omega (
  arith,
  bit_or-bitwise (suc a) b,
  bit_or-bitwise (suc a / 2) (b / 2),
  bitwise_half (λ y. y) max (suc a) b (omega arith),
)

pub bit_and_halves : (a b : ℕ) → bit_and a b ≡ bit_and (a / 2) (b / 2) * 2 + min (a % 2) (b % 2)
bit_and_halves zero b = omega (arith, zero-bit_and b, zero-bit_and (b / 2))
bit_and_halves (suc a) b = omega (
  arith,
  bit_and-bitwise (suc a) b,
  bit_and-bitwise (suc a / 2) (b / 2),
  bitwise_half (λ y. 0) min (suc a) b (omega arith),
)

-- The digit of `w` at place `k`.
pub digit : ℕ → ℕ → ℕ
digit w zero = w % 2
digit w (suc k) = digit (w / 2) k

pub digit-bit_or : (a b k : ℕ) → digit (bit_or a b) k ≡ max (digit a k) (digit b k)
unfolding digit
digit-bit_or a b zero = omega (arith, bit_or_halves a b)
digit-bit_or a b (suc k) =
    let half : bit_or a b / 2 ≡ bit_or (a / 2) (b / 2) = omega (arith, bit_or_halves a b) in
    rw half (digit-bit_or (a / 2) (b / 2) k)

pub digit-bit_and : (a b k : ℕ) → digit (bit_and a b) k ≡ min (digit a k) (digit b k)
unfolding digit
digit-bit_and a b zero = omega (arith, bit_and_halves a b)
digit-bit_and a b (suc k) =
    let half : bit_and a b / 2 ≡ bit_and (a / 2) (b / 2) = omega (arith, bit_and_halves a b) in
    rw half (digit-bit_and (a / 2) (b / 2) k)

-- A digit is what `(w >> k) & 1` computes.
pub digit_lem : (w k : ℕ) → digit w k ≡ w / 2 ^ k % 2
unfolding digit
digit_lem w zero = omega arith
digit_lem w (suc k) = rw (pow-succ' 2 k, ← div-div-eq-div-mul) (digit_lem (w / 2) k)

-- The only digit of `2 ^ k` is at `k`.
pub digit_pow_self : (k : ℕ) → digit (2 ^ k) k ≡ 1
unfolding digit
digit_pow_self zero = refl
digit_pow_self (suc k) =
    let e : 2 ^ suc k / 2 ≡ 2 ^ k = omega (arith, pow-suc 2 k) in rw e (digit_pow_self k)

pub digit-zero : (k : ℕ) → digit 0 k ≡ 0
unfolding digit
digit-zero zero = refl
digit-zero (suc k) = digit-zero k

pub digit_pow_ne : (k j : ℕ) → k ≢ j → digit (2 ^ k) j ≡ 0
unfolding digit
digit_pow_ne zero zero ne = absurd (ne refl)
digit_pow_ne zero (suc j) ne = digit-zero j
digit_pow_ne (suc k) zero ne = omega (arith, pow-suc 2 k)
digit_pow_ne (suc k) (suc j) ne =
    let e : 2 ^ suc k / 2 ≡ 2 ^ k = omega (arith, pow-suc 2 k) in
    rw e (digit_pow_ne k j (λ p. ne (ap suc p)))

-- The word of `n` ones.
pub digit_ones : (n j : ℕ) → j < n → digit (2 ^ n - 1) j ≡ 1
unfolding digit
digit_ones zero j h = absurd (omega arith)
digit_ones (suc n) zero h = omega (arith, pow-suc 2 n, one-le-pow n 2)
digit_ones (suc n) (suc j) h =
    let e : (2 ^ suc n - 1) / 2 ≡ 2 ^ n - 1 = omega (arith, pow-suc 2 n, one-le-pow n 2) in
    rw e (digit_ones n j (omega arith))

pow-lt : (n k : ℕ) → k < n → 2 ^ k < 2 ^ n
pow-lt zero k h = absurd (omega arith)
pow-lt (suc n) zero h = omega (arith, pow-suc 2 n, one-le-pow n 2)
pow-lt (suc n) (suc k) h = omega (arith, pow-suc 2 n, pow-suc 2 k, pow-lt n k (omega arith))

-- `n` ones, but for a zero at `k`: the complement of `1 << k` in `n` bits.
pub digit_hole_self : (n k : ℕ) → k < n → digit (2 ^ n - 1 - 2 ^ k) k ≡ 0
unfolding digit
digit_hole_self zero k h = absurd (omega arith)
digit_hole_self (suc n) zero h = omega (arith, pow-suc 2 n, one-le-pow n 2)
digit_hole_self (suc n) (suc k) h =
    let e : (2 ^ suc n - 1 - 2 ^ suc k) / 2 ≡ 2 ^ n - 1 - 2 ^ k =
      omega (arith, pow-suc 2 n, pow-suc 2 k, pow-lt n k (omega arith)) in
    rw e (digit_hole_self n k (omega arith))

pub digit_hole_ne : (n k j : ℕ) → k < n → j < n → k ≢ j → digit (2 ^ n - 1 - 2 ^ k) j ≡ 1
unfolding digit
digit_hole_ne zero k j h g ne = absurd (omega arith)
digit_hole_ne (suc n) zero zero h g ne = absurd (ne refl)
digit_hole_ne (suc n) zero (suc j) h g ne =
    let e : (2 ^ suc n - 1 - 1) / 2 ≡ 2 ^ n - 1 = omega (arith, pow-suc 2 n, one-le-pow n 2) in
    rw e (digit_ones n j (omega arith))
digit_hole_ne (suc n) (suc k) zero h g ne =
    omega (arith, pow-suc 2 n, pow-suc 2 k, pow-lt n k (omega arith))
digit_hole_ne (suc n) (suc k) (suc j) h g ne =
    let e : (2 ^ suc n - 1 - 2 ^ suc k) / 2 ≡ 2 ^ n - 1 - 2 ^ k =
      omega (arith, pow-suc 2 n, pow-suc 2 k, pow-lt n k (omega arith)) in
    rw e (digit_hole_ne n k j (omega arith) (omega arith) (λ p. ne (ap suc p)))

pub digit-le : (w k : ℕ) → digit w k ≤ 1
unfolding digit
digit-le w zero = omega arith
digit-le w (suc k) = digit-le (w / 2) k

-- A number with a digit 1 is not 0.
pub digit-ne_zero : (w k : ℕ) → digit w k ≡ 1 → w ≢ 0
digit-ne_zero w k h e = let z : digit 0 k ≡ 1 = rw (← e) h in omega (arith, digit-zero k)

or-zero_below : (n a : ℕ) → a ≤ n → bit_or a 0 ≡ a
or-zero_below n zero h = zero-bit_or 0
or-zero_below zero (suc a) h = absurd (omega arith)
or-zero_below (suc n) (suc a) h =
    omega (arith, bit_or_halves (suc a) 0, or-zero_below n (suc a / 2) (omega arith))

-- `(hi << k) | lo` is a sum where `lo` has `k` bits.
pub bit_or_disjoint : (k hi lo : ℕ) → lo < 2 ^ k → bit_or (hi * 2 ^ k) lo ≡ hi * 2 ^ k + lo
bit_or_disjoint zero hi lo h =
    let e : lo ≡ 0 = omega arith in rw e (or-zero_below _ _ (le_refl _) ∙ omega arith)
bit_or_disjoint (suc k) hi lo h =
    let e : hi * 2 ^ suc k ≡ hi * 2 ^ k * 2 = rw (pow-suc 2 k) (omega arith) in
    let half : hi * 2 ^ suc k / 2 ≡ hi * 2 ^ k = omega arith in
    let low : lo / 2 < 2 ^ k = omega (arith, pow-suc 2 k) in
    omega (
      arith,
      bit_or_halves (hi * 2 ^ suc k) lo,
      ap (λ t. bit_or t (lo / 2)) half,
      bit_or_disjoint k hi (lo / 2) low,
    )

and-zero_below : (n a : ℕ) → a ≤ n → bit_and a 0 ≡ 0
and-zero_below n zero h = zero-bit_and 0
and-zero_below zero (suc a) h = absurd (omega arith)
and-zero_below (suc n) (suc a) h =
    omega (arith, bit_and_halves (suc a) 0, and-zero_below n (suc a / 2) (omega arith))

pub bit_and-one : (a : ℕ) → bit_and a 1 ≡ a % 2
bit_and-one a = omega (arith, bit_and_halves a 1, and-zero_below (a / 2) (a / 2) (le_refl _))

mod-double : (a p : ℕ) → a % (2 * p) ≡ a / 2 % p * 2 + a % 2
mod-double a p =
    let e : 2 * p * (a / 2 / p) + a % (2 * p) ≡ a =
      rw (div-div-eq-div-mul a 2 p) (div-add-mod a (2 * p)) in
    omega (arith, e, div-add-mod (a / 2) p)

-- A mask of `k` ones keeps the remainder by `2 ^ k`.
pub bit_and_ones : (k a : ℕ) → bit_and a (2 ^ k - 1) ≡ a % 2 ^ k
bit_and_ones zero a = and-zero_below a a (le_refl _) ∙ omega arith
bit_and_ones (suc k) a =
    let low : (2 ^ suc k - 1) / 2 ≡ 2 ^ k - 1 = omega (arith, pow-suc 2 k, one-le-pow k 2) in
    let odd : (2 ^ suc k - 1) % 2 ≡ 1 = omega (arith, pow-suc 2 k, one-le-pow k 2) in
    bit_and_halves a (2 ^ suc k - 1)
    ∙ rw (low, odd, bit_and_ones k (a / 2), pow-succ' 2 k) (omega (arith, mod-double a (2 ^ k)))

-- Or-ing numbers of k bits gives one.
pub bit_or-lt : (k a b : ℕ) → a < 2 ^ k → b < 2 ^ k → bit_or a b < 2 ^ k
bit_or-lt zero a b ha hb =
    let za : a ≡ 0 = omega arith in
    let zb : b ≡ 0 = omega arith in
    let z : bit_or a b ≡ 0 = rw (za, zb) (zero-bit_or 0) in omega (arith, z)
bit_or-lt (suc k) a b ha hb =
    omega (arith, bit_or_halves a b, bit_or-lt k (a / 2) (b / 2) (omega arith) (omega arith))

-- A mask of one bit keeps that digit in its place.
pub bit_and_pow : (k a : ℕ) → bit_and a (2 ^ k) ≡ digit a k * 2 ^ k
unfolding digit
bit_and_pow zero a = omega (arith, bit_and-one a)
bit_and_pow (suc k) a =
    let half : 2 ^ suc k / 2 ≡ 2 ^ k = omega (arith, pow-suc 2 k) in
    let even : 2 ^ suc k % 2 ≡ 0 = omega (arith, pow-suc 2 k) in
    bit_and_halves a (2 ^ suc k) ∙ rw (half, even, bit_and_pow k (a / 2), pow-suc 2 k) (omega arith)

-- The digits of a number shifted to the right.
pub digit-shift : (v s j : ℕ) → digit (v / 2 ^ s) j ≡ digit v (s + j)
unfolding digit
digit-shift v zero j =
    let e : v / 2 ^ 0 ≡ v = omega arith in
    let f : j ≡ 0 + j = omega arith in ap (λ t. digit t j) e ∙ ap (digit v) f
digit-shift v (suc s) j =
    let e : suc s + j ≡ suc (s + j) = omega arith in
    rw (pow-succ' 2 s, ← div-div-eq-div-mul) (digit-shift (v / 2) s j) ∙ ap (digit v) (sym e)
