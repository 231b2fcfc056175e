-- ===== src/Bitmap/Bits.antt =====
-- done/bmblock.c, one bit: bm_alloc, bm_get, bm_set and bm_clear.
use file_system_public_copy.Prelude.{
  ℕ, ◌+◌, ◌-◌, ◌/◌, ◌^◌, ◌≤◌, ◌<◌, ◌≡◌, ◌≢◌, ◌↔◌, ◌⊎◌, arith, Bool, false, if◌then◌else◌, ◌==◌,
  ◌&&◌, inl, inr, replicate, List, length, get_or, set, none, some, ok, err, bit_and, bit_or,
  length-set, length-replicate, get_or-replicate, get_or-set_self, get_or-set_ne, dec_le, subst,
}
use file_system_public_copy.Prelude.Bits.{
  digit, digit_lem, digit-bit_or, digit-bit_and, digit_pow_self, digit_pow_ne, digit_hole_self,
  digit_hole_ne, digit-le, digit-zero, bit_and-one,
}
use file_system_public_copy.Errors.{bad_parameter}
use file_system_public_copy.Bitmap.{
  Bitmap, bm_alloc, bm_get, bm_set, bm_clear, word_index, bit_index, alloc_size,
}

-- The vector covers `min` to `max` by its words.
pub record IsValid (b : Bitmap) : Type 0 where
  pub ordered : b.min ≤ b.max
  pub bounded : b.max < 2 ^ 63
  pub words : b.length ≡ (b.max - b.min) / 64 + 1
  pub stored : length b.bm ≡ b.length
  pub on_word : b.cursor < b.length

pub record InRange (b : Bitmap) (x : ℕ) : Type 0 where
  pub above : b.min ≤ x
  pub below : x ≤ b.max

-- The bit of `x`, as a digit of its word.
abbrev pub bit_of : Bitmap → ℕ → ℕ
bit_of b x = digit (get_or b.bm (word_index b x) 0) (bit_index b x)

pub bm_get_lem : (b : Bitmap) (x : ℕ) → InRange b x → bm_get b x ≡ ok (bit_of b x)
unfolding bm_get
bm_get_lem b x r = ground (
  arith,
  bit_and-one (get_or b.bm (word_index b x) 0 / 2 ^ bit_index b x),
  digit_lem (get_or b.bm (word_index b x) 0) (bit_index b x),
)

pub bm_get-bad : (b : Bitmap) (x : ℕ) → ¬ InRange b x → bm_get b x ≡ err bad_parameter
unfolding bm_get
bm_get-bad b x r = grind (arith, r)

-- The index of a number in range lies in the vector.
pub word_index-lt : {b : Bitmap} {x : ℕ} → IsValid b → InRange b x → word_index b x < length b.bm
word_index-lt v r = omega arith

-- A vector that bm_alloc returns for bounds below 2 ^ 63 is valid, has these bounds, and bm_get
-- gives 0 for every number between them.
pub bm_alloc-IsValid :
    (malloc : ℕ → Bool) (lo hi : ℕ) {b : Bitmap}
    → hi < 2 ^ 63
    → bm_alloc malloc lo hi ≡ some b
    → IsValid b × (b.min ≡ lo) × (b.max ≡ hi) × ((x : ℕ) → lo ≤ x → x ≤ hi → bm_get b x ≡ ok 0)
unfolding bm_alloc
bm_alloc-IsValid malloc lo hi {b} h e = (
  ground (arith, length-replicate {A = ℕ} len 0),
  ground arith,
  ground arith,
  λ x p q. let r : InRange b x = ground arith in rw (bm_get_lem b x r) (empty x),
)
  where
    len : ℕ
    len = (hi - lo) / 64 + 1

    words : b.bm ≡ replicate len 0
    words = ground arith

    empty : (x : ℕ) → ok (bit_of b x) ≡ ok 0
    empty x =
        rw (words, get_or-replicate {A = ℕ} len (word_index b x) 0, digit-zero (bit_index b x))

-- Only an empty range or a failed allocation gives NULL.
pub bm_alloc-eq_none :
    (malloc : ℕ → Bool) (lo hi : ℕ)
    → (bm_alloc malloc lo hi ≡ none)
      ↔ ((hi < lo) ⊎ (malloc (alloc_size ((hi - lo) / 64 + 1)) ≡ false))
unfolding bm_alloc
bm_alloc-eq_none malloc lo hi = ground arith

pub bm_set-IsValid : {b : Bitmap} (x : ℕ) → IsValid b → IsValid (bm_set b x)
unfolding bm_set
bm_set-IsValid {b} x v = ground (
  arith,
  length-set b.bm (word_index b x) (bit_or (get_or b.bm (word_index b x) 0) (2 ^ bit_index b x)),
)

pub bm_clear-IsValid : {b : Bitmap} (x : ℕ) → IsValid b → IsValid (bm_clear b x)
unfolding bm_clear
bm_clear-IsValid {b} x v = ground (
  arith,
  length-set b.bm (word_index b x)
      (bit_and (get_or b.bm (word_index b x) 0) (2 ^ 64 - 1 - 2 ^ bit_index b x)),
)

-- The digits of an array of words after one word is or-ed with a bit, or and-ed with its complement.
digit-set_bit :
    (ws : List ℕ) (i k j m : ℕ)
    → i < length ws
    → digit (get_or (set ws i (bit_or (get_or ws i 0) (2 ^ k))) j 0) m
      ≡ (if i == j && k == m then 1 else digit (get_or ws j 0) m)
digit-set_bit ws i k j m h = ground (
  arith,
  get_or-set_self ws i (bit_or (get_or ws i 0) (2 ^ k)) 0 h,
  get_or-set_ne ws i j (bit_or (get_or ws i 0) (2 ^ k)) 0,
  digit-bit_or (get_or ws i 0) (2 ^ k) m,
  digit_pow_self k,
  digit_pow_ne k m,
  digit-le (get_or ws i 0) m,
)

digit-clear_bit :
    (ws : List ℕ) (i k j m : ℕ)
    → i < length ws
    → k < 64
    → m < 64
    → digit (get_or (set ws i (bit_and (get_or ws i 0) (2 ^ 64 - 1 - 2 ^ k))) j 0) m
      ≡ (if i == j && k == m then 0 else digit (get_or ws j 0) m)
digit-clear_bit ws i k j m h hk hm = ground (
  arith,
  get_or-set_self ws i (bit_and (get_or ws i 0) (2 ^ 64 - 1 - 2 ^ k)) 0 h,
  get_or-set_ne ws i j (bit_and (get_or ws i 0) (2 ^ 64 - 1 - 2 ^ k)) 0,
  digit-bit_and (get_or ws i 0) (2 ^ 64 - 1 - 2 ^ k) m,
  digit_hole_self 64 k hk,
  digit_hole_ne 64 k m hk hm,
  digit-le (get_or ws i 0) m,
)

pub InRange-cases : (b : Bitmap) (x : ℕ) → InRange b x ⊎ ¬ InRange b x
InRange-cases b x = elim (dec_le b.min x) [
  | no p ↦ inr λ r. p r.above
  | yes p ↦ elim (dec_le x b.max) [ yes q ↦ inl (omega arith) | no q ↦ inr λ r. q r.below ]
]

-- The vector with one word written.
abbrev with_word : Bitmap → ℕ → ℕ → Bitmap
with_word b i w = record b { bm = set b.bm i w }

abbrev or_bit : Bitmap → ℕ → ℕ
or_bit b x = bit_or (get_or b.bm (word_index b x) 0) (2 ^ bit_index b x)

abbrev and_not_bit : Bitmap → ℕ → ℕ
and_not_bit b x = bit_and (get_or b.bm (word_index b x) 0) (2 ^ 64 - 1 - 2 ^ bit_index b x)

bm_set_in :
    (b : Bitmap) (x : ℕ)
    → IsValid b
    → InRange b x
    → bm_set b x ≡ with_word b (word_index b x) (or_bit b x)
unfolding bm_set
bm_set_in b x v r = ground (arith, word_index-lt v r)

bm_clear_in :
    (b : Bitmap) (x : ℕ)
    → IsValid b
    → InRange b x
    → bm_clear b x ≡ with_word b (word_index b x) (and_not_bit b x)
unfolding bm_clear
bm_clear_in b x v r = ground (arith, word_index-lt v r)

-- On a valid vector and for a number of its range: after bm_set of it, bm_get gives 1 for that
-- number, and for every other number what it gave before.
pub bm_get-bm_set :
    (b : Bitmap) (x y : ℕ)
    → IsValid b
    → InRange b x
    → bm_get (bm_set b x) y ≡ (if x == y then ok 1 else bm_get b y)
bm_get-bm_set b x y v r = elim (InRange-cases b y) [
  | inl q ↦
      rw
        (
          bm_set_in b x v r,
          bm_get_lem (with_word b (word_index b x) (or_bit b x)) y (omega arith),
          bm_get_lem b y q,
        )
        (ground (
          arith,
          digit-set_bit b.bm (word_index b x) (bit_index b x) (word_index b y) (bit_index b y)
              (word_index-lt v r),
        ))
  | inr q ↦
      let ne : x ≢ y = λ e. q (subst (InRange b) e r) in
      rw
        (
          bm_set_in b x v r,
          bm_get-bad (with_word b (word_index b x) (or_bit b x)) y (λ s. q (omega arith)),
          bm_get-bad b y q,
        )
        (ground (arith, ne))
]

-- On a valid vector and for a number of its range: after bm_clear of it, bm_get gives 0 for that
-- number, and for every other number what it gave before.
pub bm_get-bm_clear :
    (b : Bitmap) (x y : ℕ)
    → IsValid b
    → InRange b x
    → bm_get (bm_clear b x) y ≡ (if x == y then ok 0 else bm_get b y)
bm_get-bm_clear b x y v r = elim (InRange-cases b y) [
  | inl q ↦
      rw
        (
          bm_clear_in b x v r,
          bm_get_lem (with_word b (word_index b x) (and_not_bit b x)) y (omega arith),
          bm_get_lem b y q,
        )
        (ground (
          arith,
          digit-clear_bit b.bm (word_index b x) (bit_index b x) (word_index b y) (bit_index b y)
              (word_index-lt v r),
        ))
  | inr q ↦
      let ne : x ≢ y = λ e. q (subst (InRange b) e r) in
      rw
        (
          bm_clear_in b x v r,
          bm_get-bad (with_word b (word_index b x) (and_not_bit b x)) y (λ s. q (omega arith)),
          bm_get-bad b y q,
        )
        (ground (arith, ne))
]

-- A number out of range is neither set nor cleared.
pub bm_set_out : (b : Bitmap) (x : ℕ) → ¬ InRange b x → (bm_set b x ≡ b) × (bm_clear b x ≡ b)
unfolding bm_set bm_clear
bm_set_out b x n = grind (arith, n)
