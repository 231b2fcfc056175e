-- ===== src/Bitmap/Print/Digits.antt =====
-- done/bmblock.c: which digit stands where in what bm_print prints.
use file_system_public_copy.Prelude.{
  ℕ, ℕ_discrete, false, zero, suc, ◌+◌, ◌*◌, ◌/◌, ◌%◌, ◌^◌, ◌<◌, ◌≡◌, refl, sym, ap, arith, ◌==◌,
  if◌then◌else◌, List, [], ◌∷◌, ◌++◌, length, get_or, some, ok, ◌∙◌,
}
use file_system_public_copy.Prelude.Bits.{digit, digit_lem, digit-shift, digit-le, bit_and_pow}
use native.Mathlib.Nat.{one-le-pow}
use Prim.Native.String.{String}
use file_system_public_copy.Printed.{Piece, Row, text, chars, narrow}
use file_system_public_copy.Bitmap.{Bitmap, bm_get, word_index, bit_index}
use file_system_public_copy.Bitmap.Bits.{IsValid, InRange, bit_of, bm_get_lem, word_index-lt}
use file_system_public_copy.Bitmap.Print.{
  print_bit, print_binary_byte, print_slice, println_binary_uint64_t, print_words, bm_print,
}

-- A digit as it is printed.
abbrev pub digit_char : ℕ → Piece
digit_char d = if d == 0 then chars (b'0' ∷ []) else chars (b'1' ∷ [])

print_bit_lem : (w k : ℕ) → print_bit w (2 ^ k) ≡ digit_char (w / 2 ^ k % 2)
print_bit_lem w k =
    rw (bit_and_pow k w, ← digit_lem w k)
      (elim (ℕ_discrete (digit w k) 0) [
        | yes z ↦ rw z (ground arith)
        | no nz ↦
            let one : digit w k ≡ 1 = omega (arith, nz, digit-le w k) in
            let some' : (1 * 2 ^ k == 0) ≡ false = ground (arith, one-le-pow k 2) in rw (one, some')
      ])

-- The numbers below 8, one by one.
below_8 : (P : ℕ → Type 0) → P 0 → P 1 → P 2 → P 3 → P 4 → P 5 → P 6 → P 7 → (j : ℕ) → j < 8 → P j
below_8 P a b c d e f g h zero k = a
below_8 P a b c d e f g h (suc zero) k = b
below_8 P a b c d e f g h (suc (suc zero)) k = c
below_8 P a b c d e f g h (suc (suc (suc zero))) k = d
below_8 P a b c d e f g h (suc (suc (suc (suc zero)))) k = e
below_8 P a b c d e f g h (suc (suc (suc (suc (suc zero))))) k = f
below_8 P a b c d e f g h (suc (suc (suc (suc (suc (suc zero)))))) k = g
below_8 P a b c d e f g h (suc (suc (suc (suc (suc (suc (suc zero))))))) k = h
below_8 P a b c d e f g h (suc (suc (suc (suc (suc (suc (suc (suc j)))))))) k =
    absurd (omega (arith, k))

-- The digits of a byte, low ones first.
byte_digit :
    (w j : ℕ) (rest : Row) (d : Piece)
    → j < 8
    → get_or (print_binary_byte w ++ rest) j d ≡ digit_char (w / 2 ^ j % 2)
unfolding print_binary_byte
byte_digit w j rest d =
    below_8 (λ j. get_or (print_binary_byte w ++ rest) j d ≡ digit_char (w / 2 ^ j % 2))
      (print_bit_lem w 0) (print_bit_lem w 1) (print_bit_lem w 2) (print_bit_lem w 3)
      (print_bit_lem w 4) (print_bit_lem w 5) (print_bit_lem w 6) (print_bit_lem w 7) j

byte_of : (a j : ℕ) → j < 8 → a % 256 / 2 ^ j % 2 ≡ a / 2 ^ j % 2
byte_of a =
    below_8 (λ j. a % 256 / 2 ^ j % 2 ≡ a / 2 ^ j % 2) (omega arith) (omega arith) (omega arith)
      (omega arith) (omega arith) (omega arith) (omega arith) (omega arith)

slice_digit :
    (v s j : ℕ) (rest : Row) (d : Piece)
    → j < 8
    → get_or (print_slice v s ++ rest) j d ≡ digit_char (v / 2 ^ (s + j) % 2)
slice_digit v s j rest d h =
    byte_digit (v / 2 ^ s % 256) j rest d h
    ∙ ap digit_char (
        byte_of (v / 2 ^ s) j h
        ∙ sym (digit_lem (v / 2 ^ s) j)
        ∙ digit-shift v s j
        ∙ digit_lem v (s + j))

-- The slices of a word with spaces between them.
slices : ℕ → List ℕ → Row
slices v [] = []
slices v (s ∷ []) = print_slice v s
slices v (s ∷ t ∷ ss) = print_slice v s ++ text " " ∷ slices v (t ∷ ss)

slices_digit :
    (v : ℕ) (ss : List ℕ) (g j : ℕ) (d : Piece)
    → g < length ss
    → j < 8
    → get_or (slices v ss) (g * 9 + j) d ≡ digit_char (v / 2 ^ (get_or ss g 0 + j) % 2)
unfolding slices print_binary_byte
slices_digit v [] g j d h k = absurd (omega (arith, h))
slices_digit v (s ∷ []) zero j d h k =
    ap (λ t. get_or (print_slice v s) t d) (omega arith) ∙ slice_digit v s j [] d k
slices_digit v (s ∷ []) (suc g) j d h k = absurd (omega (arith, h))
slices_digit v (s ∷ t ∷ ss) zero j d h k =
    ap (λ t'. get_or (print_slice v s ++ text " " ∷ slices v (t ∷ ss)) t' d) (omega arith)
    ∙ slice_digit v s j (text " " ∷ slices v (t ∷ ss)) d k
slices_digit v (s ∷ t ∷ ss) (suc g) j d h k =
    let e : suc g * 9 + j ≡ suc (suc (suc (suc (suc (suc (suc (suc (suc (g * 9 + j))))))))) =
      omega arith in
    ap (λ t'. get_or (print_slice v s ++ text " " ∷ slices v (t ∷ ss)) t' d) e
    ∙ slices_digit v (t ∷ ss) g j d (omega (arith, h)) k

abbrev slides : List ℕ
slides = 0 ∷ 8 ∷ 16 ∷ 24 ∷ 32 ∷ 40 ∷ 48 ∷ 56 ∷ []

slide_lem : (g : ℕ) → g < 8 → get_or slides g 0 ≡ 8 * g
slide_lem = below_8 (λ g. get_or slides g 0 ≡ 8 * g) refl refl refl refl refl refl refl refl

println_slices : (v : ℕ) → println_binary_uint64_t v ≡ slices v slides
unfolding println_binary_uint64_t slices
println_slices v = refl

println_digit :
    (v k : ℕ) (d : Piece)
    → k < 64
    → get_or (println_binary_uint64_t v) (k + k / 8) d ≡ digit_char (v / 2 ^ k % 2)
println_digit v k d h =
    let at : k + k / 8 ≡ k / 8 * 9 + k % 8 = omega arith in
    let slide : get_or slides (k / 8) 0 + k % 8 ≡ k =
      omega (arith, slide_lem (k / 8) (omega (arith, h))) in
    rw (at, println_slices v)
      (slices_digit v slides (k / 8) (k % 8) d (omega (arith, h)) (omega arith)
        ∙ ap (λ t. digit_char (v / 2 ^ t % 2)) slide)

print_words_lem :
    (b : Bitmap) (left i k : ℕ) (d : Row)
    → k < left
    → get_or (print_words b left i) k d
      ≡ narrow (i + k) ∷ text ": " ∷ println_binary_uint64_t (get_or b.bm (i + k) 0)
unfolding print_words
print_words_lem b zero i k d h = absurd (omega (arith, h))
print_words_lem b (suc left) i zero d h =
    let e : i ≡ i + 0 = omega arith in
    ap (λ t. narrow t ∷ text ": " ∷ println_binary_uint64_t (get_or b.bm t 0)) e
print_words_lem b (suc left) i (suc k) d h =
    let e : i + 1 + k ≡ i + suc k = omega arith in
    print_words_lem b left (i + 1) k d (omega (arith, h))
    ∙ ap (λ t. narrow t ∷ text ": " ∷ println_binary_uint64_t (get_or b.bm t 0)) e

length-print_words : (b : Bitmap) (left i : ℕ) → length (print_words b left i) ≡ left
unfolding print_words
length-print_words b zero i = refl
length-print_words b (suc left) i = ap suc (length-print_words b left (i + 1))

get_or-left :
    (xs ys : List Row) (k : ℕ) (d : Row) → k < length xs → get_or (xs ++ ys) k d ≡ get_or xs k d
get_or-left [] ys k d h = absurd (omega (arith, h))
get_or-left (x ∷ xs) ys zero d h = refl
get_or-left (x ∷ xs) ys (suc k) d h = get_or-left xs ys k d (omega (arith, h))

-- The row and the place in it where the digit of a number stands.
abbrev pub shown_at : List Row → Bitmap → ℕ → Piece
shown_at rows b x =
    let k = bit_index b x in
    get_or (get_or rows (suc (suc (suc (suc (suc (suc (word_index b x))))))) [])
      (suc (suc (k + k / 8))) (text "")

-- For a valid vector and a number of its range, bm_get gives a digit, and it is this digit that
-- bm_print prints for the number: in the line of its word, which is the seventh one or later, at
-- the place of its bit, low bits first, with a space after every eight.
pub bm_print-bm_get :
    (name : String) (b : Bitmap) (x : ℕ)
    → IsValid b
    → InRange b x
    → (d : ℕ) × (bm_get b x ≡ ok d) × (shown_at (bm_print (some name) (some b)) b x ≡ digit_char d)
unfolding bm_print
bm_print-bm_get name b x v r = (
  bit_of b x,
  bm_get_lem b x r,
  ap (λ (row : Row). get_or row (suc (suc (k + k / 8))) (text ""))
        (get_or-left (print_words b b.length 0) end w []
            (omega (arith, inside, length-print_words b b.length 0))
          ∙ print_words_lem b b.length 0 w [] inside)
      ∙ println_digit (get_or b.bm (0 + w) 0) k (text "") (omega arith)
      ∙ sym (ap digit_char (digit_lem (get_or b.bm (0 + w) 0) k))
      ∙ ap (λ t. digit_char (digit (get_or b.bm t 0) k)) (omega arith),
)
  where
    k : ℕ
    k = bit_index b x

    w : ℕ
    w = word_index b x

    end : List Row
    end = (text "**********BitMap Block " ∷ text name ∷ text " END************" ∷ []) ∷ []

    inside : w < b.length
    inside = omega (arith, word_index-lt v r, v.stored)
