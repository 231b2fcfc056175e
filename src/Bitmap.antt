-- ===== src/Bitmap.antt =====
-- done/bmblock.c: a set of numbers from `min` to `max` as a vector of 64-bit words.
pub mod Bits
pub mod Search
pub mod Find
pub mod Print
use file_system_public_copy.Prelude.{
  ℕ, zero, suc, ◌+◌, ◌-◌, ◌*◌, ◌/◌, ◌%◌, ◌^◌, Bool, true, false, ◌&&◌, ◌||◌, if◌then◌else◌, ltb,
  leb, ◌==◌, List, [], length, get_or, set, replicate, Option, none, some, Result, ok, err, fault,
  to_int, u64, ◌>>>◌, bit_and, bit_or,
}
use file_system_public_copy.Errors.{bad_parameter, bitmap_full}

abbrev pub bits_per_vector : ℕ
bits_per_vector = 64

-- `struct bmblock_array`; `bm` has the `length` words that are used.
pub record Bitmap : Type 0 where
  pub cursor : ℕ
  pub min : ℕ
  pub max : ℕ
  pub length : ℕ
  pub bm : List ℕ

-- ROUND_UP of the struct's 40 bytes and the words after the first.
abbrev pub alloc_size : ℕ → ℕ
alloc_size len = (40 + (len - 1) * 8 + 511) / 512 * 512

-- `none` is NULL; `malloc n` is whether the allocation of `n` bytes succeeds.
unfoldable pub bm_alloc : (ℕ → Bool) → ℕ → ℕ → Option Bitmap
bm_alloc malloc lo hi =
    let len = (hi - lo) / bits_per_vector + 1 in
    if ltb hi lo
    then none
    else if malloc (alloc_size len)
    then some (record { cursor = 0; min = lo; max = hi; length = len; bm = replicate len 0 })
    else none

abbrev pub in_range : Bitmap → ℕ → Bool
in_range b x = leb b.min x && leb x b.max

abbrev pub word_index : Bitmap → ℕ → ℕ
word_index b x = (x - b.min) / bits_per_vector

abbrev pub bit_index : Bitmap → ℕ → ℕ
bit_index b x = (x - b.min) % bits_per_vector

unfoldable pub bm_get : Bitmap → ℕ → Result ℕ
bm_get b x =
    if ltb x b.min || ltb b.max x
    then err bad_parameter
    else ok (bit_and (get_or b.bm (word_index b x) 0 >>> bit_index b x) 1)

-- A word is stored. Past the vector C writes outside the array: nothing is known of the vector then,
-- which is one without words here.
abbrev pub store_word : Bitmap → ℕ → ℕ → Bitmap
store_word b i word =
    if ltb i (length b.bm) then record b { bm = set b.bm i word } else record b { bm = [] }

unfoldable pub bm_set : Bitmap → ℕ → Bitmap
bm_set b x =
    if in_range b x
    then store_word b (word_index b x) (bit_or (get_or b.bm (word_index b x) 0) (2 ^ bit_index b x))
    else b

unfoldable pub bm_clear : Bitmap → ℕ → Bitmap
bm_clear b x =
    if in_range b x
    then store_word b (word_index b x)
        (bit_and (get_or b.bm (word_index b x) 0) (2 ^ 64 - 1 - 2 ^ bit_index b x))
    else b

abbrev pub is_free : Result ℕ → Bool
is_free (ok v) = v == 0
is_free (err n) = false
is_free fault = false

-- The inner loop of `bm_find_next` over word `w`, from bit `j`, with `left` rounds left.
unfoldable pub scan_bits : Bitmap → ℕ → ℕ → ℕ → Option ℕ
scan_bits b w zero j = none
scan_bits b w (suc left) j =
    let bit = u64 (w * bits_per_vector + j + b.min) in
    let rest = scan_bits b w left (j + 1) in if is_free (bm_get b bit) then some bit else rest

-- The outer loop, from round `i`: the bit found, and the vector with its new cursor.
unfoldable pub scan_words : Bitmap → ℕ → ℕ → ℕ → Option ℕ × Bitmap
scan_words b start zero i = (none, b)
scan_words b start (suc left) i =
    let c = u64 (start + i) % b.length in
    let b' = record b { cursor = c } in
    let rest = scan_words b' start left (i + 1) in
    if get_or b.bm c 0 == 2 ^ 64 - 1
    then rest
    else elim (scan_bits b' c 64 0) [ some bit ↦ (some bit, b') | none ↦ rest ]

-- The `assert`, and the cast to `int`.
abbrev pub found : Bitmap → Option ℕ → Result ℕ
found b none = err bitmap_full
found b (some bit) = if in_range b bit then to_int bit else fault

unfoldable pub bm_find_next : Bitmap → Result ℕ × Bitmap
unfolding scan_words scan_bits bm_get
bm_find_next b = let (r, b') = scan_words b b.cursor b.length 0 in (found b' r, b')
