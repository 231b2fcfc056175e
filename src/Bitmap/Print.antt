-- ===== src/Bitmap/Print.antt =====
-- done/bmblock.c, printing: bm_print and its helpers. A line is what stands before its newline.
pub mod Digits
use file_system_public_copy.Prelude.{
  ℕ, zero, suc, ◌+◌, ◌%◌, ◌==◌, if◌then◌else◌, List, [], ◌∷◌, ◌++◌, get_or, Option, none, some,
  ◌>>>◌, bit_and,
}
use Prim.Native.String.{String}
use file_system_public_copy.Printed.{Piece, Row, text, chars, decimal, narrow}
use file_system_public_copy.Bitmap.{Bitmap}

abbrev pub print_bit : ℕ → ℕ → Piece
print_bit value position_mask =
    if bit_and value position_mask == 0 then chars (b'0' ∷ []) else chars (b'1' ∷ [])

-- `value` is the bit pattern of a `char`.
unfoldable pub print_binary_byte : ℕ → Row
print_binary_byte value =
    print_bit value 0x01
    ∷ print_bit value 0x02
    ∷ print_bit value 0x04
    ∷ print_bit value 0x08
    ∷ print_bit value 0x10
    ∷ print_bit value 0x20
    ∷ print_bit value 0x40
    ∷ print_bit value 0x80
    ∷ []

abbrev pub print_slice : ℕ → ℕ → Row
print_slice value slide = print_binary_byte ((value >>> slide) % 256)

unfoldable pub println_binary_uint64_t : ℕ → Row
unfolding print_binary_byte
println_binary_uint64_t value =
    print_slice value 0
    ++ text " " ∷ print_slice value 8
    ++ text " " ∷ print_slice value 16
    ++ text " " ∷ print_slice value 24
    ++ text " " ∷ print_slice value 32
    ++ text " " ∷ print_slice value 40
    ++ text " " ∷ print_slice value 48
    ++ text " " ∷ print_slice value 56

-- The rows of the words from number `i` on, `left` of them.
unfoldable pub print_words : Bitmap → ℕ → ℕ → List Row
unfolding println_binary_uint64_t
print_words b zero i = []
print_words b (suc left) i =
    (narrow i ∷ text ": " ∷ println_binary_uint64_t (get_or b.bm i 0)) ∷ print_words b left (i + 1)

-- `none` is NULL.
unfoldable pub bm_print : Option String → Option Bitmap → List Row
unfolding print_words
bm_print none bm = []
bm_print (some name) none = []
bm_print (some name) (some bm) =
    (text "**********BitMap Block " ∷ text name ∷ text " START**********" ∷ [])
    ∷ (text "length: " ∷ decimal bm.length ∷ [])
    ∷ (text "min: " ∷ decimal bm.min ∷ [])
    ∷ (text "max: " ∷ decimal bm.max ∷ [])
    ∷ (text "cursor: " ∷ decimal bm.cursor ∷ [])
    ∷ (text "content:" ∷ [])
    ∷ (print_words bm bm.length 0
        ++ (text "**********BitMap Block " ∷ text name ∷ text " END************" ∷ []) ∷ [])
