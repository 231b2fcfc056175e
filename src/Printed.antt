-- ===== src/Printed.antt =====
-- What the program prints with `pps_printf` (printf, of done/error.h): lines of pieces, each a text of
-- the format or one of its conversions. How the C library writes a number out is left to it.
use file_system_public_copy.Prelude.{ℕ, List, ◌++◌, Result, ok, err, fault}
use Prim.Native.String.{String}

pub data Piece : Type 0 where
  text : String → Piece
  -- `%-20s`
  padded : String → Piece
  -- `%s` of bytes, and `%c`
  chars : List ℕ → Piece
  -- `%d`, `%u` and `%zu`
  decimal : ℕ → Piece
  -- `%d` of a number below zero, by its magnitude
  negative : ℕ → Piece
  -- `%2zu`
  narrow : ℕ → Piece
  -- `%02x`
  hex : ℕ → Piece

abbrev pub Row : Type 0
Row = List Piece

-- The first rows, and the next ones if the status is ERR_NONE.
abbrev pub and_then : List Row × Result ℕ → List Row × Result ℕ → List Row × Result ℕ
and_then (rows, ok n) rest = (rows ++ rest.0, rest.1)
and_then (rows, err n) rest = (rows, err n)
and_then (rows, fault) rest = (rows, fault)
