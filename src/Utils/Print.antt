-- ===== src/Utils/Print.antt =====
-- done/u6fs_utils.c, printing: the superblock, an inode, the first sector of a file, the bitmaps and
-- the hashes of all files. A function returns the rows that it prints and its status.
pub mod AllFiles
pub mod Listed
use file_system_public_copy.Prelude.{
  ℕ, zero, suc, ◌+◌, ◌-◌, ◌*◌, ◌^◌, if◌then◌else◌, ltb, ◌==◌, Option, none, some, List, [], ◌∷◌,
  ◌++◌, Result, ok, err, fault, u16, Bool,
}
use file_system_public_copy.Errors.{unallocated_inode}
use file_system_public_copy.Stdio.{Buffer}
use file_system_public_copy.Printed.{Row, and_then, text, padded, chars, decimal, hex}
use file_system_public_copy.Layout.{
  Superblock, Inode, ifdir, has_flag, inode_getsize, inodes_per_sector,
}
use file_system_public_copy.Sector.{sector_read}
use file_system_public_copy.Bitmap.Print.{bm_print}
use file_system_public_copy.FileSystem.{FileSystem}
use file_system_public_copy.File.{filev6_open, filev6_readblock}
use file_system_public_copy.Utils.{utils_print_shafile}
use Prim.Native.String.{String}
use mathlib.Core.List.{map}

abbrev pub field_row : String → ℕ → Row
field_row name value = padded name ∷ text ": " ∷ decimal value ∷ []

unfoldable pub utils_print_superblock : FileSystem → List Row × Result ℕ
utils_print_superblock u = (
  (text "**********FS SUPERBLOCK START**********" ∷ [])
      ∷ field_row "s_isize" u.s.s_isize
      ∷ field_row "s_fsize" u.s.s_fsize
      ∷ field_row "s_fbmsize" u.s.s_fbmsize
      ∷ field_row "s_ibmsize" u.s.s_ibmsize
      ∷ field_row "s_inode_start" u.s.s_inode_start
      ∷ field_row "s_block_start" u.s.s_block_start
      ∷ field_row "s_fbm_start" u.s.s_fbm_start
      ∷ field_row "s_ibm_start" u.s.s_ibm_start
      ∷ field_row "s_flock" u.s.s_flock
      ∷ field_row "s_ilock" u.s.s_ilock
      ∷ field_row "s_fmod" u.s.s_fmod
      ∷ field_row "s_ronly" u.s.s_ronly
      ∷ (padded "s_time"
          ∷ text ": ["
          ∷ decimal u.s.s_time.0
          ∷ text "] "
          ∷ decimal u.s.s_time.1
          ∷ [])
      ∷ (text "**********FS SUPERBLOCK END**********" ∷ [])
      ∷ [],
  ok 0,
)

-- `none` is NULL. The function always returns ERR_NONE.
unfoldable pub utils_print_inode : Option Inode → List Row
utils_print_inode none =
    (text "**********FS INODE START**********" ∷ [])
    ∷ (text "NULL ptr" ∷ [])
    ∷ (text "**********FS INODE END************" ∷ [])
    ∷ []
utils_print_inode (some i) =
    (text "**********FS INODE START**********" ∷ [])
    ∷ (text "i_mode: " ∷ decimal i.i_mode ∷ [])
    ∷ (text "i_nlink: " ∷ decimal i.i_nlink ∷ [])
    ∷ (text "i_uid: " ∷ decimal i.i_uid ∷ [])
    ∷ (text "i_gid: " ∷ decimal i.i_gid ∷ [])
    ∷ (text "i_size0: " ∷ decimal i.i_size0 ∷ [])
    ∷ (text "i_size1: " ∷ decimal i.i_size1 ∷ [])
    ∷ (text "size: " ∷ decimal (inode_getsize i) ∷ [])
    ∷ (text "**********FS INODE END************" ∷ [])
    ∷ []

unfoldable pub utils_cat_first_sector : FileSystem → ℕ → List Row × Result ℕ
unfolding utils_print_inode
utils_cat_first_sector u inr =
    let failed : Row = text "filev6_open failed for inode #" ∷ decimal inr ∷ text "." ∷ [] in
    elim (filev6_open u inr) [
      | err n ↦ (failed ∷ [], err n)
      | fault ↦ ([], fault)
      | ok f ↦
          let shown : List Row =
            []
            ∷ (text "Printing inode #" ∷ decimal inr ∷ text ":" ∷ [])
            ∷ utils_print_inode (some f.i_node) in
          let start : List Row =
            shown ++ (text "the first sector of data of which contains:" ∷ []) ∷ [] in
          if has_flag f.i_node.i_mode ifdir
          then (shown ++ (text "which is a directory." ∷ []) ∷ [], ok 0)
          else elim (filev6_readblock u f).0 [
            | err n ↦ (start, err n)
            | fault ↦ (start, fault)
            | ok bytes ↦ (start ++ (chars bytes ∷ text "----" ∷ []) ∷ [], ok 0)
          ]
    ]

-- What utils_print_shafile prints of a file or of a directory, and before a read fails: then there
-- is no newline behind it.
abbrev pub sha_start : ℕ → Row
sha_start inr = text "SHA inode " ∷ decimal inr ∷ text ": " ∷ []

abbrev pub sha_row : ℕ → Option (List ℕ) → Row
sha_row inr none = sha_start inr ++ text "DIR" ∷ []
sha_row inr (some sha) = sha_start inr ++ map hex sha

abbrev pub sha_begun : FileSystem → ℕ → List Row
sha_begun u inr = elim (filev6_open u inr) [ ok _ ↦ sha_start inr ∷ [] | _ ↦ [] ]

-- The call of utils_print_shafile for `inr`, and the rest of the work if it goes on.
abbrev pub sha_next :
    (Buffer → ℕ → List ℕ) → Buffer → FileSystem → ℕ → List Row × Result ℕ → List Row × Result ℕ
sha_next sha256 junk u inr rest = elim (utils_print_shafile sha256 junk u inr) [
  | ok printed ↦ (sha_row inr printed ∷ rest.0, rest.1)
  | err n ↦
      if n == unallocated_inode
      then (sha_begun u inr ++ rest.0, rest.1)
      else (sha_begun u inr, err n)
  | fault ↦ (sha_begun u inr, fault)
]

-- The inner loop from `inode_index` on, in the sector that is `curr_relative_sector` after the
-- first of the table.
unfoldable pub sha_slots :
    (Buffer → ℕ → List ℕ) → Buffer → FileSystem → ℕ → ℕ → ℕ → List Row × Result ℕ
sha_slots sha256 junk u curr_relative_sector zero inode_index = ([], ok 0)
sha_slots sha256 junk u curr_relative_sector (suc left) inode_index =
    let rest = sha_slots sha256 junk u curr_relative_sector left (inode_index + 1) in
    sha_next sha256 junk u (u16 (inode_index + curr_relative_sector * inodes_per_sector)) rest

-- The outer loop, whose counter has 16 bits; `fault` at the end of the rounds is a loop that goes on
-- for ever.
unfoldable pub sha_sectors :
    (Buffer → ℕ → List ℕ) → Buffer → FileSystem → ℕ → ℕ → List Row × Result ℕ
sha_sectors sha256 junk u zero sector_nb = ([], fault)
sha_sectors sha256 junk u (suc rounds) sector_nb =
    let first = if sector_nb == u.s.s_inode_start then 1 else 0 in
    let slots =
      sha_slots sha256 junk u (u16 (sector_nb + 2 ^ 16 - u.s.s_inode_start))
        (inodes_per_sector - first) first in
    let rest = sha_sectors sha256 junk u rounds (u16 (sector_nb + 1)) in
    if ltb sector_nb (u.s.s_isize + u.s.s_inode_start)
    then elim (sector_read u.f sector_nb) [
      | err n ↦ ([], err n)
      | fault ↦ ([], fault)
      | ok _ ↦ and_then slots rest
    ]
    else ([], ok 0)

-- One round for each sector, and the last test.
unfoldable pub utils_print_sha_allfiles :
    (Buffer → ℕ → List ℕ) → Buffer → FileSystem → List Row × Result ℕ
unfolding sha_sectors sha_slots
utils_print_sha_allfiles sha256 junk u =
    let (rows, status) = sha_sectors sha256 junk u (u.s.s_isize + 1) u.s.s_inode_start in
    ((text "Listing inodes SHA" ∷ []) ∷ rows, status)

unfoldable pub utils_print_bitmaps : FileSystem → List Row × Result ℕ
utils_print_bitmaps u =
    (bm_print (some "INODES") (some u.ibm) ++ bm_print (some "SECTORS") (some u.fbm), ok 0)
