-- ===== src/Tests/Printing.antt =====
-- What is printed: runs, and the theorems at inputs.
use file_system_public_copy.Prelude.{ℕ, ◌-◌, ◌*◌, ◌≡◌, refl, arith, some, List, [], ◌∷◌, ok, slice}
use file_system_public_copy.Stdio.{Buffer}
use file_system_public_copy.Printed.{text, chars}
use file_system_public_copy.Layout.{has_flag, inode_getsize, decode_inode}
use file_system_public_copy.Sector.{sector_read}
use file_system_public_copy.Inode.{inode_read}
use file_system_public_copy.Bitmap.{bm_get}
use file_system_public_copy.Bitmap.Print.{bm_print}
use file_system_public_copy.Bitmap.Print.Digits.{bm_print-bm_get, digit_char, shown_at}
use file_system_public_copy.Directory.Print.{file_row}
use file_system_public_copy.Directory.Print.Tree.{
  leaf, node, Forest, empty, entry, HasTree, is_file, is_dir, no_more, one_more, tree_rows,
}
use file_system_public_copy.Utils.Print.{utils_print_sha_allfiles}
use file_system_public_copy.Utils.Print.Listed.{sha_listed, sha_allfiles-listed}
use file_system_public_copy.Tests.Disk.{fs, fbm, disk_bytes, zeros, file_inode, empty_inode}
use file_system_public_copy.Tests.Directories.{
  addresses, reads_root, root_inode-IsFile, name_ab, name_c,
}

pub reads_ab : inode_read fs 2 ≡ ok file_inode
unfolding inode_read sector_read disk_bytes decode_inode has_flag
reads_ab = refl

pub reads_c : inode_read fs 3 ≡ ok empty_inode
unfolding inode_read sector_read disk_bytes decode_inode has_flag
reads_c = refl

abbrev pub forest : Forest
forest = entry name_ab 2 leaf (entry name_c 3 leaf empty)

pub root-HasTree : HasTree fs 1 (node forest)
unfolding disk_bytes has_flag inode_getsize
root-HasTree =
    is_dir addresses reads_root refl root_inode-IsFile refl
      (one_more (is_file reads_ab refl) (one_more (is_file reads_c refl) no_more))

tree_of_disk :
    tree_rows 1 [] (node forest)
    ≡ (text "DIR /" ∷ chars [] ∷ []) ∷ file_row [] name_ab ∷ file_row [] name_c ∷ []
unfolding tree_rows
tree_of_disk = refl

bm_print-bm_get_example :
    (d : ℕ) × (bm_get fbm 5 ≡ ok d)
    × (shown_at (bm_print (some "SECTORS") (some fbm)) fbm 5 ≡ digit_char d)
bm_print-bm_get_example = bm_print-bm_get "SECTORS" fbm 5 (omega arith) (omega arith)

-- A hash for the runs: the bytes themselves.
abbrev bytes_up_to : Buffer → ℕ → List ℕ
bytes_up_to b n = slice b 0 n

sha_allfiles-listed_example : utils_print_sha_allfiles bytes_up_to zeros fs ≡ (
    let (rows, status) = sha_listed bytes_up_to zeros fs (16 * fs.s.s_isize - 1) 1 in
    ((text "Listing inodes SHA" ∷ []) ∷ rows, status))
sha_allfiles-listed_example =
    sha_allfiles-listed bytes_up_to zeros fs (omega arith) (omega arith) λ y lo hi. record {
      seeks = refl;
      sound = refl;
      inside = omega (arith, hi);
      small = omega (arith, hi);
    }
