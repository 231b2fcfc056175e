-- ===== src/Tests/Directories.antt =====
-- Directories: runs, and the theorems at inputs.
use file_system_public_copy.Prelude.{
  ℕ, zero, suc, ◌*◌, ◌<◌, ◌≡◌, refl, arith, true, some, List, [], ◌∷◌, ◌++◌, get_or, ok,
}
use file_system_public_copy.Layout.{inode_getsize, has_flag, decode_inode}
use file_system_public_copy.Sector.{sector_read}
use file_system_public_copy.Sector.Laws.{IsReadable}
use file_system_public_copy.Inode.{inode_read, inode_findsector}
use file_system_public_copy.File.{filev6_open, filev6_readblock}
use file_system_public_copy.File.Content.{IsFile, content, IsSmallFile, IsSmallFile-IsFile}
use file_system_public_copy.Directory.{direntv6_dirlookup, find_in_directory}
use file_system_public_copy.Directory.Find.{first_named, find_in_directory_lem}
use file_system_public_copy.Directory.Paths.{walk, dirlookup_lem}
use file_system_public_copy.Fuse.{fs_readdir, dot, dot_dot}
use file_system_public_copy.Fuse.Listing.{names_from, fs_readdir_lem}
use file_system_public_copy.Tests.Disk.{fs, disk_bytes, zeros, root_inode}

abbrev pub addresses : ℕ → ℕ
addresses k = get_or root_inode.i_addr k 0

root-IsSmallFile : IsSmallFile fs root_inode
unfolding has_flag inode_getsize
root-IsSmallFile = record { allocated = refl; small = omega arith; blocks = blocks }
  where
    blocks : (k : ℕ) → k * 512 < inode_getsize root_inode → IsReadable fs.f (addresses k)
    blocks zero h = record { seeks = refl; sound = refl; inside = omega arith; small = omega arith }
    blocks (suc k) h = absurd (omega (arith, h))

pub root_inode-IsFile : IsFile fs root_inode addresses
root_inode-IsFile = IsSmallFile-IsFile fs root_inode root-IsSmallFile

pub reads_root : inode_read fs 1 ≡ ok root_inode
unfolding inode_read sector_read disk_bytes decode_inode has_flag
reads_root = refl

abbrev pub name_c : List ℕ
name_c = b'c' ∷ []

abbrev pub name_ab : List ℕ
name_ab = b'a' ∷ b'b' ∷ []

-- Both entries, and then `.` and `..`.
lists_root :
    fs_readdir (λ n. true) zeros fs (b'/' ∷ []) ≡ (name_ab ∷ name_c ∷ dot ∷ dot_dot ∷ [], ok 0)
unfolding fs_readdir direntv6_dirlookup inode_read sector_read disk_bytes decode_inode has_flag
    filev6_readblock filev6_open inode_getsize inode_findsector
lists_root = refl

find_in_directory_lem_example :
    find_in_directory zeros fs 1 name_c ≡ ok (first_named (content fs addresses) name_c 2 0)
unfolding has_flag inode_getsize
find_in_directory_lem_example =
    find_in_directory_lem zeros fs 1 root_inode addresses name_c reads_root refl root_inode-IsFile
      refl

first_c : first_named (content fs addresses) name_c 2 0 ≡ some 3
unfolding disk_bytes
first_c = refl

dirlookup_lem_example :
    direntv6_dirlookup fs 1 (b'/' ∷ b'a' ∷ b'b' ∷ b'/' ∷ b'c' ∷ [])
    ≡ walk fs 1 (name_ab ∷ name_c ∷ [])
dirlookup_lem_example = dirlookup_lem fs 1 (name_ab ∷ name_c ∷ []) refl

root_path : direntv6_dirlookup fs 1 (b'/' ∷ []) ≡ ok 1
unfolding direntv6_dirlookup
root_path = refl

fs_readdir_lem_example :
    fs_readdir (λ n. true) zeros fs (b'/' ∷ [])
    ≡ (names_from (content fs addresses) 2 0 ++ (dot ∷ dot_dot ∷ []), ok 0)
unfolding has_flag inode_getsize
fs_readdir_lem_example =
    fs_readdir_lem (λ n. true) zeros fs (b'/' ∷ []) 1 root_inode addresses (λ name. refl) root_path
      reads_root refl root_inode-IsFile refl
