-- ===== src/Tests/Commands.antt =====
-- The command line: runs, and the theorems at inputs.
use file_system_public_copy.Prelude.{
  ℕ, ◌+◌, ◌≡◌, refl, arith, true, none, some, List, [], ◌∷◌, slice, ok, err,
}
use file_system_public_copy.Errors.{invalid_command}
use file_system_public_copy.Layout.{Inode, inode_getsize, has_flag}
use file_system_public_copy.Bitmap.{bm_find_next}
use file_system_public_copy.FileSystem.{FileSystem}
use file_system_public_copy.File.{filev6_open, filev6_readblock}
use file_system_public_copy.File.Content.{IsSmallFile-IsFile}
use file_system_public_copy.File.Sound.{address, IsSound-IsSmallFile}
use file_system_public_copy.Directory.{find_in_directory, slash, direntv6_dirlookup}
use file_system_public_copy.Directory.Created.{opened}
use file_system_public_copy.Directory.Find.{find_in_directory_lem}
use file_system_public_copy.Command.{Host, Source, u6fs_do_one_cmd, add_word}
use file_system_public_copy.Command.Main.{main}
use file_system_public_copy.Command.Adding.{add-readblock}
use file_system_public_copy.Tests.Disk.{disk_bytes, zeros, root_inode}
use file_system_public_copy.Tests.Mounts.{with_boot, mounted, mounts, reads_mounted}
use file_system_public_copy.Tests.Creation.{root-IsSound, root-IsOpen, four-IsNext, name_x}

-- A local file of twenty bytes.
abbrev pub local : Source
local = record {
  seeks_end = true;
  tell = some 20;
  rewinds = true;
  fread = λ n. slice (λ k. 65 + k) 0 n;
}

abbrev pub host : Host
host = record {
  malloc = λ n. true;
  disk = λ name. some with_boot;
  closes = true;
  source = λ name. some local;
  sha256 = λ b n. [];
  atoi = λ word. 0;
  fuse_main = λ u mountpoint. ok 0;
  junk = zeros;
  stack = 3;
}

pub no_x_mounted : find_in_directory zeros mounted 1 name_x ≡ ok none
unfolding has_flag inode_getsize disk_bytes
no_x_mounted =
    find_in_directory_lem zeros mounted 1 root_inode (address root_inode) name_x reads_mounted refl
      (IsSmallFile-IsFile mounted root_inode
        (IsSound-IsSmallFile (root-IsSound with_boot.byte reads_mounted)))
      refl

pub free_mounted : (bm_find_next mounted.fbm).0 ≡ ok 6
unfolding bm_find_next
free_mounted = refl

abbrev pub add_line : List (List ℕ)
add_line = [] ∷ [] ∷ add_word ∷ (slash ∷ name_x) ∷ [] ∷ []

add-readblock_example :
    ((u6fs_do_one_cmd host add_line).status ≡ ok 0)
    × (u' : FileSystem) × ((u6fs_do_one_cmd host add_line).left ≡ some u')
    × (direntv6_dirlookup u' 1 (slash ∷ name_x) ≡ ok 4)
    × (c : Inode) × (filev6_open u' 4 ≡ ok (opened 4 c))
    × ((filev6_readblock u' (opened 4 c)).0 ≡ ok (local.fread 20))
unfolding inode_getsize
add-readblock_example =
    add-readblock host mounted 1 4 root_inode [] name_x [] [] [] local 20 6 mounts refl
      (record { seeks = refl; told = refl; back = refl; whole = refl }) (four-IsNext with_boot.byte)
      (root-IsOpen with_boot.byte reads_mounted) refl refl refl refl (omega arith) refl no_x_mounted
      (omega arith) (omega arith) (omega arith) free_mounted

bad_run : (main host ([] ∷ [] ∷ [])).status ≡ err invalid_command
unfolding main
bad_run = refl
