-- ===== src/Tests/Disk.antt =====
-- A disk of twenty sectors: two of inodes from sector 2 on, and data from sector 4 on. The root
-- directory has the entries `ab`, a file of 20 bytes, and `c`, an empty file.
use file_system_public_copy.Prelude.{ℕ, ◌+◌, List, [], ◌∷◌, get_or, true, false}
use file_system_public_copy.Stdio.{Buffer, File, memcpy}
use file_system_public_copy.Layout.{Superblock, Inode, zero_inode, encode_inode}
use file_system_public_copy.Bitmap.{Bitmap}
use file_system_public_copy.FileSystem.{FileSystem}

abbrev pub superblock : Superblock
superblock = record {
  s_isize = 2;
  s_fsize = 19;
  s_fbmsize = 1;
  s_ibmsize = 1;
  s_inode_start = 2;
  s_block_start = 4;
  s_fbm_start = 0;
  s_ibm_start = 0;
  s_flock = 0;
  s_ilock = 0;
  s_fmod = 0;
  s_ronly = 0;
  s_time = (0, 0);
}

abbrev pub root_inode : Inode
root_inode = record zero_inode {
  i_mode = 0o140000;
  i_size1 = 32;
  i_addr = 4 ∷ 0 ∷ 0 ∷ 0 ∷ 0 ∷ 0 ∷ 0 ∷ 0 ∷ [];
}

abbrev pub file_inode : Inode
file_inode = record zero_inode {
  i_mode = 0o100000;
  i_size1 = 20;
  i_addr = 5 ∷ 0 ∷ 0 ∷ 0 ∷ 0 ∷ 0 ∷ 0 ∷ 0 ∷ [];
}

abbrev pub empty_inode : Inode
empty_inode = record zero_inode { i_mode = 0o100000 }

abbrev pub entries : List ℕ
entries = 2 ∷ 0 ∷ b'a' ∷ b'b' ∷ 0 ∷ 0 ∷ 0 ∷ 0 ∷ 0 ∷ 0 ∷ 0 ∷ 0 ∷ 0 ∷ 0 ∷ 0 ∷ 0 ∷ 3 ∷ 0 ∷ b'c' ∷ []

abbrev pub zeros : Buffer
zeros k = 0

unfoldable pub disk_bytes : Buffer
unfolding memcpy encode_inode
disk_bytes =
    let roots = memcpy zeros 1056 32 (encode_inode root_inode) in
    let files = memcpy roots 1088 32 (encode_inode file_inode) in
    let empties = memcpy files 1120 32 (encode_inode empty_inode) in
    let dirs = memcpy empties 2048 32 (λ k. get_or entries k 0) in memcpy dirs 2560 20 (λ k. 65 + k)

abbrev pub disk : File
disk = record { size = 10240; byte = disk_bytes; seekable = true; damaged = λ k. false }

-- The sectors 4 and 5, and the inodes 1 to 3, are in use.
abbrev pub fbm : Bitmap
fbm = record { cursor = 0; min = 4; max = 19; length = 1; bm = 3 ∷ [] }

abbrev pub ibm : Bitmap
ibm = record { cursor = 0; min = 1; max = 32; length = 1; bm = 7 ∷ [] }

abbrev pub fs : FileSystem
fs = record { f = disk; s = superblock; fbm = fbm; ibm = ibm }

-- The same with other bytes.
abbrev pub on_disk : Buffer → FileSystem
on_disk b = record fs { f = record disk { byte = b } }

-- A root directory without entries.
abbrev pub bare_root : Inode
bare_root = record zero_inode { i_mode = 0o140000 }

unfoldable pub bare_bytes : Buffer
unfolding memcpy encode_inode
bare_bytes = memcpy zeros 1056 32 (encode_inode bare_root)
