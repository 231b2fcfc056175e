-- ===== src/Fuse.antt =====
-- done/u6fs_fuse.c: the callbacks that FUSE makes on a mounted file system.
pub mod Read
pub mod Listing
pub mod NewFile
use file_system_public_copy.Prelude.{
  ℕ, zero, suc, ◌+◌, ◌-◌, ◌*◌, ◌/◌, ◌%◌, Bool, ◌&&◌, if◌then◌else◌, ltb, ◌==◌, Option, none, some,
  List, [], ◌∷◌, ◌++◌, length, get_or, slice, Result, ok, err, fault, u16, u32,
}
use file_system_public_copy.Errors.{nomem}
use file_system_public_copy.Stdio.{Buffer, memcpy}
use file_system_public_copy.Layout.{root_inumber, ifdir, has_flag, inode_getsize}
use file_system_public_copy.Sector.{sector_size}
use file_system_public_copy.FileSystem.{FileSystem}
use file_system_public_copy.Inode.{inode_read}
use file_system_public_copy.File.{Filev6, filev6_open, filev6_lseek, filev6_readblock}
use file_system_public_copy.Directory.{
  DirectoryReader, Entry, direntv6_dirlookup, direntv6_opendir, direntv6_readdir, dir_rounds,
}

-- The fields of `struct stat` that are set. `st_mode` is kept as whether it says S_IFDIR; the rest of
-- it is the same for all files.
pub record Stat : Type 0 where
  pub st_ino : ℕ
  pub st_nlink : ℕ
  pub st_uid : ℕ
  pub st_gid : ℕ
  pub st_size : ℕ
  pub st_blksize : ℕ
  pub st_blocks : ℕ
  pub is_dir : Bool

-- `(size - 1) / 512 + 1` on signed numbers: C's quotient of -1 is 0.
abbrev pub blocks_of : ℕ → ℕ
blocks_of size = (size - 1) / sector_size + 1

unfoldable pub fs_getattr : FileSystem → List ℕ → Result Stat
fs_getattr u path = elim (direntv6_dirlookup u root_inumber path) [
  | err n ↦ err n
  | fault ↦ fault
  | ok found ↦ elim (inode_read u (u16 found)) [
    | err n ↦ err n
    | fault ↦ fault
    | ok inode ↦ ok (record {
      st_ino = found;
      st_nlink = inode.i_nlink;
      st_uid = inode.i_uid;
      st_gid = inode.i_gid;
      st_size = inode_getsize inode;
      st_blksize = sector_size;
      st_blocks = blocks_of (inode_getsize inode);
      is_dir = has_flag inode.i_mode ifdir;
    })
  ]
]

-- The loop of `fs_readdir`: the names handed to `filler`, which is `fills` here, and the status.
unfoldable pub fill_names :
    (List ℕ → Bool) → ℕ → FileSystem → DirectoryReader → List (List ℕ) × Result ℕ
fill_names fills zero u d = ([], fault)
fill_names fills (suc rounds) u d =
    let (read, d') = direntv6_readdir u d in
    let rest = fill_names fills rounds u d' in
    elim read [
      | err n ↦ ([], err n)
      | fault ↦ ([], fault)
      | ok none ↦ ([], ok 0)
      | ok (some e) ↦ if fills e.name then (e.name ∷ rest.0, rest.1) else ([], err nomem)
    ]

abbrev pub dot : List ℕ
dot = b'.' ∷ []

abbrev pub dot_dot : List ℕ
dot_dot = b'.' ∷ b'.' ∷ []

-- `fills name` is whether the filler takes the name; the names are those that it took.
unfoldable pub fs_readdir :
    (List ℕ → Bool) → Buffer → FileSystem → List ℕ → List (List ℕ) × Result ℕ
unfolding fill_names
fs_readdir fills dirs u path = elim (direntv6_dirlookup u root_inumber path) [
  | err n ↦ ([], err n)
  | fault ↦ ([], fault)
  | ok found ↦ elim (direntv6_opendir dirs u (u16 found)) [
    | err n ↦ ([], err n)
    | fault ↦ ([], fault)
    | ok d ↦
        let (names, status) = fill_names fills (dir_rounds d) u d in
        elim status [
          | err n ↦ (names, err n)
          | fault ↦ (names, fault)
          | ok _ ↦
              if fills dot
              then if fills dot_dot
                then (names ++ (dot ∷ dot_dot ∷ []), ok 0)
                else (names ++ (dot ∷ []), err nomem)
              else (names, err nomem)
        ]
  ]
]

-- The loop of `fs_read`, which reads a block before it tests the space left: the bytes put into
-- `buf`, or the error. `sector` is the array on the stack, and `at` the offset in it.
unfoldable pub read_loop : ℕ → FileSystem → Filev6 → Buffer → ℕ → ℕ → ℕ → Result (List ℕ)
unfolding memcpy
read_loop zero u f sector at size size_copied = fault
read_loop (suc rounds) u f sector at size size_copied =
    let (readblock, f') = filev6_readblock u f in
    elim readblock [
      | err n ↦ err n
      | fault ↦ fault
      | ok bytes ↦
          let n = length bytes in
          let copied = if ltb (size - size_copied) n then size - size_copied else n in
          let sector' = memcpy sector 0 n (λ k. get_or bytes k 0) in
          let rest = read_loop rounds u f' sector' 0 size (size_copied + copied) in
          if n == 0
          then ok []
          else if ltb size_copied size
          then elim rest [
            | ok more ↦ ok (slice sector' at copied ++ more)
            | err n ↦ err n
            | fault ↦ fault
          ]
          else ok []
    ]

-- Every block but the last is a sector, so a file of n bytes takes n / 512 + 2 rounds.
abbrev pub read_rounds : Filev6 → ℕ
read_rounds f = inode_getsize f.i_node / sector_size + 2

-- `offset` is the bit pattern of an `off_t`, and its low 32 bits are the `int` that is sought.
unfoldable pub fs_read : Buffer → FileSystem → List ℕ → ℕ → ℕ → Result (List ℕ)
unfolding read_loop
fs_read sector u path size offset = elim (direntv6_dirlookup u root_inumber path) [
  | err n ↦ err n
  | fault ↦ fault
  | ok found ↦ elim (filev6_open u (u16 found)) [
    | err n ↦ err n
    | fault ↦ fault
    | ok f ↦
        let (sought, f') = filev6_lseek f (u32 offset) in
        elim sought [
          | err n ↦ err n
          | fault ↦ fault
          | ok _ ↦ read_loop (read_rounds f) u f' sector (offset % sector_size) size 0
        ]
  ]
]
