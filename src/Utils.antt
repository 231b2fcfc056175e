-- ===== src/Utils.antt =====
-- done/u6fs_utils.c: the hash of a file. SHA256, of the OpenSSL library, is an argument: the digest of
-- the first bytes of a buffer. What is printed is returned; the constant texts are left out.
pub mod Hash
pub mod Print
use file_system_public_copy.Prelude.{
  ℕ, zero, suc, ◌+◌, ◌*◌, if◌then◌else◌, ltb, ◌==◌, Option, none, some, List, length, get_or,
  Result, ok, err, fault,
}
use file_system_public_copy.Stdio.{Buffer, memcpy}
use file_system_public_copy.Layout.{ifdir, has_flag, inode_getsize}
use file_system_public_copy.Sector.{sector_size}
use file_system_public_copy.FileSystem.{FileSystem}
use file_system_public_copy.File.{Filev6, filev6_open, filev6_readblock}

abbrev pub utils_hashed_length : ℕ
utils_hashed_length = 16 * sector_size

-- The `do` loop, which reads a block per round, at most 16.
unfoldable pub hash_loop : ℕ → FileSystem → Filev6 → Buffer → ℕ → Result Buffer
unfolding memcpy
hash_loop zero u fv6 buffer sector_bytes = fault
hash_loop (suc rounds) u fv6 buffer sector_bytes =
    let (ret, fv6') = filev6_readblock u fv6 in
    elim ret [
      | err n ↦ err n
      | fault ↦ fault
      | ok bytes ↦
          let buffer' = memcpy buffer sector_bytes (length bytes) (λ k. get_or bytes k 0) in
          let rest = hash_loop rounds u fv6' buffer' (sector_bytes + sector_size) in
          if length bytes == 0
          then ok buffer'
          else if ltb (sector_bytes + sector_size) utils_hashed_length
          then rest
          else ok buffer'
    ]

-- `ok none` is a directory, of which only that is printed.
unfoldable pub utils_print_shafile :
    (Buffer → ℕ → List ℕ) → Buffer → FileSystem → ℕ → Result (Option (List ℕ))
unfolding hash_loop
utils_print_shafile sha256 junk u inr = elim (filev6_open u inr) [
  | err n ↦ err n
  | fault ↦ fault
  | ok fv6 ↦
      let inode_size = inode_getsize fv6.i_node in
      let size_file =
        if ltb inode_size utils_hashed_length then inode_size else utils_hashed_length in
      if has_flag fv6.i_node.i_mode ifdir then ok none else elim (hash_loop 16 u fv6 junk 0) [
        | err n ↦ err n
        | fault ↦ fault
        | ok buffer ↦ ok (some (sha256 buffer size_file))
      ]
]
