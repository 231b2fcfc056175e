-- ===== src/Directory.antt =====
-- done/direntv6.c, reading: the directory reader and the lookup of a path. A path or a name is the
-- list of its bytes without the closing NUL. Allocations are taken to succeed.
pub mod Create
pub mod Reader
pub mod Find
pub mod Paths
pub mod Entries
pub mod Created
pub mod Splits
pub mod NewPath
pub mod Child
pub mod Added
pub mod Overwritten
pub mod Print
use file_system_public_copy.Prelude.{
  ℕ, zero, suc, ◌+◌, ◌*◌, ◌/◌, Bool, true, false, ◌&&◌, if◌then◌else◌, leb, ◌==◌, Option, none,
  some, List, [], ◌∷◌, length, get_or, slice, Result, ok, err, fault, ◌>>=◌,
}
use file_system_public_copy.Errors.{invalid_directory_inode, no_such_file}
use file_system_public_copy.Stdio.{Buffer, memcpy}
use file_system_public_copy.Layout.{ifdir, has_flag, u16_at, root_inumber, inode_getsize}
use file_system_public_copy.FileSystem.{FileSystem}
use file_system_public_copy.File.{Filev6, filev6_open, filev6_readblock}

abbrev pub dirent_maxlen : ℕ
dirent_maxlen = 14

-- `sizeof(struct direntv6)`, and DIRENTRIES_PER_SECTOR.
abbrev pub dirent_size : ℕ
dirent_size = 16

abbrev pub direntries_per_sector : ℕ
direntries_per_sector = 32

-- `dirs` is the array of entries as bytes.
pub record DirectoryReader : Type 0 where
  pub fv6 : Filev6
  pub dirs : Buffer
  pub cur : ℕ
  pub last : ℕ

pub record Entry : Type 0 where
  pub name : List ℕ
  pub child_inr : ℕ

-- `dirs` is what the reader's array holds before.
unfoldable pub direntv6_opendir : Buffer → FileSystem → ℕ → Result DirectoryReader
direntv6_opendir dirs u inr = filev6_open u inr >>= λ fv6.
    if has_flag fv6.i_node.i_mode ifdir
    then ok (record { fv6 = fv6; dirs = dirs; cur = 0; last = 0 })
    else err invalid_directory_inode

-- The bytes before the first NUL.
abbrev pub c_string : List ℕ → List ℕ
c_string [] = []
c_string (c ∷ cs) = if c == 0 then [] else c ∷ c_string cs

-- The entry at `cur`; past the array C reads outside it.
unfoldable pub next_entry : DirectoryReader → Result (Option Entry) × DirectoryReader
next_entry d =
    let at = d.cur * dirent_size in
    let entry : Entry = record {
      name = c_string (slice d.dirs (at + 2) dirent_maxlen);
      child_inr = u16_at d.dirs at;
    } in
    if leb direntries_per_sector d.cur
    then (fault, d)
    else (ok (some entry), record d { cur = d.cur + 1 })

-- `ok none` is 0, the end of the directory; `ok (some e)` is 1.
unfoldable pub direntv6_readdir :
    FileSystem → DirectoryReader → Result (Option Entry) × DirectoryReader
unfolding next_entry memcpy
direntv6_readdir u d =
    let (bytes_read, fv6') = filev6_readblock u d.fv6 in
    if d.cur == d.last
    then elim bytes_read [
      | err n ↦ (err n, record d { fv6 = fv6' })
      | fault ↦ (fault, record d { fv6 = fv6' })
      | ok bytes ↦
          if length bytes == 0
          then (ok none, record d { fv6 = fv6' })
          else next_entry (record {
            fv6 = fv6';
            dirs = memcpy d.dirs 0 (length bytes) (λ k. get_or bytes k 0);
            cur = 0;
            last = length bytes / dirent_size;
          })
    ]
    else next_entry d

abbrev pub slash : ℕ
slash = b'/'

abbrev pub bytes_eq : List ℕ → List ℕ → Bool
bytes_eq [] [] = true
bytes_eq (a ∷ as') (b ∷ bs) = a == b && bytes_eq as' bs
bytes_eq _ _ = false

-- The entries are read until one has the name: its inode number, or `none` at the end.
unfoldable pub find_entry : ℕ → FileSystem → DirectoryReader → List ℕ → Result (Option ℕ)
unfolding direntv6_readdir
find_entry zero u d sought = fault
find_entry (suc rounds) u d sought =
    let (read, d') = direntv6_readdir u d in
    let rest = find_entry rounds u d' sought in
    elim read [
      | err n ↦ err n
      | fault ↦ fault
      | ok none ↦ ok none
      | ok (some e) ↦ if bytes_eq sought e.name then ok (some e.child_inr) else rest
    ]

-- A directory of n bytes is read in n / 512 + 1 blocks at most, of 32 entries.
abbrev pub dir_rounds : DirectoryReader → ℕ
dir_rounds d = (inode_getsize d.fv6.i_node / 512 + 2) * 33

abbrev pub drop_slashes : List ℕ → List ℕ
drop_slashes [] = []
drop_slashes (c ∷ cs) = if c == slash then drop_slashes cs else c ∷ cs

-- The bytes up to the next slash, and what follows them.
abbrev pub first_part : List ℕ → List ℕ
first_part [] = []
first_part (c ∷ cs) = if c == slash then [] else c ∷ first_part cs

abbrev pub after_part : List ℕ → List ℕ
after_part [] = []
after_part (c ∷ cs) = if c == slash then c ∷ cs else after_part cs

-- The search for one component in the directory `inr`.
unfoldable pub find_in_directory : Buffer → FileSystem → ℕ → List ℕ → Result (Option ℕ)
unfolding direntv6_opendir find_entry
find_in_directory dirs u inr sought =
    direntv6_opendir dirs u inr >>= λ d. find_entry (dir_rounds d) u d sought

-- `length` is the length of `entry`, which loses its first component at each call.
unfoldable pub direntv6_dirlookup_core : ℕ → FileSystem → ℕ → List ℕ → Result ℕ
unfolding find_in_directory
direntv6_dirlookup_core zero u inr entry = fault
direntv6_dirlookup_core (suc calls) u inr entry =
    let path = drop_slashes entry in
    let next = λ (child : ℕ). direntv6_dirlookup_core calls u child (after_part path) in
    if length entry == 0
    then ok inr
    else if inr == root_inumber && bytes_eq entry (slash ∷ [])
    then ok inr
    else if length path == 0
    then err no_such_file
    else elim (find_in_directory (λ k. 0) u inr (first_part path)) [
      | err n ↦ err n
      | fault ↦ fault
      | ok none ↦ err no_such_file
      | ok (some child) ↦ next child
    ]

unfoldable pub direntv6_dirlookup : FileSystem → ℕ → List ℕ → Result ℕ
unfolding direntv6_dirlookup_core
direntv6_dirlookup u inr entry = direntv6_dirlookup_core (length entry + 1) u inr entry
