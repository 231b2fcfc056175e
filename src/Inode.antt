-- ===== src/Inode.antt =====
-- done/inode.c: the inode layer. A function that changes the file system, or an inode, returns it
-- beside its status, where `ok 0` is ERR_NONE. The null checks have no counterpart.
pub mod Size
pub mod Store
pub mod Alloc
pub mod Scan
pub mod Typed
use file_system_public_copy.Prelude.{
  ℕ, zero, suc, ◌+◌, ◌-◌, ◌*◌, ◌/◌, ◌%◌, ◌^◌, Bool, true, false, ◌||◌, not, if◌then◌else◌, ltb, leb,
  ◌==◌, List, [], ◌∷◌, ◌++◌, get_or, Result, ok, err, fault, ◌>>=◌, u8, u16, u32, u64, to_int16,
  bit_and,
}
use file_system_public_copy.Errors.{
  inode_out_of_range, unallocated_inode, offset_out_of_range, file_too_large, bitmap_full,
  bad_parameter,
}
use file_system_public_copy.Stdio.{Buffer, memcpy}
use file_system_public_copy.Layout.{
  Inode, Superblock, inodes_per_sector, addresses_per_sector, root_inumber, ialloc, ifdir, has_flag,
  decode_inode, encode_inode, inode_getsize, u16_at,
}
use file_system_public_copy.Sector.{sector_size, sector_read, sector_write}
use file_system_public_copy.Bitmap.{bm_find_next, bm_set}
use file_system_public_copy.FileSystem.{FileSystem}

-- INODE_SIZEB, SMALL_FILESYS_SIZE and MEDIUM_FILESYS_SIZE.
abbrev pub inode_sizeb : ℕ
inode_sizeb = 32

abbrev pub small_filesys_size : ℕ
small_filesys_size = 8

abbrev pub medium_filesys_size : ℕ
medium_filesys_size = 7 * 256

-- The sector of an inode, and the guard that `inode_read` and `inode_write` share; both are
-- computed in `uint32_t`.
abbrev pub target_sector : Superblock → ℕ → ℕ
target_sector s inr = u32 (inr / inodes_per_sector + s.s_inode_start)

abbrev pub sector_end : Superblock → ℕ
sector_end s = u32 (s.s_inode_start + s.s_isize + 2 ^ 32 - 1)

abbrev pub out_of_range : Superblock → ℕ → Bool
out_of_range s inr = ltb (sector_end s) (target_sector s inr) || s.s_isize == 0 || inr == 0

-- The byte of an inode within its sector.
abbrev pub inode_index : ℕ → ℕ
inode_index inr = (inr - inr / inodes_per_sector * inodes_per_sector) * inode_sizeb

unfoldable pub inode_read : FileSystem → ℕ → Result Inode
inode_read u inr =
    if out_of_range u.s inr
    then err inode_out_of_range
    else sector_read u.f (target_sector u.s inr) >>= λ sector.
        let inode = decode_inode sector (inode_index inr) in
        if has_flag inode.i_mode ialloc then ok inode else err unallocated_inode

unfoldable pub inode_write : FileSystem → ℕ → Inode → Result ℕ × FileSystem
unfolding memcpy
inode_write u inr inode =
    if out_of_range u.s inr
    then (err inode_out_of_range, u)
    else elim (sector_read u.f (target_sector u.s inr)) [
      | ok sector ↦
          let block = memcpy sector (inode_index inr) inode_sizeb (encode_inode inode) in
          let (status, f') = sector_write u.f (target_sector u.s inr) block in
          (status, record u { f = f' })
      | err n ↦ (err n, u)
      | fault ↦ (fault, u)
    ]

-- A line of `inode_scan_print`.
pub record Line : Type 0 where
  pub inr : ℕ
  pub dir : Bool
  pub len : ℕ

abbrev pub line_of : ℕ → Inode → Line
line_of inr inode = record {
  inr = inr;
  dir = has_flag inode.i_mode ifdir;
  len = inode_getsize inode;
}

-- The inode number of slot `j` in round `row` of the two loops over the inode table.
abbrev pub scanned_inr : ℕ → ℕ → ℕ
scanned_inr row j = u16 (inodes_per_sector * row + j + root_inumber)

-- The rounds of the outer loop, `i` from the first inode sector to before `inode_sector_end`.
abbrev pub scanned_rows : Superblock → ℕ
scanned_rows s = u64 (s.s_isize + s.s_inode_start + 2 ^ 64 - 1) - s.s_inode_start

-- The inner loop of `inode_scan_print` from slot `j`: the lines, and ERR_NONE or what is returned.
unfoldable pub scan_slots : FileSystem → ℕ → ℕ → ℕ → List Line × Result ℕ
scan_slots u row zero j = ([], ok 0)
scan_slots u row (suc left) j =
    let inr = scanned_inr row j in
    let rest = scan_slots u row left (j + 1) in
    elim (inode_read u inr) [
      | ok inode ↦ (line_of inr inode ∷ rest.0, rest.1)
      | err n ↦ if n == unallocated_inode then rest else ([], err n)
      | fault ↦ ([], fault)
    ]

unfoldable pub scan_rows : FileSystem → ℕ → ℕ → List Line × Result ℕ
scan_rows u zero row = ([], ok 0)
scan_rows u (suc left) row =
    let (lines, status) = scan_slots u row inodes_per_sector 0 in
    let rest = scan_rows u left (row + 1) in
    elim status [
      | ok _ ↦ (lines ++ rest.0, rest.1)
      | err n ↦ (lines, err n)
      | fault ↦ (lines, fault)
    ]

unfoldable pub inode_scan_print : FileSystem → List Line × Result ℕ
unfolding scan_rows scan_slots
inode_scan_print u = scan_rows u (scanned_rows u.s) 0

-- The eight addresses of an inode; a read past them is outside the array.
abbrev pub address_at : Inode → ℕ → Result ℕ
address_at i k = if leb 8 k then fault else ok (get_or i.i_addr k 0)

-- The address is read into an `int16_t`.
unfoldable pub inode_findsector_bigfile : FileSystem → Inode → ℕ → Result ℕ
inode_findsector_bigfile u i file_sec_off =
    address_at i (file_sec_off / addresses_per_sector) >>= λ address.
    sector_read u.f address >>= λ sector.
    to_int16 (u16_at sector (file_sec_off % addresses_per_sector * 2))

-- `file_sec_off` is the bit pattern of an `int32_t`: from 2 ^ 31 on it is negative.
unfoldable pub inode_findsector : FileSystem → Inode → ℕ → Result ℕ
unfolding inode_findsector_bigfile
inode_findsector u i file_sec_off =
    let size_tot = inode_getsize i / sector_size + 1 in
    if not (has_flag i.i_mode ialloc)
    then err unallocated_inode
    else if leb (2 ^ 31) file_sec_off || leb size_tot file_sec_off
    then err offset_out_of_range
    else if leb size_tot small_filesys_size
    then address_at i file_sec_off
    else if leb size_tot medium_filesys_size
    then inode_findsector_bigfile u i file_sec_off
    else err file_too_large

-- Every failure of the search is reported as ERR_BITMAP_FULL.
unfoldable pub inode_alloc : FileSystem → Result ℕ × FileSystem
inode_alloc u =
    let (found, ibm) = bm_find_next u.ibm in
    elim found [
      | ok inr ↦ (ok inr, record u { ibm = bm_set ibm inr })
      | err n ↦ (err bitmap_full, record u { ibm = ibm })
      | fault ↦ (fault, u)
    ]

-- `new_size` is the bit pattern of an `int`; the mask keeps 17 bits, of which 16 are stored.
unfoldable pub inode_setsize : Inode → ℕ → Result ℕ × Inode
inode_setsize i new_size =
    if leb (2 ^ 31) new_size || not (new_size / 2 ^ 24 == 0) then (err bad_parameter, i) else (
      ok 0,
      record i { i_size0 = u8 (new_size / 2 ^ 16); i_size1 = u16 (bit_and new_size (2 ^ 17 - 1)) },
    )
