-- ===== src/Mount.antt =====
-- done/mount.c: mounting. What `fopen` and `malloc` answer are arguments.
pub mod Grow
pub mod Record
pub mod Fill
pub mod Mounted
pub mod Total
pub mod Small
pub mod Again
pub mod Missed
use file_system_public_copy.Prelude.{
  ℕ, zero, suc, ◌+◌, ◌*◌, ◌/◌, ◌%◌, Bool, true, false, if◌then◌else◌, leb, ◌==◌, Option, none, some,
  List, get_or, Result, ok, err, fault, not,
}
use file_system_public_copy.Errors.{
  io, nomem, bad_boot_sector, unallocated_inode, offset_out_of_range,
}
use file_system_public_copy.Stdio.{File}
use file_system_public_copy.Layout.{
  Inode, Superblock, inodes_per_sector, addresses_per_sector, root_inumber, decode_superblock,
  inode_getsize,
}
use file_system_public_copy.Sector.{sector_size, sector_read}
use file_system_public_copy.Bitmap.{bm_alloc, bm_set}
use file_system_public_copy.FileSystem.{FileSystem}
use file_system_public_copy.Inode.{
  inode_read, inode_findsector, medium_filesys_size, scanned_inr, scanned_rows,
}

-- A number is set in the data bitmap.
abbrev pub set_fbm : FileSystem → ℕ → FileSystem
set_fbm u x = record u { fbm = bm_set u.fbm x }

-- The `for` loop of `write_sector_on_bitmap`, from entry `k` of `i_addr`, which has eight.
unfoldable pub mark_addresses : List ℕ → FileSystem → ℕ → ℕ → Result ℕ × FileSystem
mark_addresses i_addr u zero k = (ok 0, u)
mark_addresses i_addr u (suc left) k =
    let rest = mark_addresses i_addr (set_fbm u (get_or i_addr k 0)) left (k + 1) in
    if leb 8 k then (fault, u) else rest

-- The `while` loop: `found` is the last answer of `inode_findsector`. Running out of rounds would be
-- a `fault`.
unfoldable pub mark_sectors : ℕ → Inode → FileSystem → Result ℕ → ℕ → Result ℕ × FileSystem
mark_sectors zero inode u found sector_index = (fault, u)
mark_sectors (suc rounds) inode u (ok sector) sector_index =
    let u' = set_fbm u sector in
    mark_sectors rounds inode u' (inode_findsector u' inode sector_index) (sector_index + 1)
mark_sectors (suc rounds) inode u (err n) sector_index =
    if n == offset_out_of_range then (ok 0, u) else (err n, u)
mark_sectors (suc rounds) inode u fault sector_index = (fault, u)

unfoldable pub write_sector_on_bitmap : Inode → FileSystem → Result ℕ × FileSystem
unfolding mark_sectors mark_addresses
write_sector_on_bitmap inode u =
    let size_tot = inode_getsize inode / sector_size + 1 in
    let (marked, u') =
      (if leb size_tot medium_filesys_size
        then mark_addresses inode.i_addr u (size_tot / addresses_per_sector + 1) 0
        else (ok 0, u)) in
    elim marked [
      | err n ↦ (err n, u')
      | fault ↦ (fault, u')
      | ok _ ↦ mark_sectors (size_tot + 3) inode u' (inode_findsector u' inode 0) 0
    ]

-- One inode number of `fill_bitmaps`: the status, whether an inode was found, the file system.
unfoldable pub fill_slot : FileSystem → ℕ → Result ℕ × Bool × FileSystem
unfolding write_sector_on_bitmap
fill_slot u inr =
    let used = record u { ibm = bm_set u.ibm inr } in
    elim (inode_read u inr) [
      | ok inode ↦ let (write, u') = write_sector_on_bitmap inode used in (write, true, u')
      | err n ↦ if n == unallocated_inode then (ok 0, false, u) else (err n, true, used)
      | fault ↦ (fault, true, used)
    ]

-- The inner loop from slot `j`; `found` is `found_a_used_inode`.
unfoldable pub fill_slots : ℕ → FileSystem → Bool → ℕ → ℕ → Result ℕ × Bool × FileSystem
unfolding fill_slot
fill_slots row u found zero j = (ok 0, found, u)
fill_slots row u found (suc left) j =
    let (status, here, u') = fill_slot u (scanned_inr row j) in
    let rest = fill_slots row u' (if here then true else found) left (j + 1) in
    elim status [ ok _ ↦ rest | err n ↦ (err n, true, u') | fault ↦ (fault, true, u') ]

unfoldable pub fill_rows : FileSystem → ℕ → ℕ → Result ℕ × FileSystem
unfolding fill_slots
fill_rows u zero row = (ok 0, u)
fill_rows u (suc left) row =
    let (status, found, u') = fill_slots row u false inodes_per_sector 0 in
    let next = if found then set_fbm u' (u.s.s_inode_start + row) else u' in
    let rest = fill_rows next left (row + 1) in
    elim status [ ok _ ↦ rest | err n ↦ (err n, u') | fault ↦ (fault, u') ]

unfoldable pub fill_bitmaps : FileSystem → Result ℕ × FileSystem
unfolding fill_rows
fill_bitmaps u = fill_rows u (scanned_rows u.s) 0

-- `(uint8_t)0407`.
abbrev pub bootblock_magic_num : ℕ
bootblock_magic_num = 0o407 % 256

-- The bitmaps of a file system that is being mounted.
unfoldable pub mount_bitmaps : (ℕ → Bool) → File → Superblock → Result ℕ × Option FileSystem
unfolding fill_bitmaps
mount_bitmaps malloc f s = elim (bm_alloc malloc root_inumber (s.s_isize * inodes_per_sector)) [
  | none ↦ (err nomem, none)
  | some ibm ↦ elim (bm_alloc malloc s.s_block_start s.s_fsize) [
    | none ↦ (err nomem, none)
    | some fbm ↦
        let (fill, u) = fill_bitmaps (record { f = f; s = s; fbm = fbm; ibm = ibm }) in
        elim fill [ ok _ ↦ (ok 0, some u) | err n ↦ (err n, none) | fault ↦ (fault, none) ]
  ]
]

-- `none` for the stream is NULL, and for the file system that it is not usable.
unfoldable pub mountv6 : (ℕ → Bool) → Option File → Result ℕ × Option FileSystem
unfolding mount_bitmaps
mountv6 malloc none = (err io, none)
mountv6 malloc (some f) = elim (sector_read f 0) [
  | err n ↦ (err n, none)
  | fault ↦ (fault, none)
  | ok table ↦
      if not (table 0 == bootblock_magic_num)
      then (err bad_boot_sector, none)
      else elim (sector_read f 1) [
        | err n ↦ (err n, none)
        | fault ↦ (fault, none)
        | ok block ↦ mount_bitmaps malloc f (decode_superblock block)
      ]
]

-- `none` is a `u` that is all zero; `closes` is whether `fclose` succeeds.
unfoldable pub umountv6 : Bool → Option FileSystem → Result ℕ × Option FileSystem
umountv6 closes none = (err io, none)
umountv6 closes (some u) = if closes then (ok 0, none) else (err io, some u)
