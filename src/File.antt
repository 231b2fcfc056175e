-- ===== src/File.antt =====
-- done/filev6.c: open files. `struct filev6` holds a pointer to the file system, which is passed
-- along here; a function returns its status (`ok 0` is ERR_NONE, or the bytes read), the open file
-- and the file system where it changes them.
pub mod Content
pub mod Negative
pub mod Ready
pub mod Write
pub mod Append
pub mod Create
pub mod Rounds
pub mod Sectors
pub mod Sound
pub mod TwoWrites
pub mod Residual
pub mod Fresh
pub mod Bytes
pub mod Kept
use file_system_public_copy.Prelude.{
  ℕ, zero, suc, ◌+◌, ◌-◌, ◌/◌, ◌%◌, ◌^◌, ◌||◌, ◌&&◌, not, if◌then◌else◌, ltb, leb, ◌==◌, List, [],
  set, slice, Result, ok, err, fault, ◌>>=◌, u16, u32, bit_or,
}
use file_system_public_copy.Errors.{offset_out_of_range, bad_parameter, file_too_large}
use file_system_public_copy.Stdio.{Buffer, memcpy}
use file_system_public_copy.Layout.{Inode, ialloc, inode_getsize, zero_inode}
use file_system_public_copy.Sector.{sector_size, sector_read, sector_write}
use file_system_public_copy.Bitmap.{bm_find_next}
use file_system_public_copy.FileSystem.{FileSystem}
use file_system_public_copy.Inode.{
  inode_read, inode_write, inode_findsector, inode_alloc, inode_setsize, medium_filesys_size,
}

pub record Filev6 : Type 0 where
  pub i_number : ℕ
  pub i_node : Inode
  pub offset : ℕ

-- `struct filev6 f = {0}`.
abbrev pub zero_filev6 : Filev6
zero_filev6 = record { i_number = 0; i_node = zero_inode; offset = 0 }

unfoldable pub filev6_open : FileSystem → ℕ → Result Filev6
filev6_open u inr =
    inode_read u inr >>= λ inode. ok (record { i_number = inr; i_node = inode; offset = 0 })

-- The bytes put into `buf`; their number is what C returns. An offset past the end of the file would
-- make the length of the copy negative.
unfoldable pub filev6_readblock : FileSystem → Filev6 → Result (List ℕ) × Filev6
filev6_readblock u fv6 =
    let size = inode_getsize fv6.i_node in
    if fv6.offset == size
    then (ok [], fv6)
    else elim (inode_findsector u fv6.i_node (fv6.offset / sector_size)) [
      | err n ↦ (err n, fv6)
      | fault ↦ (fault, fv6)
      | ok sector_on_disk ↦ elim (sector_read u.f sector_on_disk) [
        | err n ↦ (err n, fv6)
        | fault ↦ (fault, fv6)
        | ok sector_buf ↦
            if ltb size fv6.offset
            then (fault, fv6)
            else if leb (size - fv6.offset) sector_size
            then (ok (slice sector_buf 0 (size - fv6.offset)), record fv6 { offset = size })
            else (
              ok (slice sector_buf 0 sector_size),
              record fv6 { offset = fv6.offset + sector_size },
            )
      ]
    ]

-- `offset` is the bit pattern of an `int32_t`.
unfoldable pub filev6_lseek : Filev6 → ℕ → Result ℕ × Filev6
filev6_lseek fv6 offset =
    let size = inode_getsize fv6.i_node in
    if ltb size offset || leb (2 ^ 31) offset
    then (err offset_out_of_range, fv6)
    else if not (offset == size) && not (offset % sector_size == 0)
    then (err bad_parameter, fv6)
    else (ok 0, record fv6 { offset = offset })

-- The fields of `fv6` other than those set here stay, those of its inode too.
unfoldable pub filev6_create : FileSystem → ℕ → Filev6 → Result ℕ × Filev6 × FileSystem
filev6_create u mode fv6 =
    let (status, u') = inode_alloc u in
    elim status [
      | err n ↦ (err n, fv6, u')
      | fault ↦ (fault, fv6, u')
      | ok inr ↦
          let node = record fv6.i_node { i_mode = bit_or mode ialloc } in
          let fv6' : Filev6 = record { i_number = u16 inr; i_node = node; offset = 0 } in
          let (write, u'') = inode_write u' (u16 inr) node in (write, fv6', u'')
    ]

-- What the two functions below return: a status, the open file and the file system.
abbrev pub Written : Type 0
Written = Result ℕ × Filev6 × FileSystem

-- The end of `filev6_writesector`: the sector's address goes into the inode, at an index that is
-- computed from the new size. Past the eight addresses C writes out of the array.
unfoldable pub link_sector : FileSystem → Filev6 → ℕ → Written
link_sector u fv6 free_sector =
    let index = inode_getsize fv6.i_node / sector_size in
    let node = record fv6.i_node { i_addr = set fv6.i_node.i_addr index (u16 free_sector) } in
    let fv6' = record fv6 { i_node = node } in
    let (error, u') = inode_write u fv6.i_number node in
    if leb 8 index then (fault, fv6, u) else (error, fv6', u')

-- `junk` is what the array on the stack, of one sector, holds before the copy. C copies more than a
-- sector out of it.
unfoldable pub filev6_writesector : Buffer → FileSystem → Filev6 → Buffer → ℕ → ℕ → Written
unfolding link_sector memcpy
filev6_writesector junk u fv6 buf len_to_write file_size =
    let (found, fbm) = bm_find_next u.fbm in
    let u' = record u { fbm = fbm } in
    elim found [
      | err n ↦ (err n, fv6, u')
      | fault ↦ (fault, fv6, u')
      | ok free_sector ↦
          let (write, f') = sector_write u.f free_sector (memcpy junk 0 len_to_write buf) in
          let u'' = record u' { f = f' } in
          if ltb sector_size len_to_write then (fault, fv6, u') else elim write [
            | err n ↦ (err n, fv6, u'')
            | fault ↦ (fault, fv6, u'')
            | ok _ ↦
                let (error, node) = inode_setsize fv6.i_node (u32 (file_size + len_to_write)) in
                let fv6' = record fv6 { i_node = node } in
                elim error [
                  | err n ↦ (err n, fv6', u'')
                  | fault ↦ (fault, fv6', u'')
                  | ok _ ↦ link_sector u'' fv6' free_sector
                ]
          ]
    ]

-- The size is stored, and the inode is written whatever `inode_setsize` says.
unfoldable pub store_size : FileSystem → Filev6 → ℕ → Written
store_size u fv6 new_size =
    let (set', node) = inode_setsize fv6.i_node (u32 new_size) in
    let (_, u') = inode_write u fv6.i_number node in (set', record fv6 { i_node = node }, u')

unfoldable pub filev6_writesector_residual : FileSystem → Filev6 → Buffer → ℕ → ℕ → ℕ → ℕ → Written
unfolding store_size memcpy
filev6_writesector_residual u fv6 buf len_to_write size_in_sectors residual inode_size =
    elim (inode_findsector u fv6.i_node (u32 (size_in_sectors - 1))) [
      | err n ↦ (err n, fv6, u)
      | fault ↦ (fault, fv6, u)
      | ok last_sector ↦ elim (sector_read u.f last_sector) [
        | err n ↦ (err n, fv6, u)
        | fault ↦ (fault, fv6, u)
        | ok buffer ↦
            let (write, f') =
              sector_write u.f last_sector (memcpy buffer residual len_to_write buf) in
            let u' = record u { f = f' } in
            elim write [
              | err n ↦ (err n, fv6, u')
              | fault ↦ (fault, fv6, u')
              | ok _ ↦ store_size u' fv6 (inode_size + len_to_write)
            ]
      ]
    ]

-- The `while` loop of `filev6_writebytes`, with `written` bytes done and `total` to go; every round
-- takes a sector's worth, or what is left. `total / 512 + 1` rounds are enough.
unfoldable pub write_loop : ℕ → Buffer → FileSystem → Filev6 → Buffer → ℕ → ℕ → ℕ → Written
unfolding filev6_writesector
write_loop zero junk u fv6 buf inode_size written total = (ok 0, fv6, u)
write_loop (suc rounds) junk u fv6 buf inode_size written total =
    let min_size = if ltb sector_size total then sector_size else total in
    let out =
      filev6_writesector junk u fv6 (λ k. buf (written + k)) min_size (inode_size + written) in
    let next =
      write_loop rounds junk out.2 out.1 buf inode_size (written + min_size) (total - min_size) in
    if total == 0
    then (ok 0, fv6, u)
    else elim out.0 [ ok _ ↦ next | err n ↦ (err n, out.1, out.2) | fault ↦ (fault, out.1, out.2) ]

-- `(int) len`, or 0 for a negative number: the loop tests only whether it is positive.
abbrev pub int_len : ℕ → ℕ
int_len len = if ltb (u32 len) (2 ^ 31) then u32 len else 0

-- What `filev6_writesector_residual` returns is not looked at.
unfoldable pub filev6_writebytes : Buffer → FileSystem → Filev6 → Buffer → ℕ → Written
unfolding filev6_writesector_residual write_loop
filev6_writebytes junk u fv6 buf len =
    let inode_size = inode_getsize fv6.i_node in
    let size_in_sectors = inode_size / sector_size + 1 in
    let residual = inode_size % sector_size in
    let small = if ltb len (sector_size - residual) then len else sector_size - residual in
    let total = int_len len in
    let first = filev6_writesector_residual u fv6 buf small size_in_sectors residual inode_size in
    if ltb medium_filesys_size size_in_sectors
    then (err file_too_large, fv6, u)
    else if residual == 0
    then write_loop (total / sector_size + 1) junk u fv6 buf inode_size 0 total
    else elim first.0 [
      | fault ↦ (fault, first.1, first.2)
      | _ ↦
          write_loop (total / sector_size + 1) junk first.2 first.1 buf inode_size small
            (total - small)
    ]
