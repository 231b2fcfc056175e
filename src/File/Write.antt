-- ===== src/File/Write.antt =====
-- done/filev6.c: filev6_writesector.
use file_system_public_copy.Prelude.{
  ℕ, ltb, false, ◌+◌, ◌*◌, ◌/◌, ◌≤◌, ◌<◌, ◌≡◌, ap, arith, set, ok, ◌∙◌, u32,
}
use file_system_public_copy.Stdio.{Buffer, memcpy, memcpy_inside}
use file_system_public_copy.Layout.{inode_getsize}
use file_system_public_copy.Layout.Laws.{getsize_addr}
use file_system_public_copy.Sector.Laws.{sector_write-IsReadable}
use file_system_public_copy.Bitmap.{bm_find_next}
use file_system_public_copy.Bitmap.Bits.{InRange}
use file_system_public_copy.Bitmap.Find.{find-ok}
use file_system_public_copy.FileSystem.{FileSystem}
use file_system_public_copy.Inode.{inode_read, inode_write}
use file_system_public_copy.Inode.Size.{setsize-ok}
use file_system_public_copy.File.{Filev6, Written, filev6_writesector, link_sector}
use file_system_public_copy.File.Ready.{
  IsReady, sized, linked, with_sector, stored, node'-addr, bytes_kept, fbm_kept, after-IsReady,
}

-- The steps of `filev6_writesector`, where none fails.
pub writesector_run :
    (junk : Buffer) (u : FileSystem) (fv6 : Filev6) (buf : Buffer) (len file_size x : ℕ)
    → IsReady u fv6
    → (bm_find_next u.fbm).0 ≡ ok x
    → file_size + len < 8 * 512
    → len ≤ 512
    → filev6_writesector junk u fv6 buf len file_size ≡ (
        let node = linked fv6 (file_size + len) x in
        let (status, u') =
          inode_write (with_sector u x (memcpy junk 0 len buf)) fv6.i_number node in
        (status, record fv6 { i_node = node }, u'))
unfolding filev6_writesector link_sector
writesector_run junk u fv6 buf len file_size x r found small fits =
    let e : u32 (file_size + len) ≡ file_size + len = omega arith in
    let so = setsize-ok fv6.i_node (file_size + len) (omega arith) in
    let free = (find-ok u.fbm x r.fbm_valid (omega (arith, r.fbm_small)) found).0 in
    let w =
      sector_write-IsReadable u.f x x (memcpy junk 0 len buf) (r.sectors x free)
        (r.sectors x free) in
    let short : ltb 512 len ≡ false = ground (arith, fits) in
    ground (arith, found, w.0, e, so.0, so.1, short)

-- What `filev6_writesector` has done: the status, the size, the addresses, the stored inode, the
-- bytes of the sector, and the data bitmap.
abbrev pub IsAppended : FileSystem → Filev6 → Buffer → ℕ → ℕ → ℕ → Written → Type 0
IsAppended u fv6 buf len file_size x out =
    (out.0 ≡ ok 0)
    × (inode_getsize out.1.i_node ≡ file_size + len)
    × (out.1.i_node.i_addr ≡ set fv6.i_node.i_addr ((file_size + len) / 512) x)
    × (inode_read out.2 fv6.i_number ≡ ok out.1.i_node)
    × ((k : ℕ) → k < len → out.2.f.byte (x * 512 + k) ≡ buf k)
    × (out.2.fbm ≡ (bm_find_next u.fbm).1)

-- If the file system can take a write to an open file, the search of the data bitmap gives sector
-- x, the new size is below 4096 and at most 512 bytes are written, then filev6_writesector
-- returns ERR_NONE; the size is the old one and the length; the address x is stored at the index
-- of the block in which the new end lies; the stored inode reads back as that of the open file;
-- the bytes are at the start of sector x; and the data bitmap is left as the search left it, x
-- not set.
pub writesector_lem :
    (junk : Buffer) (u : FileSystem) (fv6 : Filev6) (buf : Buffer) (len file_size x : ℕ)
    → IsReady u fv6
    → (bm_find_next u.fbm).0 ≡ ok x
    → file_size + len < 8 * 512
    → len ≤ 512
    → IsAppended u fv6 buf len file_size x (filev6_writesector junk u fv6 buf len file_size)
writesector_lem junk u fv6 buf len file_size x r found small short =
    rw (writesector_run junk u fv6 buf len file_size x r found small short) (
      w.0,
      getsize_addr (sized fv6 n) (linked fv6 n x).i_addr
          ∙ (setsize-ok fv6.i_node n (omega arith)).1,
      node'-addr u fv6 n x block r free small,
      w.1,
      λ k h.
          bytes_kept u fv6 n x block r free small k (omega arith)
          ∙ ap block (omega arith)
          ∙ memcpy_inside junk buf 0 len k h,
      fbm_kept u fv6 n x block r free small,
    )
  where
    n : ℕ
    n = file_size + len

    block : Buffer
    block = memcpy junk 0 len buf

    free : InRange u.fbm x
    free = (find-ok u.fbm x r.fbm_valid (omega (arith, r.fbm_small)) found).0

    w :
        ((inode_write (with_sector u x block) fv6.i_number (linked fv6 n x)).0 ≡ ok 0)
        × (inode_read
              (inode_write (with_sector u x block) fv6.i_number (linked fv6 n x)).1
              fv6.i_number
            ≡ ok (linked fv6 n x))
    w = stored u fv6 n x block r free small

-- If the file system can take a write to an open file, the search of the data bitmap gives a
-- sector, the new size is below 4096 and at most 512 bytes are written, then after filev6_writesector it can take another write
-- to it.
pub writesector-IsReady :
    (junk : Buffer) (u : FileSystem) (fv6 : Filev6) (buf : Buffer) (len file_size x : ℕ)
    → IsReady u fv6
    → (bm_find_next u.fbm).0 ≡ ok x
    → file_size + len < 8 * 512
    → len ≤ 512
    → let (_, fv6', u') = filev6_writesector junk u fv6 buf len file_size in IsReady u' fv6'
writesector-IsReady junk u fv6 buf len file_size x r found small short =
    rw (writesector_run junk u fv6 buf len file_size x r found small short)
      (after-IsReady u fv6 (file_size + len) x (memcpy junk 0 len buf) r free small)
  where
    free : InRange u.fbm x
    free = (find-ok u.fbm x r.fbm_valid (omega (arith, r.fbm_small)) found).0
