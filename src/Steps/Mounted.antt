-- ===== src/Steps/Mounted.antt =====
-- done/mount.c with all that changes a file system: what was on the disk when it was mounted.
use file_system_public_copy.Prelude.{ℕ, ◌*◌, ◌^◌, ◌<◌, ◌≡◌, ◌≢◌, arith, Bool, some, ok, ap, ◌∙◌}
use file_system_public_copy.Stdio.{File}
use file_system_public_copy.Layout.{Inode, inode_getsize}
use file_system_public_copy.Bitmap.{Bitmap, bm_get, bm_find_next}
use file_system_public_copy.Bitmap.Bits.{IsValid, InRange}
use file_system_public_copy.Bitmap.Find.{find-ok}
use file_system_public_copy.FileSystem.{FileSystem}
use file_system_public_copy.Inode.{inode_read, inode_alloc, scanned_inr, scanned_rows}
use file_system_public_copy.Mount.{mountv6}
use file_system_public_copy.Mount.Mounted.{IsMounted, mountv6_lem}
use file_system_public_copy.File.Content.{IsFile}
use file_system_public_copy.Steps.Follows.{Follows, Anything}
use file_system_public_copy.Steps.Reaches.{Reaches, Reaches-Follows, alloc-ne}

find-ne :
    (b : Bitmap) (y : ℕ)
    → IsValid b
    → b.max < 2 ^ 31
    → bm_get b y ≡ ok 1
    → (bm_find_next b).0 ≢ ok y
find-ne b y valid small set h = ground (arith, find-ok b y valid small h, set)

-- If the bytes of a file are below 256 and mountv6 of it returns a status of 0 or more and a file
-- system, then, after any number of calls, in any order, with any arguments and whether they
-- succeed or return an error, as long as none of them is a fault, of the functions that change a
-- file system (inode_write, inode_alloc, filev6_create, filev6_writesector, filev6_writebytes,
-- direntv6_create, direntv6_addfile, and the commands of u6fs_do_one_cmd), inode_alloc never
-- returns the number of an inode that was in the part of the table that the mount scans, could be
-- read and was in range, and bm_find_next never returns a sector of such an inode, if the blocks
-- of its file were located in readable sectors and that sector was in range; the numbers of both
-- bitmaps are below 2 ^ 31.
pub never_reused :
    (malloc : ℕ → Bool) (f : File) (u v : FileSystem) (status row t : ℕ) (i : Inode) (addr : ℕ → ℕ)
    (k : ℕ)
    → ((j : ℕ) → f.byte j < 256)
    → mountv6 malloc (some f) ≡ (ok status, some u)
    → u.ibm.max < 2 ^ 31
    → u.fbm.max < 2 ^ 31
    → Reaches u v
    → row < scanned_rows u.s
    → t < 16
    → inode_read u (scanned_inr row t) ≡ ok i
    → InRange u.ibm (scanned_inr row t)
    → IsFile u i addr
    → k * 512 < inode_getsize i
    → InRange u.fbm (addr k)
    → ((inode_alloc v).0 ≢ ok (scanned_inr row t)) × ((bm_find_next v.fbm).0 ≢ ok (addr k))
unfolding bm_get
never_reused malloc f u v status row t i addr k bytes mounts imax fmax r below slot read inside file
      h q =
    let d : IsMounted f u = mountv6_lem malloc f u status bytes mounts in
    let g : Follows Anything u v = Reaches-Follows d.valid r in
    let recorded = d.recorded row t below slot in
    (
      alloc-ne v (scanned_inr row t) g.valid.inodes (omega (arith, imax, g.range.1))
          (g.taken _ (recorded.number i read inside)),
      find-ne v.fbm (addr k) g.valid.sectors
          (omega (arith, fmax, ap (λ (b : Bitmap). b.max) g.sectors))
          (ap (λ (b : Bitmap). bm_get b (addr k)) g.sectors
            ∙ recorded.blocks i read addr file k h q),
    )
