-- ===== src/File/Sectors.antt =====
-- done/sector.c and done/inode.c, for the files above them: which sectors a write leaves alone.
use file_system_public_copy.Prelude.{
  ℕ, ◌+◌, ◌*◌, ◌/◌, ◌%◌, ◌<◌, ◌≡◌, ◌≢◌, sym, ap, arith, ok, err, ◌∙◌, get_or, if◌then◌else◌,
}
use file_system_public_copy.Errors.{unallocated_inode}
use file_system_public_copy.Stdio.{Buffer, File}
use file_system_public_copy.Layout.{Inode, ialloc, has_flag, inode_getsize, decode_inode}
use file_system_public_copy.Layout.Laws.{decode_ext}
use file_system_public_copy.Sector.{sector_write}
use file_system_public_copy.Sector.Laws.{IsReadable, sector_write-IsReadable, byte-sector_write}
use file_system_public_copy.FileSystem.{FileSystem}
use file_system_public_copy.Inode.{inode_read, inode_write, inode_index}
use file_system_public_copy.Inode.Store.{
  InTable, sector_of, new_block, table_bytes, inode_read_lem, inode_write_lem,
}
use file_system_public_copy.File.Content.{IsSmallFile, content}

-- Sector `y` has the same bytes in both files, and can be read in the second.
pub record SameSector (f f' : File) (y : ℕ) : Type 0 where
  pub readable : IsReadable f' y
  pub bytes : (k : ℕ) → k < 512 → f'.byte (y * 512 + k) ≡ f.byte (y * 512 + k)

pub SameSector-trans :
    {f g h : File} {y : ℕ} → SameSector f g y → SameSector g h y → SameSector f h y
SameSector-trans p q = record { readable = q.readable; bytes = λ k r. q.bytes k r ∙ p.bytes k r }

-- A write of one sector leaves the others.
pub SameSector-sector_write :
    (f : File) (x y : ℕ) (d : Buffer)
    → IsReadable f x
    → IsReadable f y
    → y ≢ x
    → SameSector f (sector_write f x d).1 y
SameSector-sector_write f x y d rx ry ne = record {
  readable = (sector_write-IsReadable f x y d rx ry).1;
  bytes = λ k h. ground (arith, byte-sector_write f x y k d rx ry h, ne);
}

-- A write of an inode leaves every sector but the inode's.
pub SameSector-inode_write :
    (u : FileSystem) (n : ℕ) (i : Inode) (y : ℕ)
    → InTable u n
    → IsReadable u.f y
    → y ≢ sector_of u n
    → SameSector u.f (inode_write u n i).1.f y
SameSector-inode_write u n i y t ry ne =
    rw (inode_write_lem u n i t)
      (SameSector-sector_write u.f (sector_of u n) y (new_block u n i) t.readable ry ne)

-- An inode whose sector stays reads as before.
pub inode_read-SameSector :
    (u u' : FileSystem) (m : ℕ)
    → u'.s ≡ u.s
    → InTable u m
    → SameSector u.f u'.f (sector_of u m)
    → InTable u' m × (inode_read u' m ≡ inode_read u m)
inode_read-SameSector u u' m super t same = (
  t',
  inode_read_lem u' m t'
      ∙ ap (λ (i : Inode). if has_flag i.i_mode ialloc then ok i else err unallocated_inode) decoded
      ∙ sym (inode_read_lem u m t),
)
  where
    t' : InTable u' m
    t' = record {
      start_small = rw super t.start_small;
      size_small = rw super t.size_small;
      used = t.used;
      in_table = rw super t.in_table;
      readable = rw super same.readable;
    }

    place : sector_of u' m ≡ sector_of u m
    place = rw super

    decoded :
        decode_inode (table_bytes u' m) (inode_index m)
        ≡ decode_inode (table_bytes u m) (inode_index m)
    decoded =
        decode_ext (table_bytes u' m) (table_bytes u m) (inode_index m)
          λ q lo hi. ap (λ y. u'.f.byte (y * 512 + q)) place ∙ same.bytes q (omega (arith, hi))

-- A small file whose sectors stay is still one, with the same bytes.
pub IsSmallFile-SameSector :
    (u u' : FileSystem) (i : Inode)
    → IsSmallFile u i
    → ((k : ℕ) → k * 512 < inode_getsize i → SameSector u.f u'.f (get_or i.i_addr k 0))
    → IsSmallFile u' i
      × ((p : ℕ)
          → p < inode_getsize i
          → content u' (λ k. get_or i.i_addr k 0) p ≡ content u (λ k. get_or i.i_addr k 0) p)
IsSmallFile-SameSector u u' i file same = (
  record { allocated = file.allocated; small = file.small; blocks = λ k h. (same k h).readable },
  λ p h. (same (p / 512) (omega arith)).bytes (p % 512) (omega arith),
)
