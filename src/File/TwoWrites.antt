-- ===== src/File/TwoWrites.antt =====
-- done/filev6.c: a data sector is written, and then the inode of the file.
use file_system_public_copy.Prelude.{
  ℕ, ◌+◌, ◌*◌, ◌/◌, ◌≤◌, ◌<◌, ◌≡◌, ◌≢◌, sym, ap, arith, true, ok, ◌∙◌, subst,
}
use file_system_public_copy.Stdio.{Buffer, File}
use file_system_public_copy.Layout.{Superblock, Inode, ialloc, has_flag}
use file_system_public_copy.Layout.Laws.{IsInode}
use file_system_public_copy.Sector.{sector_write}
use file_system_public_copy.Sector.Laws.{IsReadable, sector_write-IsReadable, byte-sector_write}
use file_system_public_copy.FileSystem.{FileSystem}
use file_system_public_copy.Inode.{inode_read, inode_write}
use file_system_public_copy.Inode.Store.{
  InTable, sector_of, new_block, inode_write_lem, inode_read-inode_write,
}
use file_system_public_copy.File.Sectors.{
  SameSector, SameSector-trans, SameSector-sector_write, SameSector-inode_write,
  inode_read-SameSector,
}

module _ (u u1 : FileSystem) (n x : ℕ) (block : Buffer) (node : Inode)
    (file : u1.f ≡ (sector_write u.f x block).1) (super : u1.s ≡ u.s) (table : InTable u n)
    (readable : IsReadable u.f x) (data' : u.s.s_inode_start + u.s.s_isize ≤ x)
    (valid : IsInode node) (flag : has_flag node.i_mode ialloc ≡ true) where
  abbrev pub u2 : FileSystem
  u2 = (inode_write u1 n node).1

  -- A table sector, after the first write.
  table_kept : (m : ℕ) → InTable u m → SameSector u.f u1.f (sector_of u m)
  table_kept m t =
      subst (λ f. SameSector u.f f (sector_of u m)) (sym file)
        (SameSector-sector_write u.f x (sector_of u m) block readable t.readable
          (omega (arith, data', t.in_table)))

  first : (m : ℕ) → InTable u m → InTable u1 m × (inode_read u1 m ≡ inode_read u m)
  first m t = inode_read-SameSector u u1 m super t (table_kept m t)

  x-IsReadable : IsReadable u1.f x
  x-IsReadable =
      subst (λ f. IsReadable f x) (sym file)
        (sector_write-IsReadable u.f x x block readable readable).1

  place : sector_of u1 n ≡ sector_of u n
  place = ap (λ t. n / 16 + t) (ap (λ (s : Superblock). s.s_inode_start) super)

  pub status : (inode_write u1 n node).0 ≡ ok 0
  status = (inode_read-inode_write u1 n n node (first n table).0 (first n table).0 valid flag).0

  pub inode_stored : inode_read u2 n ≡ ok node
  inode_stored =
      let w = inode_read-inode_write u1 n n node (first n table).0 (first n table).0 valid flag in
      ground (arith, w.1)

  pub inodes_kept : (m : ℕ) → InTable u m → m ≢ n → inode_read u2 m ≡ inode_read u m
  inodes_kept m t ne =
      let w = inode_read-inode_write u1 n m node (first n table).0 (first m t).0 valid flag in
      ground (arith, w.1, ne) ∙ (first m t).1

  -- The sector holds the block.
  pub block_stored : SameSector u1.f u2.f x
  block_stored =
      SameSector-inode_write u1 n node x (first n table).0 x-IsReadable
        (omega (arith, place, data', table.in_table))

  pub block_bytes : (k : ℕ) → k < 512 → u2.f.byte (x * 512 + k) ≡ block k
  block_bytes k h =
      block_stored.bytes k h
      ∙ ap (λ (f : File). f.byte (x * 512 + k)) file
      ∙ ground (arith, byte-sector_write u.f x x k block readable readable h)

  -- Every other data sector is as before.
  pub sectors_kept :
      (y : ℕ)
      → IsReadable u.f y
      → u.s.s_inode_start + u.s.s_isize ≤ y
      → y ≢ x
      → SameSector u.f u2.f y
  sectors_kept y ry above ne =
      let once : SameSector u.f u1.f y =
        subst (λ f. SameSector u.f f y) (sym file)
          (SameSector-sector_write u.f x y block readable ry ne) in
      SameSector-trans once (
        SameSector-inode_write u1 n node y (first n table).0 once.readable
          (omega (arith, place, above, table.in_table)))

  pub super_kept : u2.s ≡ u.s
  super_kept = ap (λ t. t.1.s) (inode_write_lem u1 n node (first n table).0) ∙ super

  pub IsReadable-kept : (y : ℕ) → IsReadable u.f y → IsReadable u2.f y
  IsReadable-kept y ry =
      let once : IsReadable u1.f y =
        subst (λ f. IsReadable f y) (sym file)
          (sector_write-IsReadable u.f x y block readable ry).1 in
      subst (λ t. IsReadable t.1.f y) (sym (inode_write_lem u1 n node (first n table).0))
        (sector_write-IsReadable u1.f (sector_of u1 n) y (new_block u1 n node)
          (first n table).0.readable once).1

  pub bitmap_kept : u2.fbm ≡ u1.fbm
  bitmap_kept = ap (λ t. t.1.fbm) (inode_write_lem u1 n node (first n table).0)
