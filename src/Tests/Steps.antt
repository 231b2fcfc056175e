-- ===== src/Tests/Steps.antt =====
-- Sequences of changes: the theorems at inputs.
use file_system_public_copy.Prelude.{
  ◌^◌, ◌<◌, ◌≡◌, ◌≢◌, refl, arith, ok, fault, [], ◌∷◌, true, inl, inr,
}
use file_system_public_copy.Layout.{inode_getsize, has_flag}
use file_system_public_copy.Bitmap.{bm_get, bm_find_next}
use file_system_public_copy.Inode.{inode_alloc, inode_findsector}
use file_system_public_copy.File.{filev6_writebytes}
use file_system_public_copy.File.Content.{IsSmallFile-IsFile}
use file_system_public_copy.File.Sound.{address, IsSound-IsSmallFile}
use file_system_public_copy.File.Sectors.{SameSector}
use file_system_public_copy.Mount.Fill.{IsValidBoth}
use file_system_public_copy.Directory.{slash}
use file_system_public_copy.Directory.Create.{direntv6_create}
use file_system_public_copy.Directory.Created.{opened}
use file_system_public_copy.Directory.NewPath.{create-dirlookup}
use file_system_public_copy.FileSystem.{FileSystem}
use file_system_public_copy.Bitmap.Bits.{IsValid}
use file_system_public_copy.Inode.Alloc.{inode_alloc_lem}
use file_system_public_copy.Steps.Follows.{Follows, Anything}
use file_system_public_copy.Steps.Reaches.{
  Reaches, here, next, allocates, creates_entry, Reaches-Follows, alloc_once,
}
use file_system_public_copy.Steps.Mounted.{never_reused}
use file_system_public_copy.Steps.Safe.{writebytes_safe}
use file_system_public_copy.Tests.Directories.{reads_root}
use file_system_public_copy.Tests.Commands.{no_x_mounted}
use file_system_public_copy.Tests.Disk.{fs, disk_bytes, zeros, root_inode}
use file_system_public_copy.Tests.Mounts.{with_boot, mounted, mounts, reads_mounted}
use file_system_public_copy.Tests.Creation.{
  name_x, letters, root-IsInode, root-IsSound, root-IsOpen, four-IsNext, no_x,
}

both : IsValidBoth fs
both = omega arith

created : (direntv6_create zeros fs (slash ∷ name_x) 0o400).0 ≢ fault
created e =
    let made =
      create-dirlookup zeros fs 0o400 1 4 root_inode [] name_x (four-IsNext disk_bytes)
        (root-IsOpen disk_bytes reads_root) (omega arith) refl refl refl refl (omega arith) refl
        no_x in
    ground (arith, e, made.0)

alloc-ne_fault : (u : FileSystem) → IsValid u.ibm → u.ibm.max < 2 ^ 31 → (inode_alloc u).0 ≢ fault
alloc-ne_fault u v small e = elim (inode_alloc_lem u v small).2 [
  | inl (n, h, _, _, _) ↦ ground (arith, e, h)
  | inr (h, _) ↦ ground (arith, e, h)
]

one_step : Reaches fs (direntv6_create zeros fs (slash ∷ name_x) 0o400).1
one_step = next here (creates_entry zeros (slash ∷ name_x) 0o400 created)

two_steps : Reaches fs (inode_alloc (direntv6_create zeros fs (slash ∷ name_x) 0o400).1).1
two_steps =
    let f = Reaches-Follows both one_step in
    next one_step (allocates (alloc-ne_fault _ f.valid.inodes (omega (arith, f.range.1))))

Reaches-Follows_example :
    Follows Anything fs (inode_alloc (direntv6_create zeros fs (slash ∷ name_x) 0o400).1).1
Reaches-Follows_example = Reaches-Follows both two_steps

four : (inode_alloc fs).0 ≡ ok 4
unfolding inode_alloc bm_find_next
four = refl

alloc_once_example : (inode_alloc (inode_alloc fs).1).0 ≢ ok 4
alloc_once_example = alloc_once 4 both (omega arith) four here

created_mounted : (direntv6_create zeros mounted (slash ∷ name_x) 0o400).0 ≢ fault
created_mounted e =
    let made =
      create-dirlookup zeros mounted 0o400 1 4 root_inode [] name_x (four-IsNext with_boot.byte)
        (root-IsOpen with_boot.byte reads_mounted) (omega arith) refl refl refl refl (omega arith)
        refl no_x_mounted in
    ground (arith, e, made.0)

-- The file system mounted, and then with one more entry.
reached : Reaches mounted (direntv6_create zeros mounted (slash ∷ name_x) 0o400).1
reached = next here (creates_entry zeros (slash ∷ name_x) 0o400 created_mounted)

never_reused_example :
    ((inode_alloc (direntv6_create zeros mounted (slash ∷ name_x) 0o400).1).0 ≢ ok 1)
    × ((bm_find_next (direntv6_create zeros mounted (slash ∷ name_x) 0o400).1.fbm).0 ≢ ok 4)
unfolding inode_getsize
never_reused_example =
    never_reused (λ n. true) with_boot mounted
      (direntv6_create zeros mounted (slash ∷ name_x) 0o400).1 0 0 0 root_inode (address root_inode)
      0 (λ j. omega arith) mounts (omega arith) (omega arith) reached (omega arith) (omega arith)
      reads_mounted (record { above = omega arith; below = omega arith })
      (IsSmallFile-IsFile mounted root_inode
        (IsSound-IsSmallFile (root-IsSound with_boot.byte reads_mounted)))
      (omega arith) (record { above = omega arith; below = omega arith })

boot_sector_safe : bm_get fs.fbm 1 ≢ ok 0
unfolding bm_get
boot_sector_safe h = ground (arith, h)

writebytes_safe_example :
    SameSector fs.f (filev6_writebytes zeros fs (opened 1 root_inode) letters 20).2.f 1
unfolding inode_getsize inode_findsector has_flag
writebytes_safe_example =
    writebytes_safe zeros fs (opened 1 root_inode) letters 20 1 both root-IsInode (omega arith)
      (omega arith)
      (record { seeks = refl; sound = refl; inside = omega arith; small = omega arith })
      (λ e. absurd (omega (arith, e))) boot_sector_safe (λ p h. ground (arith, h))
