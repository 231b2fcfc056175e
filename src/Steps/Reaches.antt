-- ===== src/Steps/Reaches.antt =====
-- done/: sequences of the functions that change a mounted file system, in any order and with any
-- arguments for which C defines what they do.
use file_system_public_copy.Prelude.{ℕ, ◌^◌, ◌<◌, ◌≡◌, ◌≢◌, List, ok, fault, arith, inl, inr}
use file_system_public_copy.Stdio.{Buffer}
use file_system_public_copy.Layout.{Inode}
use file_system_public_copy.Bitmap.{bm_get}
use file_system_public_copy.Bitmap.Bits.{IsValid}
use file_system_public_copy.FileSystem.{FileSystem}
use file_system_public_copy.Inode.{inode_write, inode_alloc}
use file_system_public_copy.Inode.Alloc.{inode_alloc_lem}
use file_system_public_copy.Mount.Fill.{IsValidBoth}
use file_system_public_copy.File.{Filev6, filev6_create, filev6_writesector, filev6_writebytes}
use file_system_public_copy.Directory.Create.{direntv6_create, direntv6_addfile}
use file_system_public_copy.Command.{Host, run_command}
use file_system_public_copy.Steps.Follows.{
  Follows, Follows-refl, Follows-trans, Follows-inode_write, Follows-inode_alloc, Anything,
  MayGrow-Anything,
}
use file_system_public_copy.Steps.Writes.{Follows-create, Follows-writesector}
use file_system_public_copy.Steps.Bytes.{Follows-writebytes}
use file_system_public_copy.Steps.Entries.{
  Follows-direntv6_create, Follows-addfile, Follows-run_command,
}

-- One call of a function that changes the file system, which does nothing that C leaves undefined.
pub data Step (u : FileSystem) : FileSystem → Type 0 where
  writes_inode : (n : ℕ) (i : Inode) → (inode_write u n i).0 ≢ fault → Step u (inode_write u n i).1
  allocates : (inode_alloc u).0 ≢ fault → Step u (inode_alloc u).1
  creates :
      (mode : ℕ) (fv6 : Filev6)
      → (filev6_create u mode fv6).0 ≢ fault
      → Step u (filev6_create u mode fv6).2
  writes_sector :
      (junk : Buffer) (fv6 : Filev6) (buf : Buffer) (len size : ℕ)
      → (filev6_writesector junk u fv6 buf len size).0 ≢ fault
      → Step u (filev6_writesector junk u fv6 buf len size).2
  writes_bytes :
      (junk : Buffer) (fv6 : Filev6) (buf : Buffer) (len : ℕ)
      → (filev6_writebytes junk u fv6 buf len).0 ≢ fault
      → Step u (filev6_writebytes junk u fv6 buf len).2
  creates_entry :
      (junk : Buffer) (entry : List ℕ) (mode : ℕ)
      → (direntv6_create junk u entry mode).0 ≢ fault
      → Step u (direntv6_create junk u entry mode).1
  adds_file :
      (junk : Buffer) (entry : List ℕ) (mode : ℕ) (buf : Buffer) (size : ℕ)
      → (direntv6_addfile junk u entry mode buf size).0 ≢ fault
      → Step u (direntv6_addfile junk u entry mode buf size).1
  runs :
      (h : Host) (argv : List (List ℕ))
      → (run_command h u argv).1 ≢ fault
      → Step u (run_command h u argv).2

-- Any number of calls.
pub data Reaches (u : FileSystem) : FileSystem → Type 0 where
  here : Reaches u u
  next : {v w : FileSystem} → Reaches u v → Step v w → Reaches u w

Step-Follows : {u v : FileSystem} → IsValidBoth u → Step u v → Follows Anything u v
Step-Follows {u} b (writes_inode n i sound) = Follows-inode_write u n i b (MayGrow-Anything u) tt
Step-Follows {u} b (allocates sound) = Follows-inode_alloc u b
Step-Follows {u} b (creates mode fv6 sound) =
    Follows-create u mode fv6 b (MayGrow-Anything u) (λ n. tt)
Step-Follows {u} b (writes_sector junk fv6 buf len size sound) =
    Follows-writesector junk u fv6 buf len size b (MayGrow-Anything u) tt
Step-Follows {u} b (writes_bytes junk fv6 buf len sound) =
    Follows-writebytes junk u fv6 buf len b (MayGrow-Anything u) tt (λ r y h. tt)
Step-Follows {u} b (creates_entry junk entry mode sound) =
    Follows-direntv6_create junk u entry mode b
Step-Follows {u} b (adds_file junk entry mode buf size sound) =
    Follows-addfile junk u entry mode buf size b
Step-Follows {u} b (runs h argv sound) = Follows-run_command h u argv b

-- If both bitmaps of a file system are valid, then after any number of calls, in any order, with
-- any arguments and whether they succeed or return an error, as long as none of them is a fault,
-- of inode_write, inode_alloc, filev6_create, filev6_writesector, filev6_writebytes,
-- direntv6_create, direntv6_addfile and the commands of u6fs_do_one_cmd, the superblock is the
-- same, both bitmaps are valid, the data bitmap differs in its cursor at most, the inode bitmap
-- has its range and still has every number that was set, and every sector that could be read
-- still can.
pub Reaches-Follows : {u v : FileSystem} → IsValidBoth u → Reaches u v → Follows Anything u v
Reaches-Follows {u} b here = Follows-refl u b
Reaches-Follows b (next r s) =
    let a = Reaches-Follows b r in Follows-trans a (Step-Follows a.valid s)

-- A number that is set is not allocated.
pub alloc-ne :
    (v : FileSystem) (n : ℕ)
    → IsValid v.ibm
    → v.ibm.max < 2 ^ 31
    → bm_get v.ibm n ≡ ok 1
    → (inode_alloc v).0 ≢ ok n
alloc-ne v n valid small set h = elim (inode_alloc_lem v valid small).2 [
  | inl (x, e, _, free, _) ↦
      let same : x ≡ n = ground (arith, h, e) in ground (arith, free, same, set)
  | inr (e, _) ↦ ground (arith, h, e)
]

-- If both bitmaps of a file system are valid, the numbers of the inode bitmap are below 2 ^ 31,
-- and inode_alloc returns a number, then after any number of further calls of the functions that
-- change a file system, whether they succeed or return an error, as long as none of them is a
-- fault, inode_alloc does not return that number again.
pub alloc_once :
    {u v : FileSystem} (n : ℕ)
    → IsValidBoth u
    → u.ibm.max < 2 ^ 31
    → (inode_alloc u).0 ≡ ok n
    → Reaches (inode_alloc u).1 v
    → (inode_alloc v).0 ≢ ok n
alloc_once {u} {v} n b small first r =
    let u' = (inode_alloc u).1 in
    let a : Follows Anything u u' = Follows-inode_alloc u b in
    let c : Follows Anything u' v = Reaches-Follows a.valid r in
    let set : bm_get u'.ibm n ≡ ok 1 = elim (inode_alloc_lem u b.inodes small).2 [
      | inl (x, e, _, _, bits) ↦
          let same : x ≡ n = ground (arith, first, e) in ground (arith, bits n, same)
      | inr (e, _) ↦ absurd (ground (arith, first, e))
    ] in
    let max : v.ibm.max < 2 ^ 31 = omega (arith, small, a.range.1, c.range.1) in
    alloc-ne v n c.valid.inodes max (c.taken n set)
