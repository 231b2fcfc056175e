-- ===== src/Steps/Safe.antt =====
-- done/filev6.c: what filev6_writebytes never writes.
use file_system_public_copy.Prelude.{
  ℕ, ◌/◌, ◌%◌, ◌^◌, ◌<◌, ◌≡◌, ◌≢◌, ◌⊎◌, refl, arith, ok, inl, inr, sym, ap, ◌∙◌, u32,
}
use file_system_public_copy.Stdio.{Buffer}
use file_system_public_copy.Layout.{Inode, inode_getsize}
use file_system_public_copy.Layout.Laws.{IsInode, getsize_sum}
use file_system_public_copy.Sector.Laws.{IsReadable}
use file_system_public_copy.Bitmap.{bm_get}
use file_system_public_copy.Bitmap.Bits.{InRange-cases, bm_get-bad}
use file_system_public_copy.FileSystem.{FileSystem}
use file_system_public_copy.Inode.{inode_findsector, target_sector}
use file_system_public_copy.Mount.Fill.{IsValidBoth}
use file_system_public_copy.File.{Filev6, filev6_writebytes}
use file_system_public_copy.File.Sectors.{SameSector}
use file_system_public_copy.Steps.Bytes.{Follows-writebytes}

-- The sectors that a write to an open file may change: that of its inode, the free data sectors, and
-- that of its last block if it is not full.
abbrev MayChange : FileSystem → Filev6 → ℕ → Type 0
MayChange u fv6 y =
    (y ≡ target_sector u.s fv6.i_number)
    ⊎ ((bm_get u.fbm y ≡ ok 0)
        ⊎ ((0 < inode_getsize fv6.i_node % 512)
            × (inode_findsector u fv6.i_node (inode_getsize fv6.i_node / 512) ≡ ok y)))

-- A sector that is found has a number of 16 bits.
findsector-lt :
    (u : FileSystem) (i : Inode) (k y : ℕ) → IsInode i → inode_findsector u i k ≡ ok y → y < 2 ^ 16
unfolding inode_findsector
findsector-lt u i k y v h = ground (arith, v.addr k)

free-lt : (u : FileSystem) (x : ℕ) → u.fbm.max < 2 ^ 23 → bm_get u.fbm x ≡ ok 0 → x % 2 ^ 23 ≡ x
free-lt u x small h = elim (InRange-cases u.fbm x) [
  | inl r ↦ omega (arith, r.below, small)
  | inr out ↦ ground (arith, h, bm_get-bad u.fbm x out)
]

-- If both bitmaps of a file system are valid, the numbers of the data bitmap are below 2 ^ 23,
-- and an open file has an inode whose fields fit their types and whose sector has a number below
-- 2 ^ 23, then filev6_writebytes to it, of any bytes and any length and whatever it returns,
-- leaves every readable sector readable and with its bytes that is not the sector of that inode,
-- has not the bit 0 in the data bitmap, and is not where inode_findsector finds the last block of
-- a file that ends within it.
pub writebytes_safe :
    (junk : Buffer) (u : FileSystem) (fv6 : Filev6) (buf : Buffer) (len y : ℕ)
    → IsValidBoth u
    → IsInode fv6.i_node
    → u.fbm.max < 2 ^ 23
    → target_sector u.s fv6.i_number < 2 ^ 23
    → IsReadable u.f y
    → y ≢ target_sector u.s fv6.i_number
    → bm_get u.fbm y ≢ ok 0
    → (0 < inode_getsize fv6.i_node % 512
        → inode_findsector u fv6.i_node (inode_getsize fv6.i_node / 512) ≢ ok y)
    → SameSector u.f (filev6_writebytes junk u fv6 buf len).2.f y
writebytes_safe junk u fv6 buf len y v i small table r own used last =
    (Follows-writebytes {may = MayChange u fv6} {own = λ n. n ≡ fv6.i_number} junk u fv6 buf len v
        (record {
          table = λ n o h.
              let e : target_sector u.s n % 2 ^ 23 ≡ target_sector u.s fv6.i_number =
                ground (arith, o, table) in
              inl e;
          free = λ x h. inr (inl (ap (bm_get u.fbm) (free-lt u x small h) ∙ h));
        })
        refl
        (λ part x h.
          let e : u32 (inode_getsize fv6.i_node / 512) ≡ inode_getsize fv6.i_node / 512 =
            omega (arith, getsize_sum fv6.i_node i.size1) in
          let found = sym (ap (inode_findsector u fv6.i_node) e) ∙ h in
          let low : x % 2 ^ 23 ≡ x = omega (arith, findsector-lt u fv6.i_node _ x i found) in
          inr (inr (part, found ∙ ap ok (sym low))))).same
      y r (λ m. elim m [ inl e ↦ own e | inr (inl e) ↦ used e | inr (inr (part, e)) ↦ last part e ])
