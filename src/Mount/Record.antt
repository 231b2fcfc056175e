-- ===== src/Mount/Record.antt =====
-- done/mount.c: write_sector_on_bitmap and the sectors of a file.
use file_system_public_copy.Prelude.{
  ℕ, zero, suc, ◌+◌, ◌*◌, ◌/◌, ◌≤◌, ◌<◌, ◌≡◌, sym, arith, ok, ◌∙◌, ℕ_discrete, subst,
}
use file_system_public_copy.Layout.{Inode, inode_getsize}
use file_system_public_copy.Bitmap.{Bitmap, bm_set, bm_get}
use file_system_public_copy.Bitmap.Bits.{IsValid, InRange, bm_get-bm_set}
use file_system_public_copy.Sector.Laws.{IsReadable}
use file_system_public_copy.FileSystem.{FileSystem}
use file_system_public_copy.Inode.{inode_findsector, inode_findsector_bigfile}
use file_system_public_copy.File.Content.{IsFile}
use file_system_public_copy.Mount.{set_fbm, mark_sectors, write_sector_on_bitmap}
use file_system_public_copy.Mount.Grow.{
  Grown, Grown-bm_set, Kept, Kept-set_fbm, Kept-mark_sectors, with_addresses, Kept-with_addresses,
  write_sector_on_bitmap_run,
}

findsector_same :
    (u v : FileSystem) (i : Inode) (k : ℕ)
    → v.f ≡ u.f
    → inode_findsector v i k ≡ inode_findsector u i k
unfolding inode_findsector inode_findsector_bigfile
findsector_same u v i k file = rw file

-- Where the blocks of a file are does not depend on the bitmaps.
pub IsFile-Kept :
    {u v : FileSystem} {i : Inode} {addr : ℕ → ℕ} → Kept u v → IsFile v i addr → IsFile u i addr
IsFile-Kept {u} {v} {i} {addr} kept file = record {
  located = λ k h. sym (findsector_same u v i k kept.file) ∙ file.located k h;
  readable = λ k h. subst (λ f. IsReadable f (addr k)) kept.file (file.readable k h);
}

pub IsFile-Kept' :
    {u v : FileSystem} {i : Inode} {addr : ℕ → ℕ} → Kept u v → IsFile u i addr → IsFile v i addr
IsFile-Kept' {u} {v} {i} {addr} kept file = record {
  located = λ k h. findsector_same u v i k kept.file ∙ file.located k h;
  readable = λ k h. subst (λ f. IsReadable f (addr k)) (sym kept.file) (file.readable k h);
}

pub InRange-Grown : {b c : Bitmap} {x : ℕ} → Grown b c → InRange b x → InRange c x
InRange-Grown g r = record {
  above = omega (arith, g.min_same, r.above);
  below = omega (arith, g.max_same, r.below);
}

pub Grown-InRange : {b c : Bitmap} {x : ℕ} → Grown b c → InRange c x → InRange b x
Grown-InRange g r = record {
  above = omega (arith, g.min_same, r.above);
  below = omega (arith, g.max_same, r.below);
}

pub bm_set_self : (b : Bitmap) (x : ℕ) → IsValid b → InRange b x → bm_get (bm_set b x) x ≡ ok 1
bm_set_self b x v r = ground (arith, bm_get-bm_set b x x v r)

-- The loop over the blocks, from one that is located, reaches block `k`.
mark_reaches :
    (rounds : ℕ) (inode : Inode) (u : FileSystem) (x at k : ℕ) (addr : ℕ → ℕ)
    → IsFile u inode addr
    → IsValid u.fbm
    → k * 512 < inode_getsize inode
    → at ≤ k
    → k + 2 ≤ rounds + at
    → InRange u.fbm (addr k)
    → bm_get (mark_sectors rounds inode u (ok x) at).1.fbm (addr k) ≡ ok 1
unfolding mark_sectors
mark_reaches zero inode u x at k addr file v h le enough r = absurd (omega (arith, le, enough))
mark_reaches (suc zero) inode u x at k addr file v h le enough r =
    absurd (omega (arith, le, enough))
mark_reaches (suc (suc rounds)) inode u x at k addr file v h le enough r =
    subst
      (λ found. bm_get (mark_sectors (suc rounds) inode u' found (at + 1)).1.fbm (addr k) ≡ ok 1)
      (sym (file'.located at (omega (arith, h, le))))
      (elim (ℕ_discrete at k) [
        | yes e ↦
            let u'' = set_fbm u' (addr at) in
            let last =
              Kept-mark_sectors rounds inode u'' (inode_findsector u'' inode (at + 1))
                (at + 1 + 1) in
            last.sectors.keeps ((Grown-bm_set u'.fbm (addr at)).valid v') (addr k)
              (rw e (bm_set_self u'.fbm (addr k) v' r'))
        | no ne ↦
            mark_reaches (suc rounds) inode u' (addr at) (at + 1) k addr file' v' h
              (omega (arith, le, ne)) (omega (arith, enough)) r'
      ])
  where
    u' : FileSystem
    u' = set_fbm u x

    file' : IsFile u' inode addr
    file' = IsFile-Kept' (Kept-set_fbm u x) file

    v' : IsValid u'.fbm
    v' = (Grown-bm_set u.fbm x).valid v

    r' : InRange u'.fbm (addr k)
    r' = InRange-Grown (Grown-bm_set u.fbm x) r

-- If the blocks of a file are located in readable sectors and the data bitmap is valid, then
-- after write_sector_on_bitmap the bit of the sector of each of its blocks is 1, if that sector
-- is in range.
pub write_sector_on_bitmap_lem :
    (inode : Inode) (u : FileSystem) (addr : ℕ → ℕ) (k : ℕ)
    → IsFile u inode addr
    → IsValid u.fbm
    → k * 512 < inode_getsize inode
    → InRange u.fbm (addr k)
    → bm_get (write_sector_on_bitmap inode u).1.fbm (addr k) ≡ ok 1
write_sector_on_bitmap_lem inode u addr k file v h r =
    let u' = with_addresses inode u in
    let kept = Kept-with_addresses inode u in
    let file' = IsFile-Kept' kept file in
    rw (write_sector_on_bitmap_run inode u) (
      subst
        (λ found.
          bm_get (mark_sectors (inode_getsize inode / 512 + 1 + 3) inode u' found 0).1.fbm (addr k)
          ≡ ok 1)
        (sym (file'.located 0 (omega (arith, h))))
        (mark_reaches (inode_getsize inode / 512 + 1 + 3) inode u' (addr 0) 0 k addr file'
          (kept.sectors.valid v) h (omega arith) (omega (arith, h)) (InRange-Grown kept.sectors r)))
