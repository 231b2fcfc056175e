-- ===== src/Steps/Follows.antt =====
-- done/sector.c, done/bmblock.c and done/inode.c: what every change of a file system keeps, and which
-- sectors it may write.
use file_system_public_copy.Prelude.{
  ℕ, ◌+◌, ◌*◌, ◌%◌, ◌^◌, ◌≡◌, ◌≢◌, refl, sym, ap, arith, false, ok, ◌∙◌, inl, inr, Bool-cases,
  Result-cases, ltb, subst, if◌then◌else◌,
}
use file_system_public_copy.Stdio.{Buffer, File, memcpy, memcpy_outside}
use file_system_public_copy.Layout.{Inode, encode_inode}
use file_system_public_copy.Sector.{sector_offset, sector_read, sector_write}
use file_system_public_copy.Sector.Laws.{IsReadable}
use file_system_public_copy.Bitmap.{Bitmap, bm_get, bm_set, scan_words, bm_find_next}
use file_system_public_copy.Bitmap.Bits.{
  IsValid, InRange-cases, bm_get-bm_set, bm_set-IsValid, bm_set_out,
}
use file_system_public_copy.Bitmap.Search.{Scanned, scan_words-Scanned, cursor-IsValid}
use file_system_public_copy.Bitmap.Find.{Moved}
use file_system_public_copy.FileSystem.{FileSystem}
use file_system_public_copy.Inode.{
  inode_write, inode_alloc, inode_index, inode_sizeb, target_sector, out_of_range,
}
use file_system_public_copy.Mount.Fill.{IsValidBoth}
use file_system_public_copy.File.Sectors.{SameSector, SameSector-trans}

-- A file system comes after another: the superblock is the same, of the data bitmap only the cursor
-- moved, the inode bitmap has its range and every number that was set, both vectors are valid, what
-- could be read still can, and every sector that may not be written has its bytes.
pub record Follows (may : ℕ → Type 0) (u u' : FileSystem) : Type 0 where
  pub super : u'.s ≡ u.s
  pub valid : IsValidBoth u'
  pub sectors : Moved u.fbm u'.fbm
  pub range : (u'.ibm.min ≡ u.ibm.min) × (u'.ibm.max ≡ u.ibm.max)
  pub taken : (x : ℕ) → bm_get u.ibm x ≡ ok 1 → bm_get u'.ibm x ≡ ok 1
  pub readable : (y : ℕ) → IsReadable u.f y → IsReadable u'.f y
  pub same : (y : ℕ) → IsReadable u.f y → ¬ may y → SameSector u.f u'.f y

pub Follows-refl : {may : ℕ → Type 0} (u : FileSystem) → IsValidBoth u → Follows may u u
Follows-refl u v = record {
  super = refl;
  valid = v;
  sectors = refl;
  range = (refl, refl);
  taken = λ x h. h;
  readable = λ y r. r;
  same = λ y r n. record { readable = r; bytes = λ k h. refl };
}

pub Follows-trans :
    {may : ℕ → Type 0} {u v w : FileSystem} → Follows may u v → Follows may v w → Follows may u w
Follows-trans {w} a b = record {
  super = b.super ∙ a.super;
  valid = b.valid;
  sectors = b.sectors ∙ ap (λ (c : Bitmap). record c { cursor = w.fbm.cursor }) a.sectors;
  range = (b.range.0 ∙ a.range.0, b.range.1 ∙ a.range.1);
  taken = λ x h. b.taken x (a.taken x h);
  readable = λ y r. b.readable y (a.readable y r);
  same = λ y r n. SameSector-trans (a.same y r n) (b.same y (a.readable y r) n);
}

-- A write of any sector leaves what could be read so, and the bytes of all other sectors; sector
-- numbers count modulo 2 ^ 23.
pub IsReadable-sector_write :
    (f : File) (n y : ℕ) (d : Buffer) → IsReadable f y → IsReadable (sector_write f n d).1 y
unfolding sector_write
IsReadable-sector_write f n y d r = ground arith

pub same-sector_write :
    (f : File) (n y : ℕ) (d : Buffer)
    → IsReadable f y
    → y ≢ n % 2 ^ 23
    → SameSector f (sector_write f n d).1 y
unfolding sector_write
same-sector_write f n y d r ne = record {
  readable = IsReadable-sector_write f n y d r;
  bytes = λ k h. elim (Bool-cases (f.damaged (sector_offset n))) [
    | inl e ↦ ground (arith, e)
    | inr e ↦
        rw (e, r.seeks)
          (memcpy_outside (λ q. if ltb q f.size then f.byte q else 0) d (sector_offset n) 512
              (y * 512 + k) (ground arith)
            ∙ ground arith)
  ];
}

-- A file system on whose file one sector was written.
pub Follows-sector_write :
    {may : ℕ → Type 0} (u : FileSystem) (n : ℕ) (d : Buffer)
    → IsValidBoth u
    → may (n % 2 ^ 23)
    → Follows may u (record u { f = (sector_write u.f n d).1 })
Follows-sector_write {may} u n d v m = record {
  super = refl;
  valid = record { sectors = v.sectors; inodes = v.inodes };
  sectors = refl;
  range = (refl, refl);
  taken = λ x h. h;
  readable = λ y r. IsReadable-sector_write u.f n y d r;
  same = λ y r no_write. same-sector_write u.f n y d r λ e. no_write (subst may (sym e) m);
}

-- The sectors of the inodes of certain numbers, with the wrap of `uint32_t`, and the free data sectors
-- may be written.
pub record MayGrow (may own : ℕ → Type 0) (u : FileSystem) : Type 0 where
  pub table : (n : ℕ) → own n → out_of_range u.s n ≡ false → may (target_sector u.s n % 2 ^ 23)
  pub free : (x : ℕ) → bm_get u.fbm x ≡ ok 0 → may (x % 2 ^ 23)

pub MayGrow-Follows :
    {may own : ℕ → Type 0} {u u' : FileSystem}
    → Follows may u u'
    → MayGrow may own u
    → MayGrow may own u'
unfolding bm_get
MayGrow-Follows {may} {own} {u} {u'} g m = record {
  table = rw g.super m.table;
  free = λ x h. m.free x (sym (ap (λ (b : Bitmap). bm_get b x) g.sectors) ∙ h);
}

-- Every sector may be written.
abbrev pub Anything : ℕ → Type 0
Anything y = Unit {0}

pub MayGrow-Anything : (u : FileSystem) → MayGrow Anything Anything u
MayGrow-Anything u = record { table = λ n o h. tt; free = λ x h. tt }

-- No write, or one of the inode's sector.
pub Follows-inode_write :
    {may own : ℕ → Type 0} (u : FileSystem) (n : ℕ) (i : Inode)
    → IsValidBoth u
    → MayGrow may own u
    → own n
    → Follows may u (inode_write u n i).1
unfolding inode_write
Follows-inode_write u n i v m o = elim (Bool-cases (out_of_range u.s n)) [
  | inl e ↦ rw e (Follows-refl u v)
  | inr e ↦ elim (Result-cases (sector_read u.f (target_sector u.s n))) [
    | inl (b, e') ↦
        rw (e, e')
          (Follows-sector_write u (target_sector u.s n)
            (memcpy b (inode_index n) inode_sizeb (encode_inode i)) v (m.table n o e))
    | inr (inl (_, e')) ↦ rw (e, e') (Follows-refl u v)
    | inr (inr e') ↦ rw (e, e') (Follows-refl u v)
  ]
]

-- A search, on any valid vector, only moves the cursor; what it finds is free.
pub bm_find_next-Moved :
    (b : Bitmap) → IsValid b → IsValid (bm_find_next b).1 × Moved b (bm_find_next b).1
unfolding bm_find_next
bm_find_next-Moved b v =
    let s : Scanned b b.cursor b.length 0 (scan_words b b.cursor b.length 0) =
      scan_words-Scanned b b.cursor b.length 0 v in
    (rw s.moved (cursor-IsValid v s.on_word), s.moved)

-- The search itself.
pub searched :
    {may : ℕ → Type 0} (u : FileSystem)
    → IsValidBoth u
    → Follows may u (record u { fbm = (bm_find_next u.fbm).1 })
searched u v =
    let (valid, moved) = bm_find_next-Moved u.fbm v.sectors in
    record {
      super = refl;
      valid = record { sectors = valid; inodes = v.inodes };
      sectors = moved;
      range = (refl, refl);
      taken = λ x h. h;
      readable = λ y r. r;
      same = λ y r n. record { readable = r; bytes = λ k h. refl };
    }

-- Setting a bit leaves the others.
taken-bm_set : (b : Bitmap) (n x : ℕ) → IsValid b → bm_get b x ≡ ok 1 → bm_get (bm_set b n) x ≡ ok 1
taken-bm_set b n x v h = elim (InRange-cases b n) [
  | inl r ↦ ground (arith, bm_get-bm_set b n x v r)
  | inr out ↦ rw (bm_set_out b n out).0 h
]

range-bm_set : (b : Bitmap) (n : ℕ) → ((bm_set b n).min ≡ b.min) × ((bm_set b n).max ≡ b.max)
unfolding bm_set
range-bm_set b n = ground arith

-- A new inode bitmap.
with_ibm :
    {may : ℕ → Type 0} (u : FileSystem) (b : Bitmap)
    → IsValidBoth u
    → IsValid b
    → (b.min ≡ u.ibm.min) × (b.max ≡ u.ibm.max)
    → ((x : ℕ) → bm_get u.ibm x ≡ ok 1 → bm_get b x ≡ ok 1)
    → Follows may u (record u { ibm = b })
with_ibm u b v valid range taken = record {
  super = refl;
  valid = record { sectors = v.sectors; inodes = valid };
  sectors = refl;
  range = range;
  taken = taken;
  readable = λ y r. r;
  same = λ y r n. record { readable = r; bytes = λ k h. refl };
}

pub Follows-inode_alloc :
    {may : ℕ → Type 0} (u : FileSystem) → IsValidBoth u → Follows may u (inode_alloc u).1
unfolding inode_alloc bm_get
Follows-inode_alloc u v =
    let b : Bitmap = (bm_find_next u.ibm).1 in
    let (valid, moved) = bm_find_next-Moved u.ibm v.inodes in
    let lo : b.min ≡ u.ibm.min = ap (λ (c : Bitmap). c.min) moved in
    let hi : b.max ≡ u.ibm.max = ap (λ (c : Bitmap). c.max) moved in
    let kept : (x : ℕ) → bm_get u.ibm x ≡ ok 1 → bm_get b x ≡ ok 1 =
      λ x h. ap (λ (c : Bitmap). bm_get c x) moved ∙ h in
    elim (Result-cases (bm_find_next u.ibm).0) [
      | inl (n, e) ↦
          rw (e, inode_alloc)
            (with_ibm u (bm_set b n) v (bm_set-IsValid n valid)
              ((range-bm_set b n).0 ∙ lo, (range-bm_set b n).1 ∙ hi)
              (λ x h. taken-bm_set b n x valid (kept x h)))
      | inr (inl (n, e)) ↦ rw (e, inode_alloc) (with_ibm u b v valid (lo, hi) kept)
      | inr (inr e) ↦ rw (e, inode_alloc) (Follows-refl u v)
    ]
