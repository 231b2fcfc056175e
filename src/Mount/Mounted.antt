-- ===== src/Mount/Mounted.antt =====
-- done/mount.c: the file system after mountv6.
use file_system_public_copy.Prelude.{
  ℕ, ◌+◌, ◌*◌, ◌^◌, ◌≤◌, ◌<◌, ◌≡◌, ◌≢◌, inl, inr, sym, ap, arith, Bool, some, ok, err, ◌∙◌,
  Result-cases, Option-cases, Bool-cases, ◌&&◌, ◌==◌,
}
use file_system_public_copy.Errors.{unallocated_inode}
use file_system_public_copy.Stdio.{Buffer, File, fread_count}
use file_system_public_copy.Layout.{Superblock, decode_superblock}
use file_system_public_copy.Sector.{sector_offset, sector_read}
use file_system_public_copy.Bitmap.{Bitmap, bm_get, bm_alloc}
use file_system_public_copy.Bitmap.Bits.{IsValid, InRange-cases, bm_get-bad, bm_alloc-IsValid}
use file_system_public_copy.FileSystem.{FileSystem}
use file_system_public_copy.Inode.{inode_read, scanned_inr, scanned_rows}
use file_system_public_copy.Mount.{
  fill_rows, fill_bitmaps, mount_bitmaps, mountv6, bootblock_magic_num,
}
use file_system_public_copy.Mount.Grow.{Kept, Kept-fill_rows, inode_read_same}
use file_system_public_copy.Mount.Fill.{IsRecorded, IsValidBoth, IsValidBoth-Kept, fill_rows_lem}

-- A mounted file system on `f`: its bitmaps are valid and have the ranges that the superblock says;
-- they hold every visited inode that can be read and its sectors, and of the inodes no number that
-- `inode_read` calls unallocated.
pub record IsMounted (f : File) (u : FileSystem) : Type 0 where
  pub file : u.f ≡ f
  pub valid : IsValidBoth u
  pub inodes : (u.ibm.min ≡ 1) × (u.ibm.max ≡ u.s.s_isize * 16)
  pub sectors : (u.fbm.min ≡ u.s.s_block_start) × (u.fbm.max ≡ u.s.s_fsize)
  pub recorded : (row t : ℕ) → row < scanned_rows u.s → t < 16 → IsRecorded u (scanned_inr row t)
  pub only : (x : ℕ) → bm_get u.ibm x ≡ ok 1 → inode_read u x ≢ err unallocated_inode

-- A new vector has no bit set.
not_set :
    (b : Bitmap) (x : ℕ) → ((y : ℕ) → b.min ≤ y → y ≤ b.max → bm_get b y ≡ ok 0) → bm_get b x ≢ ok 1
not_set b x empty h = elim (InRange-cases b x) [
  | inl r ↦ absurd (ground (arith, h, empty x r.above r.below))
  | inr n ↦ absurd (ground (arith, h, bm_get-bad b x n))
]

-- Filling the bitmaps of a file system with new ones.
filled :
    (malloc : ℕ → Bool) (f : File) (s : Superblock) (fbm ibm : Bitmap) (status : ℕ)
    → s.s_isize < 2 ^ 16
    → s.s_fsize < 2 ^ 16
    → bm_alloc malloc 1 (s.s_isize * 16) ≡ some ibm
    → bm_alloc malloc s.s_block_start s.s_fsize ≡ some fbm
    → (fill_bitmaps (record { f = f; s = s; fbm = fbm; ibm = ibm })).0 ≡ ok status
    → IsMounted f (fill_bitmaps (record { f = f; s = s; fbm = fbm; ibm = ibm })).1
unfolding fill_bitmaps
filled malloc f s fbm ibm status isize fsize new_ibm new_fbm done = record {
  file = kept.file;
  valid = IsValidBoth-Kept kept valid;
  inodes = (
    kept.inodes.min_same ∙ i.1,
    kept.inodes.max_same ∙ i.2 ∙ ap (λ (t : Superblock). t.s_isize * 16) (sym kept.super),
  );
  sectors = (
    kept.sectors.min_same ∙ d.1 ∙ ap (λ (t : Superblock). t.s_block_start) (sym kept.super),
    kept.sectors.max_same ∙ d.2 ∙ ap (λ (t : Superblock). t.s_fsize) (sym kept.super),
  );
  recorded = λ row t h slot.
      fill_rows_lem u (scanned_rows s) 0 row t status valid done (omega arith)
        (omega (arith, h, ap scanned_rows kept.super)) slot;
  only = λ x h. elim (kept.only valid.inodes x h) [
    | inl old ↦
        absurd
          (not_set ibm x (λ y lo hi. i.3 y (omega (arith, lo, i.1)) (omega (arith, hi, i.2))) old)
    | inr used ↦ λ e. used (sym (inode_read_same u u' x kept.file kept.super) ∙ e)
  ];
}
  where
    u : FileSystem
    u = record { f = f; s = s; fbm = fbm; ibm = ibm }

    u' : FileSystem
    u' = (fill_rows u (scanned_rows s) 0).1

    kept : Kept u u'
    kept = Kept-fill_rows u (scanned_rows s) 0

    i :
        IsValid ibm
        × (ibm.min ≡ 1)
        × (ibm.max ≡ s.s_isize * 16)
        × ((x : ℕ) → 1 ≤ x → x ≤ s.s_isize * 16 → bm_get ibm x ≡ ok 0)
    i = bm_alloc-IsValid malloc 1 (s.s_isize * 16) (omega (arith, isize)) new_ibm

    d :
        IsValid fbm
        × (fbm.min ≡ s.s_block_start)
        × (fbm.max ≡ s.s_fsize)
        × ((x : ℕ) → s.s_block_start ≤ x → x ≤ s.s_fsize → bm_get fbm x ≡ ok 0)
    d = bm_alloc-IsValid malloc s.s_block_start s.s_fsize (omega (arith, fsize)) new_fbm

    valid : IsValidBoth u
    valid = record { sectors = d.0; inodes = i.0 }

mount_bitmaps_lem :
    (malloc : ℕ → Bool) (f : File) (s : Superblock) (u : FileSystem) (status : ℕ)
    → s.s_isize < 2 ^ 16
    → s.s_fsize < 2 ^ 16
    → mount_bitmaps malloc f s ≡ (ok status, some u)
    → IsMounted f u
unfolding mount_bitmaps
mount_bitmaps_lem malloc f s u status isize fsize done =
    elim (Option-cases (bm_alloc malloc 1 (s.s_isize * 16))) [
      | inl e ↦ absurd (ground (arith, done, e))
      | inr (ibm, e) ↦ elim (Option-cases (bm_alloc malloc s.s_block_start s.s_fsize)) [
        | inl e' ↦ absurd (ground (arith, done, e, e'))
        | inr (fbm, e') ↦
            let u0 : FileSystem = record { f = f; s = s; fbm = fbm; ibm = ibm } in
            elim (Result-cases (fill_bitmaps u0).0) [
              | inl (st, e'') ↦
                  let same : u ≡ (fill_bitmaps u0).1 = ground (arith, done, e, e', e'') in
                  rw same (filled malloc f s fbm ibm st isize fsize e e' e'')
              | inr (inl (_, e'')) ↦ absurd (ground (arith, done, e, e', e''))
              | inr (inr e'') ↦ absurd (ground (arith, done, e, e', e''))
            ]
      ]
    ]

-- What a file of bytes has in a sector are bytes.
sector_bytes :
    (f : File) (n : ℕ) (b : Buffer)
    → ((k : ℕ) → f.byte k < 256)
    → sector_read f n ≡ ok b
    → (k : ℕ) → b k < 256
unfolding sector_read
sector_bytes f n b bytes h k =
    elim (Bool-cases (f.seekable && fread_count f (sector_offset n) 512 == 512)) [
      | inl e ↦
          let same : b ≡ (λ j. f.byte (sector_offset n + j)) = ground (arith, h, e) in
          rw same (bytes (sector_offset n + k))
      | inr e ↦ absurd (ground (arith, h, e))
    ]

small_fields :
    (b : Buffer)
    → ((k : ℕ) → b k < 256)
    → ((decode_superblock b).s_isize < 2 ^ 16) × ((decode_superblock b).s_fsize < 2 ^ 16)
unfolding decode_superblock
small_fields b h = (omega (arith, h 0, h 1), omega (arith, h 2, h 3))

-- If the bytes of a file are below 256 and mountv6 of it returns a status of 0 or more and a file
-- system, then that file system is on the file; its two bitmaps are valid and have the ranges
-- that the superblock says; they hold every inode number visited by the scan of the inode table
-- that can be read and is in range, and, if the blocks of its file are located in readable
-- sectors, the numbers of those sectors that are in range; and no number is set in the inode
-- bitmap for which inode_read returns ERR_UNALLOCATED_INODE.
pub mountv6_lem :
    (malloc : ℕ → Bool) (f : File) (u : FileSystem) (status : ℕ)
    → ((k : ℕ) → f.byte k < 256)
    → mountv6 malloc (some f) ≡ (ok status, some u)
    → IsMounted f u
unfolding mountv6
mountv6_lem malloc f u status bytes done = elim (Result-cases (sector_read f 0)) [
  | inr (inl (_, e)) ↦ absurd (ground (arith, done, e))
  | inr (inr e) ↦ absurd (ground (arith, done, e))
  | inl (table, e) ↦ elim (Bool-cases (table 0 == bootblock_magic_num)) [
    | inr bad ↦ absurd (ground (arith, done, e, bad))
    | inl good ↦ elim (Result-cases (sector_read f 1)) [
      | inr (inl (_, e')) ↦ absurd (ground (arith, done, e, good, e'))
      | inr (inr e') ↦ absurd (ground (arith, done, e, good, e'))
      | inl (block, e') ↦
          let small = small_fields block (sector_bytes f 1 block bytes e') in
          mount_bitmaps_lem malloc f (decode_superblock block) u status small.0 small.1
            (ground (arith, done, e, good, e'))
    ]
  ]
]
