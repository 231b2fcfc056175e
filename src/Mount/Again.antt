-- ===== src/Mount/Again.antt =====
-- done/mount.c: mountv6 of a disk that was mounted before and changed since.
use file_system_public_copy.Prelude.{
  ℕ, ◌+◌, ◌*◌, ◌^◌, ◌<◌, ◌≡◌, inl, inr, refl, sym, ap, arith, Bool, true, some, Result, ok, err,
  fault, ◌∙◌, Result-cases, Option-cases, Bool-cases, ◌==◌,
}
use file_system_public_copy.Stdio.{Buffer, File}
use file_system_public_copy.Layout.{Superblock, decode_superblock, u16_at}
use file_system_public_copy.Sector.{sector_read}
use file_system_public_copy.Sector.Laws.{IsReadable, sector_read_lem}
use file_system_public_copy.Bitmap.{Bitmap, bm_alloc}
use file_system_public_copy.FileSystem.{FileSystem}
use file_system_public_copy.Inode.{scanned_inr, scanned_rows}
use file_system_public_copy.Mount.{
  fill_rows, fill_bitmaps, mount_bitmaps, mountv6, bootblock_magic_num,
}
use file_system_public_copy.Mount.Grow.{Kept, Kept-fill_rows}
use file_system_public_copy.Mount.Small.{IsFreeOrSmall, IsFreeOrSmall-same, fill_rows-ok}
use file_system_public_copy.File.Sectors.{SameSector}

-- What mountv6 had for its result.
pub record Parts (malloc : ℕ → Bool) (f : File) (u : FileSystem) : Type 0 where
  pub table : Buffer
  pub block : Buffer
  pub ibm : Bitmap
  pub fbm : Bitmap
  pub boot : sector_read f 0 ≡ ok table
  pub magic : (table 0 == bootblock_magic_num) ≡ true
  pub superblock : sector_read f 1 ≡ ok block
  pub inodes : bm_alloc malloc 1 ((decode_superblock block).s_isize * 16) ≡ some ibm
  pub sectors :
      bm_alloc malloc (decode_superblock block).s_block_start (decode_superblock block).s_fsize
      ≡ some fbm
  pub file : u.f ≡ f
  pub super : u.s ≡ decode_superblock block
  pub filled :
      u
      ≡ (fill_rows
          (record { f = f; s = decode_superblock block; fbm = fbm; ibm = ibm })
          (scanned_rows (decode_superblock block))
          0).1

-- The bitmaps, once the superblock is read.
bitmaps-Parts :
    (malloc : ℕ → Bool) (f : File) (u : FileSystem) (status : ℕ) (table block : Buffer)
    → sector_read f 0 ≡ ok table
    → (table 0 == bootblock_magic_num) ≡ true
    → sector_read f 1 ≡ ok block
    → mount_bitmaps malloc f (decode_superblock block) ≡ (ok status, some u)
    → Parts malloc f u
unfolding mount_bitmaps fill_bitmaps
bitmaps-Parts malloc f u status table block boot magic super done =
    elim (Option-cases (bm_alloc malloc 1 (s.s_isize * 16))) [
      | inl e ↦ absurd (ground (arith, done, e))
      | inr (ibm, e) ↦ elim (Option-cases (bm_alloc malloc s.s_block_start s.s_fsize)) [
        | inl e' ↦ absurd (ground (arith, done, e, e'))
        | inr (fbm, e') ↦
            let u0 : FileSystem = record { f = f; s = s; fbm = fbm; ibm = ibm } in
            let kept : Kept u0 (fill_rows u0 (scanned_rows s) 0).1 =
              Kept-fill_rows u0 (scanned_rows s) 0 in
            let same : u ≡ (fill_rows u0 (scanned_rows s) 0).1 =
              elim (Result-cases (fill_rows u0 (scanned_rows s) 0).0) [
                | inl (st, e'') ↦ ground (arith, done, e, e', e'')
                | inr (inl (_, e'')) ↦ absurd (ground (arith, done, e, e', e''))
                | inr (inr e'') ↦ absurd (ground (arith, done, e, e', e''))
              ] in
            record {
              table = table;
              block = block;
              ibm = ibm;
              fbm = fbm;
              boot = boot;
              magic = magic;
              superblock = super;
              inodes = e;
              sectors = e';
              file = ap (λ (t : FileSystem). t.f) same ∙ kept.file;
              super = ap (λ (t : FileSystem). t.s) same ∙ kept.super;
              filled = same;
            }
      ]
    ]
  where
    s : Superblock
    s = decode_superblock block

pub mountv6-Parts :
    (malloc : ℕ → Bool) (f : File) (u : FileSystem) (status : ℕ)
    → mountv6 malloc (some f) ≡ (ok status, some u)
    → Parts malloc f u
unfolding mountv6
mountv6-Parts malloc f u status done = elim (Result-cases (sector_read f 0)) [
  | inr (inl (_, e)) ↦ absurd (ground (arith, done, e))
  | inr (inr e) ↦ absurd (ground (arith, done, e))
  | inl (table, e) ↦ elim (Bool-cases (table 0 == bootblock_magic_num)) [
    | inr bad ↦ absurd (ground (arith, done, e, bad))
    | inl good ↦ elim (Result-cases (sector_read f 1)) [
      | inr (inl (_, e')) ↦ absurd (ground (arith, done, e, good, e'))
      | inr (inr e') ↦ absurd (ground (arith, done, e, good, e'))
      | inl (block, e') ↦
          bitmaps-Parts malloc f u status table block e good e' (ground (arith, done, e, good, e'))
    ]
  ]
]

-- The bytes of the superblock's sector make the superblock.
superblock_ext :
    (b c : Buffer) → ((q : ℕ) → q < 512 → b q ≡ c q) → decode_superblock b ≡ decode_superblock c
unfolding decode_superblock
superblock_ext b c h = λ j. record {
  s_isize = word 0 (omega arith) j;
  s_fsize = word 2 (omega arith) j;
  s_fbmsize = word 4 (omega arith) j;
  s_ibmsize = word 6 (omega arith) j;
  s_inode_start = word 8 (omega arith) j;
  s_block_start = word 10 (omega arith) j;
  s_fbm_start = word 12 (omega arith) j;
  s_ibm_start = word 14 (omega arith) j;
  s_flock = h 16 (omega arith) j;
  s_ilock = h 17 (omega arith) j;
  s_fmod = h 18 (omega arith) j;
  s_ronly = h 19 (omega arith) j;
  s_time = (word 20 (omega arith) j, word 22 (omega arith) j);
}
  where
    word : (q : ℕ) → q + 1 < 512 → u16_at b q ≡ u16_at c q
    word q l = λ j. h q (omega (arith, l)) j + 256 * h (q + 1) l j

-- A sector that was read can be read.
pub IsReadable-sector_read :
    (f : File) (n : ℕ) (b : Buffer) → n < 2 ^ 23 → sector_read f n ≡ ok b → IsReadable f n
unfolding sector_read
IsReadable-sector_read f n b small h = ground (arith, h)

abbrev value_of : Buffer → Result Buffer → Buffer
value_of d (ok b) = b
value_of d (err n) = d
value_of d fault = d

-- What was read are the bytes of the sector.
read_bytes :
    (f : File) (n : ℕ) (b : Buffer) (k : ℕ)
    → n < 2 ^ 23
    → sector_read f n ≡ ok b
    → b k ≡ f.byte (n * 512 + k)
read_bytes f n b k small h =
    ap (λ r. value_of b r k) (sym h ∙ sector_read_lem f n (IsReadable-sector_read f n b small h))

-- The run on a file whose two first sectors can be read.
mount_run :
    (malloc : ℕ → Bool) (f : File) (table block : Buffer) (ibm fbm : Bitmap)
    → sector_read f 0 ≡ ok table
    → (table 0 == bootblock_magic_num) ≡ true
    → sector_read f 1 ≡ ok block
    → let s = decode_superblock block in
      bm_alloc malloc 1 (s.s_isize * 16) ≡ some ibm
      → bm_alloc malloc s.s_block_start s.s_fsize ≡ some fbm
      → let out = fill_rows (record { f = f; s = s; fbm = fbm; ibm = ibm }) (scanned_rows s) 0 in
        out.0 ≡ ok 0 → mountv6 malloc (some f) ≡ (ok 0, some out.1)
unfolding mountv6 mount_bitmaps fill_bitmaps
mount_run malloc f table block ibm fbm boot magic super e e' done =
    ground (arith, boot, magic, super, e, e', done)

-- A disk that was mounted, and was changed since but for its first two sectors, and whose inodes are
-- small where they are allocated, is mounted again, with the same superblock.
pub mounts_again :
    (malloc : ℕ → Bool) (f : File) (u u' : FileSystem) (status : ℕ)
    → mountv6 malloc (some f) ≡ (ok status, some u)
    → u'.s ≡ u.s
    → SameSector f u'.f 0
    → SameSector f u'.f 1
    → ((row t : ℕ) → row < scanned_rows u.s → t < 16 → IsFreeOrSmall u' (scanned_inr row t))
    → (v : FileSystem) × (mountv6 malloc (some u'.f) ≡ (ok 0, some v)) × (v.f ≡ u'.f) × (v.s ≡ u'.s)
mounts_again malloc f u u' status mounts super first second slots = (
  (fill_rows v0 (scanned_rows s) 0).1,
  mount_run malloc u'.f table block p.ibm p.fbm (sector_read_lem u'.f 0 first.readable) magic
      (sector_read_lem u'.f 1 second.readable) (rw same p.inodes) (rw same p.sectors)
      (fill_rows-ok v0 (scanned_rows s) 0 (λ r t h l.
        IsFreeOrSmall-same u' v0 (scanned_inr r t) refl (same' ∙ sym super)
          (slots r t (omega (arith, h, ap scanned_rows same')) l))),
  kept.file,
  kept.super ∙ same' ∙ sym super,
)
  where
    p : Parts malloc f u
    p = mountv6-Parts malloc f u status mounts

    table : Buffer
    table k = u'.f.byte (0 * 512 + k)

    block : Buffer
    block k = u'.f.byte (1 * 512 + k)

    s : Superblock
    s = decode_superblock block

    same : decode_superblock block ≡ decode_superblock p.block
    same =
        superblock_ext block p.block
          (λ q h. second.bytes q h ∙ sym (read_bytes f 1 p.block q (omega arith) p.superblock))

    same' : s ≡ u.s
    same' = same ∙ sym p.super

    magic : (table 0 == bootblock_magic_num) ≡ true
    magic =
        let e : table 0 ≡ p.table 0 =
          first.bytes 0 (omega arith) ∙ sym (read_bytes f 0 p.table 0 (omega arith) p.boot) in
        rw e p.magic

    v0 : FileSystem
    v0 = record { f = u'.f; s = s; fbm = p.fbm; ibm = p.ibm }

    kept : Kept v0 (fill_rows v0 (scanned_rows s) 0).1
    kept = Kept-fill_rows v0 (scanned_rows s) 0
