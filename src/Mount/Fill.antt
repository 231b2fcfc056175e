-- ===== src/Mount/Fill.antt =====
-- done/mount.c: the loops of fill_bitmaps over the inode table.
use file_system_public_copy.Prelude.{
  ℕ, zero, suc, ◌+◌, ◌*◌, ◌≤◌, ◌<◌, ◌≡◌, ◌≢◌, inl, inr, sym, ap, arith, Bool, true, false,
  if◌then◌else◌, ok, ◌∙◌, Bool-cases, ℕ_discrete, Result-cases, subst,
}
use file_system_public_copy.Layout.{Inode, inode_getsize}
use file_system_public_copy.Bitmap.{bm_set, bm_get}
use file_system_public_copy.Bitmap.Bits.{IsValid, InRange}
use file_system_public_copy.FileSystem.{FileSystem}
use file_system_public_copy.Inode.{inode_read, scanned_inr}
use file_system_public_copy.File.Content.{IsFile}
use file_system_public_copy.Mount.{
  set_fbm, write_sector_on_bitmap, fill_slot, fill_slots, fill_rows,
}
use file_system_public_copy.Mount.Grow.{
  Kept, Kept-trans, Kept-refl, Kept-set_fbm, Kept-set_ibm, Kept-write_sector_on_bitmap,
  Kept-fill_slot, Kept-fill_slots, Kept-fill_rows, inode_read_same,
}
use file_system_public_copy.Mount.Record.{
  IsFile-Kept, Grown-InRange, bm_set_self, write_sector_on_bitmap_lem,
}

-- The bitmaps hold an inode number that can be read, and the sectors of its file.
pub record IsRecorded (u : FileSystem) (n : ℕ) : Type 0 where
  pub number : (i : Inode) → inode_read u n ≡ ok i → InRange u.ibm n → bm_get u.ibm n ≡ ok 1
  pub blocks :
      (i : Inode)
      → inode_read u n ≡ ok i
      → (addr : ℕ → ℕ) → IsFile u i addr
      → (k : ℕ) → k * 512 < inode_getsize i
      → InRange u.fbm (addr k)
      → bm_get u.fbm (addr k) ≡ ok 1

pub record IsValidBoth (u : FileSystem) : Type 0 where
  pub sectors : IsValid u.fbm
  pub inodes : IsValid u.ibm

pub IsValidBoth-Kept : {u v : FileSystem} → Kept u v → IsValidBoth u → IsValidBoth v
IsValidBoth-Kept kept valid = record {
  sectors = kept.sectors.valid valid.sectors;
  inodes = kept.inodes.valid valid.inodes;
}

IsRecorded-Kept :
    {u v : FileSystem} {n : ℕ} → IsValidBoth u → Kept u v → IsRecorded u n → IsRecorded v n
IsRecorded-Kept {u} {v} {n} valid kept old = record {
  number = λ i read r.
      kept.inodes.keeps valid.inodes n (old.number i (same read) (Grown-InRange kept.inodes r));
  blocks = λ i read addr file k h r.
      kept.sectors.keeps valid.sectors (addr k)
        (old.blocks i (same read) addr (IsFile-Kept kept file) k h (Grown-InRange kept.sectors r));
}
  where
    same : {i : Inode} → inode_read v n ≡ ok i → inode_read u n ≡ ok i
    same read = sym (inode_read_same u v n kept.file kept.super) ∙ read

-- A slot with an inode.
slot_used :
    (u : FileSystem) (n : ℕ) (i : Inode)
    → IsValidBoth u
    → inode_read u n ≡ ok i
    → IsRecorded (fill_slot u n).2 n
unfolding fill_slot
slot_used u n i valid e =
    rw (e, fill_slot)
      (record {
        number = λ j read r.
            let r' = Grown-InRange used.inodes (Grown-InRange kept.inodes r) in
            kept.inodes.keeps (used.inodes.valid valid.inodes) n
              (bm_set_self u.ibm n valid.inodes r');
        blocks = λ j read addr file k h r.
            let same : j ≡ i = ground (
              arith,
              sym (inode_read_same u (write_sector_on_bitmap i u').1 n kept.file kept.super) ∙ read,
              e,
            ) in
            write_sector_on_bitmap_lem i u' addr k
              (IsFile-Kept kept
                (subst (λ t. IsFile (write_sector_on_bitmap i u').1 t addr) same file))
              valid.sectors (omega (arith, h, ap inode_getsize same))
              (Grown-InRange kept.sectors r);
      })
  where
    u' : FileSystem
    u' = record u { ibm = bm_set u.ibm n }

    used : Kept u u'
    used = Kept-set_ibm u n (ground (arith, e))

    kept : Kept u' (write_sector_on_bitmap i u').1
    kept = Kept-write_sector_on_bitmap i u'

-- A number that cannot be read has nothing to record.
unread-IsRecorded :
    (u : FileSystem) (n : ℕ) → ((i : Inode) → inode_read u n ≢ ok i) → IsRecorded u n
unread-IsRecorded u n h = record {
  number = λ i read r. absurd (h i read);
  blocks = λ i read addr file k q r. absurd (h i read);
}

fill_slot_lem : (u : FileSystem) (n : ℕ) → IsValidBoth u → IsRecorded (fill_slot u n).2 n
fill_slot_lem u n valid =
    let kept = Kept-fill_slot u n in
    let back = inode_read_same u (fill_slot u n).2 n kept.file kept.super in
    elim (Result-cases (inode_read u n)) [
      | inl (i, e) ↦ slot_used u n i valid e
      | inr (inl (m, e)) ↦
          unread-IsRecorded (fill_slot u n).2 n (λ i read. absurd (ground (arith, back, read, e)))
      | inr (inr e) ↦
          unread-IsRecorded (fill_slot u n).2 n (λ i read. absurd (ground (arith, back, read, e)))
    ]

fill_slots_lem :
    (row : ℕ) (u : FileSystem) (found : Bool) (left j t status : ℕ)
    → IsValidBoth u
    → (fill_slots row u found left j).0 ≡ ok status
    → j ≤ t
    → t < j + left
    → IsRecorded (fill_slots row u found left j).2 (scanned_inr row t)
unfolding fill_slots
fill_slots_lem row u found zero j t status valid done lo hi = absurd (omega (arith, lo, hi))
fill_slots_lem row u found (suc left) j t status valid done lo hi =
    elim (Result-cases (fill_slot u n).0) [
      | inl (_, e) ↦
          let done' : (fill_slots row u' found' left (j + 1)).0 ≡ ok status =
            ground (arith, done, e) in
          rw (e, fill_slots)
            (elim (ℕ_discrete j t) [
              | yes same ↦
                  subst
                    (λ m. IsRecorded (fill_slots row u' found' left (j + 1)).2 (scanned_inr row m))
                    same
                    (IsRecorded-Kept (IsValidBoth-Kept kept valid)
                      (Kept-fill_slots row u' found' left (j + 1)) (fill_slot_lem u n valid))
              | no ne ↦
                  fill_slots_lem row u' found' left (j + 1) t status (IsValidBoth-Kept kept valid)
                    done' (omega (arith, lo, ne)) (omega (arith, hi))
            ])
      | inr (inl (_, e)) ↦ absurd (ground (arith, done, e))
      | inr (inr e) ↦ absurd (ground (arith, done, e))
    ]
  where
    n : ℕ
    n = scanned_inr row j

    u' : FileSystem
    u' = (fill_slot u n).2

    found' : Bool
    found' = if (fill_slot u n).1 then true else found

    kept : Kept u u'
    kept = Kept-fill_slot u n

-- Over the rows of the inode table, after which the status is ERR_NONE: every number that was
-- visited is recorded.
pub fill_rows_lem :
    (u : FileSystem) (left row r t status : ℕ)
    → IsValidBoth u
    → (fill_rows u left row).0 ≡ ok status
    → row ≤ r
    → r < row + left
    → t < 16
    → IsRecorded (fill_rows u left row).1 (scanned_inr r t)
unfolding fill_rows
fill_rows_lem u zero row r t status valid done lo hi slot = absurd (omega (arith, lo, hi))
fill_rows_lem u (suc left) row r t status valid done lo hi slot =
    elim (Result-cases (fill_slots row u false 16 0).0) [
      | inl (s, e) ↦
          let done' : (fill_rows next left (row + 1)).0 ≡ ok status = ground (arith, done, e) in
          rw (e, fill_rows)
            (elim (ℕ_discrete row r) [
              | yes same ↦
                  IsRecorded-Kept (IsValidBoth-Kept to_next valid)
                    (Kept-fill_rows next left (row + 1))
                    (IsRecorded-Kept (IsValidBoth-Kept kept valid) marked (
                      subst (λ m. IsRecorded u' (scanned_inr m t)) same
                        (fill_slots_lem row u false 16 0 t s valid e (omega arith)
                          (omega (arith, slot)))))
              | no ne ↦
                  fill_rows_lem next left (row + 1) r t status (IsValidBoth-Kept to_next valid)
                    done' (omega (arith, lo, ne)) (omega (arith, hi)) slot
            ])
      | inr (inl (_, e)) ↦ absurd (ground (arith, done, e))
      | inr (inr e) ↦ absurd (ground (arith, done, e))
    ]
  where
    u' : FileSystem
    u' = (fill_slots row u false 16 0).2

    next : FileSystem
    next = if (fill_slots row u false 16 0).1 then set_fbm u' (u.s.s_inode_start + row) else u'

    kept : Kept u u'
    kept = Kept-fill_slots row u false 16 0

    marked : Kept u' next
    marked = elim (Bool-cases (fill_slots row u false 16 0).1) [
      | inl used ↦ rw used (Kept-set_fbm u' (u.s.s_inode_start + row))
      | inr unused ↦ rw unused (Kept-refl u')
    ]

    to_next : Kept u next
    to_next = Kept-trans kept marked
