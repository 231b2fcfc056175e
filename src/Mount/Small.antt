-- ===== src/Mount/Small.antt =====
-- done/mount.c: fill_bitmaps on a disk whose files are all small.
use file_system_public_copy.Prelude.{
  ℕ, zero, suc, ◌+◌, ◌*◌, ◌/◌, ◌<◌, ◌≡◌, ◌≢◌, ◌⊎◌, inl, inr, refl, arith, ap, Bool, true, false,
  if◌then◌else◌, Result, ok, err, fault, ◌∙◌, Bool-cases, dec_lt, get_or,
}
use file_system_public_copy.Errors.{unallocated_inode, offset_out_of_range}
use file_system_public_copy.Layout.{Inode, ialloc, has_flag, inode_getsize}
use file_system_public_copy.Bitmap.{bm_set}
use file_system_public_copy.FileSystem.{FileSystem}
use file_system_public_copy.Inode.{inode_read, inode_findsector, scanned_inr}
use file_system_public_copy.Mount.{
  set_fbm, mark_sectors, write_sector_on_bitmap, fill_slot, fill_slots, fill_rows,
}
use file_system_public_copy.Mount.Grow.{
  Kept, write_sector_on_bitmap_run, with_addresses, inode_read_same, Kept-fill_slot,
  Kept-fill_slots, Kept-trans, Kept-refl, Kept-set_fbm,
}
use file_system_public_copy.Mount.Total.{write_sector_on_bitmap_ends}

-- An inode that has a file of at most eight blocks, the last of them not full.
pub record IsSmall (i : Inode) : Type 0 where
  pub allocated : has_flag i.i_mode ialloc ≡ true
  pub few : inode_getsize i < 8 * 512

-- The inode is not allocated, or small.
abbrev pub IsFreeOrSmall : FileSystem → ℕ → Type 0
IsFreeOrSmall u n =
    (inode_read u n ≡ err unallocated_inode) ⊎ ((i : Inode) × (inode_read u n ≡ ok i) × IsSmall i)

-- What a search for a block may answer.
abbrev Answers : Result ℕ → Type 0
Answers r = ((x : ℕ) × (r ≡ ok x)) ⊎ (r ≡ err offset_out_of_range)

findsector-Answers :
    (u : FileSystem) (i : Inode) (k : ℕ) → IsSmall i → Answers (inode_findsector u i k)
unfolding inode_findsector
findsector-Answers u i k s = elim (dec_lt k (inode_getsize i / 512 + 1)) [
  | yes h ↦ inl (get_or i.i_addr k 0, ground (arith, s.allocated, s.few, h))
  | no h ↦ inr (ground (arith, s.allocated, h))
]

mark_sectors-ok :
    (rounds : ℕ) (i : Inode) (u : FileSystem) (found : Result ℕ) (k : ℕ)
    → IsSmall i
    → Answers found
    → (mark_sectors rounds i u found k).0 ≢ fault
    → (mark_sectors rounds i u found k).0 ≡ ok 0
unfolding mark_sectors
mark_sectors-ok zero i u found k s a ends = absurd (ends refl)
mark_sectors-ok (suc rounds) i u (ok x) k s a ends =
    mark_sectors-ok rounds i (set_fbm u x) (inode_findsector (set_fbm u x) i k) (k + 1) s
      (findsector-Answers (set_fbm u x) i k s) ends
mark_sectors-ok (suc rounds) i u (err n) k s a ends = ground arith
mark_sectors-ok (suc rounds) i u fault k s a ends = absurd (ends refl)

write_sector_on_bitmap-ok :
    (i : Inode) (u : FileSystem) → IsSmall i → (write_sector_on_bitmap i u).0 ≡ ok 0
write_sector_on_bitmap-ok i u s =
    let u' = with_addresses i u in
    let run = write_sector_on_bitmap_run i u in
    rw run (
      mark_sectors-ok (inode_getsize i / 512 + 1 + 3) i u' (inode_findsector u' i 0) 0 s
        (findsector-Answers u' i 0 s)
        (λ e. write_sector_on_bitmap_ends i u (ap (λ t. t.0) run ∙ e)))

fill_slot-ok : (u : FileSystem) (n : ℕ) → IsFreeOrSmall u n → (fill_slot u n).0 ≡ ok 0
unfolding fill_slot
fill_slot-ok u n (inl e) = rw (e, fill_slot) refl
fill_slot-ok u n (inr (i, e, s)) =
    rw (e, fill_slot) (write_sector_on_bitmap-ok i (record u { ibm = bm_set u.ibm n }) s)

-- This does not depend on the bitmaps.
pub IsFreeOrSmall-same :
    (u v : FileSystem) (n : ℕ) → v.f ≡ u.f → v.s ≡ u.s → IsFreeOrSmall u n → IsFreeOrSmall v n
IsFreeOrSmall-same u v n file super (inl e) = inl (inode_read_same u v n file super ∙ e)
IsFreeOrSmall-same u v n file super (inr (i, e, s)) =
    inr (i, inode_read_same u v n file super ∙ e, s)

IsFreeOrSmall-Kept : (u v : FileSystem) (n : ℕ) → Kept u v → IsFreeOrSmall u n → IsFreeOrSmall v n
IsFreeOrSmall-Kept u v n k h = IsFreeOrSmall-same u v n k.file k.super h

fill_slots-ok :
    (row : ℕ) (u : FileSystem) (found : Bool) (left j : ℕ)
    → ((t : ℕ) → t < j + left → IsFreeOrSmall u (scanned_inr row t))
    → (fill_slots row u found left j).0 ≡ ok 0
unfolding fill_slots
fill_slots-ok row u found zero j h = refl
fill_slots-ok row u found (suc left) j h =
    let n = scanned_inr row j in
    let slot = fill_slot u n in
    rw (fill_slot-ok u n (h j (omega arith)), fill_slots)
      (fill_slots-ok row slot.2 (if slot.1 then true else found) left (j + 1) (λ t l.
        IsFreeOrSmall-Kept u slot.2 (scanned_inr row t) (Kept-fill_slot u n)
          (h t (omega (arith, l)))))

-- Where every inode that is visited is not allocated or small, the bitmaps are filled.
pub fill_rows-ok :
    (u : FileSystem) (left row : ℕ)
    → ((r t : ℕ) → r < row + left → t < 16 → IsFreeOrSmall u (scanned_inr r t))
    → (fill_rows u left row).0 ≡ ok 0
unfolding fill_rows
fill_rows-ok u zero row h = refl
fill_rows-ok u (suc left) row h =
    let slots = fill_slots row u false 16 0 in
    let next = if slots.1 then set_fbm slots.2 (u.s.s_inode_start + row) else slots.2 in
    let kept : Kept u next =
      Kept-trans (Kept-fill_slots row u false 16 0) (elim (Bool-cases slots.1) [
        | inl used ↦ rw used (Kept-set_fbm slots.2 (u.s.s_inode_start + row))
        | inr unused ↦ rw unused (Kept-refl slots.2)
      ]) in
    rw (fill_slots-ok row u false 16 0 (λ t l. h row t (omega arith) (omega (arith, l))), fill_rows)
      (fill_rows-ok next left (row + 1)
        (λ r t l q. IsFreeOrSmall-Kept u next (scanned_inr r t) kept (h r t (omega (arith, l)) q)))
