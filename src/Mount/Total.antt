-- ===== src/Mount/Total.antt =====
-- done/mount.c: the loops of mountv6 and their ends.
use file_system_public_copy.Prelude.{
  ℕ, zero, suc, ◌+◌, ◌*◌, ◌/◌, ◌≤◌, ◌≢◌, ◌⊎◌, inl, inr, refl, arith, Bool, true, false, Option,
  none, some, Result, ok, err, fault, Result-cases, Option-cases, dec_lt, get_or, if◌then◌else◌,
}
use file_system_public_copy.Stdio.{File}
use file_system_public_copy.Layout.{Inode, Superblock, decode_superblock, inode_getsize}
use file_system_public_copy.Sector.{sector_read}
use file_system_public_copy.Bitmap.{bm_set, bm_alloc}
use file_system_public_copy.FileSystem.{FileSystem}
use file_system_public_copy.Inode.{
  target_sector, inode_read, inode_findsector, inode_findsector_bigfile, scanned_inr, scanned_rows,
}
use file_system_public_copy.Mount.{
  set_fbm, mark_sectors, write_sector_on_bitmap, fill_slot, fill_slots, fill_rows, fill_bitmaps,
  mount_bitmaps, mountv6,
}
use file_system_public_copy.Mount.Grow.{with_addresses, write_sector_on_bitmap_run}

sector_read_ends : (f : File) (n : ℕ) → sector_read f n ≢ fault
unfolding sector_read
sector_read_ends f n = ground arith

inode_read_ends : (u : FileSystem) (n : ℕ) → inode_read u n ≢ fault
unfolding inode_read
inode_read_ends u n = ground (arith, sector_read_ends u.f (target_sector u.s n))

findsector_ends : (u : FileSystem) (i : Inode) (k : ℕ) → inode_findsector u i k ≢ fault
unfolding inode_findsector inode_findsector_bigfile
findsector_ends u i k = ground (arith, sector_read_ends u.f (get_or i.i_addr (k / 256) 0))

-- Past the last block there is an error.
findsector_past :
    (u : FileSystem) (i : Inode) (k x : ℕ)
    → inode_getsize i / 512 + 1 ≤ k
    → inode_findsector u i k ≢ ok x
unfolding inode_findsector
findsector_past u i k x h = ground arith

-- The loop over the blocks ends if there are rounds for them and two more.
mark_sectors_ends :
    (rounds : ℕ) (i : Inode) (u : FileSystem) (found : Result ℕ) (k : ℕ)
    → found ≢ fault
    → ((inode_getsize i / 512 + 3 ≤ rounds + k) × (k ≤ inode_getsize i / 512 + 1))
      ⊎ ((1 ≤ rounds) × ((x : ℕ) → found ≢ ok x))
    → (mark_sectors rounds i u found k).0 ≢ fault
unfolding mark_sectors
mark_sectors_ends zero i u found k sound enough = absurd (ground (arith, enough))
mark_sectors_ends (suc rounds) i u fault k sound enough = absurd (sound refl)
mark_sectors_ends (suc rounds) i u (err n) k sound enough = ground arith
mark_sectors_ends (suc rounds) i u (ok x) k sound enough = elim enough [
  | inr (_, none_found) ↦ absurd (none_found x refl)
  | inl (rounds_left, at) ↦
      mark_sectors_ends rounds i u' (inode_findsector u' i k) (k + 1) (findsector_ends u' i k)
        (elim (dec_lt k (inode_getsize i / 512 + 1)) [
          | yes h ↦ inl (omega (arith, rounds_left), omega (arith, h))
          | no h ↦
              inr (omega (arith, rounds_left, at), λ y. findsector_past u' i k y (omega (arith, h)))
        ])
]
  where
    u' : FileSystem
    u' = set_fbm u x

pub write_sector_on_bitmap_ends :
    (i : Inode) (u : FileSystem) → (write_sector_on_bitmap i u).0 ≢ fault
write_sector_on_bitmap_ends i u =
    let u' = with_addresses i u in
    rw (write_sector_on_bitmap_run i u) (
      mark_sectors_ends (inode_getsize i / 512 + 1 + 3) i u' (inode_findsector u' i 0) 0
        (findsector_ends u' i 0) (inl (omega arith, omega arith)))

fill_slot_ends : (u : FileSystem) (n : ℕ) → (fill_slot u n).0 ≢ fault
unfolding fill_slot
fill_slot_ends u n = elim (Result-cases (inode_read u n)) [
  | inl (i, e) ↦
      rw (e, fill_slot) (write_sector_on_bitmap_ends i (record u { ibm = bm_set u.ibm n }))
  | inr (inl (m, e)) ↦ ground (arith, e)
  | inr (inr e) ↦ absurd (inode_read_ends u n e)
]

fill_slots_ends :
    (row : ℕ) (u : FileSystem) (found : Bool) (left j : ℕ)
    → (fill_slots row u found left j).0 ≢ fault
unfolding fill_slots
fill_slots_ends row u found zero j = ground arith
fill_slots_ends row u found (suc left) j =
    let slot = fill_slot u (scanned_inr row j) in
    elim (Result-cases slot.0) [
      | inl (_, e) ↦
          rw (e, fill_slots)
            (fill_slots_ends row slot.2 (if slot.1 then true else found) left (j + 1))
      | inr (inl (m, e)) ↦ rw (e, fill_slots) (ground arith)
      | inr (inr e) ↦ absurd (fill_slot_ends u (scanned_inr row j) e)
    ]

fill_rows_ends : (u : FileSystem) (left row : ℕ) → (fill_rows u left row).0 ≢ fault
unfolding fill_rows
fill_rows_ends u zero row = ground arith
fill_rows_ends u (suc left) row =
    let slots = fill_slots row u false 16 0 in
    elim (Result-cases slots.0) [
      | inl (_, e) ↦
          rw (e, fill_rows)
            (fill_rows_ends (if slots.1 then set_fbm slots.2 (u.s.s_inode_start + row) else slots.2)
              left (row + 1))
      | inr (inl (m, e)) ↦ rw (e, fill_rows) (ground arith)
      | inr (inr e) ↦ absurd (fill_slots_ends row u false 16 0 e)
    ]

mount_bitmaps_ends :
    (malloc : ℕ → Bool) (f : File) (s : Superblock) → (mount_bitmaps malloc f s).0 ≢ fault
unfolding mount_bitmaps fill_bitmaps
mount_bitmaps_ends malloc f s = elim (Option-cases (bm_alloc malloc 1 (s.s_isize * 16))) [
  | inl e ↦ ground (arith, e)
  | inr (ibm, e) ↦ elim (Option-cases (bm_alloc malloc s.s_block_start s.s_fsize)) [
    | inl e' ↦ ground (arith, e, e')
    | inr (fbm, e') ↦
        let u : FileSystem = record { f = f; s = s; fbm = fbm; ibm = ibm } in
        ground (arith, e, e', fill_rows_ends u (scanned_rows s) 0)
  ]
]

-- mountv6, on any file or none, comes to an end: none of its loops, that over the blocks of a
-- file included, runs out of its rounds, and no address is read outside the eight of an inode.
pub mountv6_ends : (malloc : ℕ → Bool) (file : Option File) → (mountv6 malloc file).0 ≢ fault
unfolding mountv6
mountv6_ends malloc none = ground arith
mountv6_ends malloc (some f) = elim (Result-cases (sector_read f 0)) [
  | inr (inl (_, e)) ↦ ground (arith, e)
  | inr (inr e) ↦ absurd (sector_read_ends f 0 e)
  | inl (table, e) ↦ elim (Result-cases (sector_read f 1)) [
    | inr (inl (_, e')) ↦ ground (arith, e, e')
    | inr (inr e') ↦ absurd (sector_read_ends f 1 e')
    | inl (block, e') ↦ ground (arith, e, e', mount_bitmaps_ends malloc f (decode_superblock block))
  ]
]
