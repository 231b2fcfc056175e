-- ===== src/Mount/Missed.antt =====
-- done/mount.c: the inode numbers that fill_bitmaps does not visit.
use file_system_public_copy.Prelude.{
  ℕ, zero, suc, ◌+◌, ◌-◌, ◌*◌, ◌/◌, ◌%◌, ◌^◌, ◌≤◌, ◌<◌, ◌≡◌, ◌≢◌, ◌⊎◌, inl, inr, refl, sym, ap,
  arith, Bool, true, false, if◌then◌else◌, List, get_or, some, Result, ok, err, fault, ◌∙◌, leb,
  Bool-cases, ◌==◌, ℕ_discrete, Result-cases, subst, dec_le, ◌&&◌,
}
use file_system_public_copy.Prelude.Bits.{digit-le}
use file_system_public_copy.Errors.{unallocated_inode, offset_out_of_range}
use file_system_public_copy.Stdio.{File}
use file_system_public_copy.Layout.{Inode, inode_getsize, decode_superblock}
use file_system_public_copy.Bitmap.{Bitmap, bm_set, bm_get, word_index, bit_index}
use file_system_public_copy.Bitmap.Bits.{
  bit_of, IsValid, InRange, InRange-cases, bm_get-bm_set, bm_set_out, bm_get_lem, bm_alloc-IsValid,
}
use file_system_public_copy.FileSystem.{FileSystem}
use file_system_public_copy.Inode.{inode_read, inode_findsector, scanned_inr, scanned_rows}
use file_system_public_copy.Mount.{
  set_fbm, mark_sectors, write_sector_on_bitmap, fill_slot, fill_slots, fill_rows, mountv6,
}
use file_system_public_copy.Mount.Grow.{
  set_addresses, write_sector_on_bitmap_run, with_addresses, Kept-fill_slot, Kept-fill_slots,
}
use file_system_public_copy.Mount.Again.{mountv6-Parts}
use file_system_public_copy.Mount.Fill.{IsRecorded}
use file_system_public_copy.Mount.Mounted.{mountv6_lem}

ibm-set_addresses :
    (i_addr : List ℕ) (u : FileSystem) (left k : ℕ) → (set_addresses i_addr u left k).ibm ≡ u.ibm
ibm-set_addresses i_addr u zero k = refl
ibm-set_addresses i_addr u (suc left) k =
    ibm-set_addresses i_addr (set_fbm u (get_or i_addr k 0)) left (k + 1)

ibm-mark_sectors :
    (rounds : ℕ) (inode : Inode) (u : FileSystem) (found : Result ℕ) (k : ℕ)
    → (mark_sectors rounds inode u found k).1.ibm ≡ u.ibm
unfolding mark_sectors
ibm-mark_sectors zero inode u found k = refl
ibm-mark_sectors (suc rounds) inode u (ok x) k =
    ibm-mark_sectors rounds inode (set_fbm u x) (inode_findsector (set_fbm u x) inode k) (k + 1)
ibm-mark_sectors (suc rounds) inode u (err n) k = elim (Bool-cases (n == offset_out_of_range)) [
  | inl e ↦ rw e refl
  | inr e ↦ rw e refl
]
ibm-mark_sectors (suc rounds) inode u fault k = refl

ibm-write_sector_on_bitmap :
    (inode : Inode) (u : FileSystem) → (write_sector_on_bitmap inode u).1.ibm ≡ u.ibm
ibm-write_sector_on_bitmap inode u =
    let u' = with_addresses inode u in
    let first : u'.ibm ≡ u.ibm = elim (Bool-cases (leb (inode_getsize inode / 512 + 1) 1792)) [
      | inl e ↦
          rw e (ibm-set_addresses inode.i_addr u ((inode_getsize inode / 512 + 1) / 256 + 1) 0)
      | inr e ↦ rw e refl
    ] in
    rw (write_sector_on_bitmap_run inode u) (
      ibm-mark_sectors (inode_getsize inode / 512 + 1 + 3) inode u' (inode_findsector u' inode 0) 0
      ∙ first)

-- A number that is set leaves the bits of the others.
set-other : (b : Bitmap) (m n : ℕ) → IsValid b → m ≢ n → bm_get (bm_set b m) n ≡ bm_get b n
set-other b m n v ne = elim (InRange-cases b m) [
  | inl r ↦ ground (arith, bm_get-bm_set b m n v r, ne)
  | inr out ↦ ap (λ t. bm_get t n) (bm_set_out b m out).0
]

fill_slot-other :
    (u : FileSystem) (m n : ℕ)
    → IsValid u.ibm
    → m ≢ n
    → bm_get (fill_slot u m).2.ibm n ≡ bm_get u.ibm n
unfolding fill_slot
fill_slot-other u m n v ne = elim (Result-cases (inode_read u m)) [
  | inl (i, e) ↦
      rw (e, fill_slot)
        (ap (λ t. bm_get t n) (ibm-write_sector_on_bitmap i (record u { ibm = bm_set u.ibm m }))
          ∙ set-other u.ibm m n v ne)
  | inr (inl (c, e)) ↦
      rw (e, fill_slot)
        (elim (Bool-cases (c == unallocated_inode)) [
          | inl same ↦ rw same refl
          | inr other ↦ rw other (set-other u.ibm m n v ne)
        ])
  | inr (inr e) ↦ rw (e, fill_slot) (set-other u.ibm m n v ne)
]

fill_slots-other :
    (row : ℕ) (u : FileSystem) (found : Bool) (left j n : ℕ)
    → IsValid u.ibm
    → ((t : ℕ) → t < j + left → scanned_inr row t ≢ n)
    → bm_get (fill_slots row u found left j).2.ibm n ≡ bm_get u.ibm n
unfolding fill_slots
fill_slots-other row u found zero j n v h = refl
fill_slots-other row u found (suc left) j n v h =
    let m = scanned_inr row j in
    let slot = fill_slot u m in
    let first : bm_get slot.2.ibm n ≡ bm_get u.ibm n =
      fill_slot-other u m n v (h j (omega arith)) in
    elim (Result-cases slot.0) [
      | inl (_, e) ↦
          rw (e, fill_slots)
            (fill_slots-other row slot.2 (if slot.1 then true else found) left (j + 1) n
                ((Kept-fill_slot u m).inodes.valid v) (λ t l. h t (omega (arith, l)))
              ∙ first)
      | inr (inl (_, e)) ↦ rw (e, fill_slots) first
      | inr (inr e) ↦ rw (e, fill_slots) first
    ]

-- A number that is not visited keeps its bit.
fill_rows-other :
    (u : FileSystem) (left row n : ℕ)
    → IsValid u.ibm
    → ((r t : ℕ) → r < row + left → t < 16 → scanned_inr r t ≢ n)
    → bm_get (fill_rows u left row).1.ibm n ≡ bm_get u.ibm n
unfolding fill_rows
fill_rows-other u zero row n v h = refl
fill_rows-other u (suc left) row n v h =
    let slots = fill_slots row u false 16 0 in
    let next = if slots.1 then set_fbm slots.2 (u.s.s_inode_start + row) else slots.2 in
    let first : bm_get slots.2.ibm n ≡ bm_get u.ibm n =
      fill_slots-other row u false 16 0 n v (λ t l. h row t (omega arith) (omega (arith, l))) in
    let same : next.ibm ≡ slots.2.ibm = elim (Bool-cases slots.1) [
      | inl used ↦ rw used refl
      | inr unused ↦ rw unused refl
    ] in
    let valid : IsValid next.ibm =
      subst IsValid (sym same) ((Kept-fill_slots row u false 16 0).inodes.valid v) in
    elim (Result-cases slots.0) [
      | inl (_, e) ↦
          rw (e, fill_rows)
            (fill_rows-other next left (row + 1) n valid (λ r t l. h r t (omega (arith, l)))
              ∙ ap (λ b. bm_get b n) same
              ∙ first)
      | inr (inl (_, e)) ↦ rw (e, fill_rows) first
      | inr (inr e) ↦ rw (e, fill_rows) first
    ]

-- What is known of the bitmap of inodes when it is new.
fresh :
    (malloc : ℕ → Bool) (f : File) (u : FileSystem) (status n : ℕ)
    → mountv6 malloc (some f) ≡ (ok status, some u)
    → u.s.s_isize ≤ 2 ^ 12
    → 1 ≤ n
    → n ≤ u.s.s_isize * 16
    → ((r t : ℕ) → r < scanned_rows u.s → t < 16 → scanned_inr r t ≢ n)
    → bm_get u.ibm n ≡ ok 0
fresh malloc f u status n mounts few lo hi missed =
    let p = mountv6-Parts malloc f u status mounts in
    let isize = ap (λ s. s.s_isize) p.super in
    let (valid, _, _, empty) = bm_alloc-IsValid malloc 1 _ (omega (arith, few, isize)) p.inodes in
    ap (λ v. bm_get v.ibm n) p.filled
    ∙ fill_rows-other _ (scanned_rows (decode_superblock p.block)) 0 n valid
        (λ r t l. missed r t (omega (arith, l, ap scanned_rows p.super)))
    ∙ empty n lo (omega (arith, hi, isize))

-- A bit in range that is not 1 is 0.
not_one : (b : Bitmap) (x : ℕ) → InRange b x → bm_get b x ≢ ok 1 → bm_get b x ≡ ok 0
not_one b x r ne =
    let bound = digit-le (get_or b.bm (word_index b x) 0) (bit_index b x) in
    elim (ℕ_discrete (bit_of b x) 0) [
      | yes e ↦ bm_get_lem b x r ∙ ap ok e
      | no more ↦ absurd (ne (bm_get_lem b x r ∙ ap ok (omega (arith, bound, more))))
    ]

-- Whether an inode is given.
abbrev pub is_inode : Result Inode → Bool
is_inode (ok i) = true
is_inode (err n) = false
is_inode fault = false

-- If the bytes of a file are below 256 and mountv6 of it returns a status of 0 or more and a file
-- system whose inode table has from 1 to 2 ^ 12 - 1 sectors and starts below 2 ^ 16, then for a
-- number from 1 to 16 times those sectors for which inode_read gives an inode or
-- ERR_UNALLOCATED_INODE, bm_get of the inode bitmap gives 1 if inode_read gives an inode and the
-- number is at most 16 times the sectors less one, and 0 if not: the numbers above it, those of
-- the last sector but its first, are 0 even where they are in use.
pub bm_get-mountv6 :
    (malloc : ℕ → Bool) (f : File) (u : FileSystem) (status n : ℕ)
    → ((k : ℕ) → f.byte k < 256)
    → mountv6 malloc (some f) ≡ (ok status, some u)
    → 1 ≤ u.s.s_isize
    → u.s.s_isize < 2 ^ 12
    → u.s.s_inode_start < 2 ^ 16
    → 1 ≤ n
    → n ≤ u.s.s_isize * 16
    → (((i : Inode) × (inode_read u n ≡ ok i)) ⊎ (inode_read u n ≡ err unallocated_inode))
    → bm_get u.ibm n
      ≡ ok (if leb n ((u.s.s_isize - 1) * 16) && is_inode (inode_read u n) then 1 else 0)
bm_get-mountv6 malloc f u status n bytes mounts some' few start lo hi answer =
    elim (dec_le n ((u.s.s_isize - 1) * 16)) [
      | no beyond ↦ ground (
        arith,
        beyond,
        fresh malloc f u status n mounts (omega (arith, few)) lo hi
            (λ r t l q e. omega (arith, some', few, start, beyond, l, q, e)),
      )
      | yes visited ↦
          let m = mountv6_lem malloc f u status bytes mounts in
          let row = (n - 1) / 16 in
          let slot = (n - 1) % 16 in
          let e : scanned_inr row slot ≡ n = omega (arith, lo, hi, few, visited) in
          let recorded : IsRecorded u n =
            subst (IsRecorded u) e
              (m.recorded row slot (omega (arith, some', few, start, lo, visited)) (omega arith)) in
          let r : InRange u.ibm n = record {
            above = omega (arith, m.inodes.0, lo);
            below = omega (arith, m.inodes.1, hi);
          } in
          elim answer [
            | inl (i, read) ↦ ground (arith, visited, read, recorded.number i read r)
            | inr none' ↦ ground (arith, visited, none', not_one u.ibm n r (λ h. m.only n h none'))
          ]
    ]
