-- ===== src/Mount/Grow.antt =====
-- done/mount.c: how the file system before a step of mounting relates to the one after.
use file_system_public_copy.Prelude.{
  ℕ, zero, suc, ◌+◌, ◌/◌, ◌≡◌, ◌⊎◌, inl, inr, refl, sym, ap, arith, Bool, true, false,
  if◌then◌else◌, List, get_or, Result, ok, err, fault, ◌∙◌, leb, Bool-cases, ℕ_discrete, dec_le,
  ◌≤◌, ◌==◌, Result-cases, ◌≢◌,
}
use file_system_public_copy.Errors.{unallocated_inode, offset_out_of_range}
use file_system_public_copy.Layout.{Inode, inode_getsize}
use file_system_public_copy.Bitmap.{Bitmap, bm_set, bm_get}
use file_system_public_copy.Bitmap.Bits.{
  IsValid, InRange-cases, bm_set-IsValid, bm_get-bm_set, bm_set_out,
}
use file_system_public_copy.FileSystem.{FileSystem}
use file_system_public_copy.Inode.{inode_read, inode_findsector, scanned_inr}
use file_system_public_copy.Mount.{
  set_fbm, mark_addresses, mark_sectors, write_sector_on_bitmap, fill_slot, fill_slots, fill_rows,
}

-- A vector that has had numbers set.
pub record Grown (b b' : Bitmap) : Type 0 where
  pub min_same : b'.min ≡ b.min
  pub max_same : b'.max ≡ b.max
  pub valid : IsValid b → IsValid b'
  pub keeps : IsValid b → (x : ℕ) → bm_get b x ≡ ok 1 → bm_get b' x ≡ ok 1

pub Grown-refl : (b : Bitmap) → Grown b b
Grown-refl b = record { min_same = refl; max_same = refl; valid = λ v. v; keeps = λ v x h. h }

pub Grown-trans : {a b c : Bitmap} → Grown a b → Grown b c → Grown a c
Grown-trans p q = record {
  min_same = q.min_same ∙ p.min_same;
  max_same = q.max_same ∙ p.max_same;
  valid = λ v. q.valid (p.valid v);
  keeps = λ v x h. q.keeps (p.valid v) x (p.keeps v x h);
}

same_range : (b : Bitmap) (x : ℕ) → ((bm_set b x).min ≡ b.min) × ((bm_set b x).max ≡ b.max)
unfolding bm_set
same_range b x = (ground arith, ground arith)

pub Grown-bm_set : (b : Bitmap) (x : ℕ) → Grown b (bm_set b x)
Grown-bm_set b x = record {
  min_same = (same_range b x).0;
  max_same = (same_range b x).1;
  valid = bm_set-IsValid x;
  keeps = λ v y h. elim (InRange-cases b x) [
    | inl r ↦ ground (arith, bm_get-bm_set b x y v r, h)
    | inr n ↦ rw (bm_set_out b x n).0 h
  ];
}

-- A file system of which only the bitmaps have grown, the one of inodes only by numbers that
-- `inode_read` does not call unallocated.
pub record Kept (u u' : FileSystem) : Type 0 where
  pub file : u'.f ≡ u.f
  pub super : u'.s ≡ u.s
  pub sectors : Grown u.fbm u'.fbm
  pub inodes : Grown u.ibm u'.ibm
  pub only :
      IsValid u.ibm
      → (x : ℕ) → bm_get u'.ibm x ≡ ok 1
      → (bm_get u.ibm x ≡ ok 1) ⊎ (inode_read u x ≢ err unallocated_inode)

-- Reading an inode does not look at the bitmaps.
pub inode_read_same :
    (u u' : FileSystem) (n : ℕ) → u'.f ≡ u.f → u'.s ≡ u.s → inode_read u' n ≡ inode_read u n
unfolding inode_read
inode_read_same u u' n file super = rw (file, super)

pub Kept-refl : (u : FileSystem) → Kept u u
Kept-refl u = record {
  file = refl;
  super = refl;
  sectors = Grown-refl u.fbm;
  inodes = Grown-refl u.ibm;
  only = λ v x h. inl h;
}

pub Kept-trans : {u v w : FileSystem} → Kept u v → Kept v w → Kept u w
Kept-trans {u} {v} p q = record {
  file = q.file ∙ p.file;
  super = q.super ∙ p.super;
  sectors = Grown-trans p.sectors q.sectors;
  inodes = Grown-trans p.inodes q.inodes;
  only = λ valid x h. elim (q.only (p.inodes.valid valid) x h) [
    | inl old ↦ p.only valid x old
    | inr new ↦ inr λ e. new (inode_read_same u v x p.file p.super ∙ e)
  ];
}

pub Kept-set_fbm : (u : FileSystem) (x : ℕ) → Kept u (set_fbm u x)
Kept-set_fbm u x = record {
  file = refl;
  super = refl;
  sectors = Grown-bm_set u.fbm x;
  inodes = Grown-refl u.ibm;
  only = λ v y h. inl h;
}

-- A bit that is 1 after a number was set was 1 before, or is that number's.
set-cases :
    (b : Bitmap) (x y : ℕ)
    → IsValid b
    → bm_get (bm_set b x) y ≡ ok 1
    → (bm_get b y ≡ ok 1) ⊎ (y ≡ x)
set-cases b x y v h = elim (InRange-cases b x) [
  | inl r ↦ ground (arith, bm_get-bm_set b x y v r, h)
  | inr n ↦ inl (ap (λ t. bm_get t y) (sym (bm_set_out b x n).0) ∙ h)
]

pub Kept-set_ibm :
    (u : FileSystem) (x : ℕ)
    → inode_read u x ≢ err unallocated_inode
    → Kept u (record u { ibm = bm_set u.ibm x })
Kept-set_ibm u x used = record {
  file = refl;
  super = refl;
  sectors = Grown-refl u.fbm;
  inodes = Grown-bm_set u.ibm x;
  only =
      λ v y h. elim (set-cases u.ibm x y v h) [ inl old ↦ inl old | inr same ↦ inr (rw same used) ];
}

-- All of the numbers that the loop over `i_addr` sets.
abbrev pub set_addresses : List ℕ → FileSystem → ℕ → ℕ → FileSystem
set_addresses i_addr u zero k = u
set_addresses i_addr u (suc left) k =
    set_addresses i_addr (set_fbm u (get_or i_addr k 0)) left (k + 1)

mark_addresses_lem :
    (i_addr : List ℕ) (u : FileSystem) (left k : ℕ)
    → left + k ≤ 8
    → mark_addresses i_addr u left k ≡ (ok 0, set_addresses i_addr u left k)
unfolding mark_addresses
mark_addresses_lem i_addr u zero k h = refl
mark_addresses_lem i_addr u (suc left) k h =
    let inside : leb 8 k ≡ false = ground (arith, h) in
    rw inside
      (mark_addresses_lem i_addr (set_fbm u (get_or i_addr k 0)) left (k + 1) (omega (arith, h)))

Kept-set_addresses :
    (i_addr : List ℕ) (u : FileSystem) (left k : ℕ) → Kept u (set_addresses i_addr u left k)
Kept-set_addresses i_addr u zero k = Kept-refl u
Kept-set_addresses i_addr u (suc left) k =
    Kept-trans (Kept-set_fbm u (get_or i_addr k 0))
      (Kept-set_addresses i_addr (set_fbm u (get_or i_addr k 0)) left (k + 1))

pub Kept-mark_sectors :
    (rounds : ℕ) (inode : Inode) (u : FileSystem) (found : Result ℕ) (k : ℕ)
    → Kept u (mark_sectors rounds inode u found k).1
unfolding mark_sectors
Kept-mark_sectors zero inode u found k = Kept-refl u
Kept-mark_sectors (suc rounds) inode u (ok x) k =
    Kept-trans (Kept-set_fbm u x) (
      Kept-mark_sectors rounds inode (set_fbm u x) (inode_findsector (set_fbm u x) inode k) (k + 1))
Kept-mark_sectors (suc rounds) inode u (err n) k = elim (Bool-cases (n == offset_out_of_range)) [
  | inl e ↦ rw e (Kept-refl u)
  | inr e ↦ rw e (Kept-refl u)
]
Kept-mark_sectors (suc rounds) inode u fault k = Kept-refl u

-- The file system after the loop over `i_addr`.
abbrev pub with_addresses : Inode → FileSystem → FileSystem
with_addresses inode u =
    let size_tot = inode_getsize inode / 512 + 1 in
    if leb size_tot 1792 then set_addresses inode.i_addr u (size_tot / 256 + 1) 0 else u

pub Kept-with_addresses : (inode : Inode) (u : FileSystem) → Kept u (with_addresses inode u)
Kept-with_addresses inode u = elim (Bool-cases (leb (inode_getsize inode / 512 + 1) 1792)) [
  | inl e ↦ rw e (Kept-set_addresses inode.i_addr u ((inode_getsize inode / 512 + 1) / 256 + 1) 0)
  | inr e ↦ rw e (Kept-refl u)
]

-- The loop over `i_addr` stays in the array, so that the loop over the blocks follows.
pub write_sector_on_bitmap_run :
    (inode : Inode) (u : FileSystem)
    → write_sector_on_bitmap inode u
      ≡ mark_sectors
          (inode_getsize inode / 512 + 1 + 3)
          inode
          (with_addresses inode u)
          (inode_findsector (with_addresses inode u) inode 0)
          0
unfolding write_sector_on_bitmap
write_sector_on_bitmap_run inode u = elim (dec_le (inode_getsize inode / 512 + 1) 1792) [
  | yes h ↦
      let small : leb (inode_getsize inode / 512 + 1) 1792 ≡ true = ground (arith, h) in
      let marked =
        mark_addresses_lem inode.i_addr u ((inode_getsize inode / 512 + 1) / 256 + 1) 0
          (omega (arith, h)) in
      ground (arith, small, ap (λ t. t.0) marked, ap (λ t. t.1) marked)
  | no h ↦
      let large : leb (inode_getsize inode / 512 + 1) 1792 ≡ false = ground (arith, h) in
      ground (arith, large)
]

pub Kept-write_sector_on_bitmap :
    (inode : Inode) (u : FileSystem) → Kept u (write_sector_on_bitmap inode u).1
Kept-write_sector_on_bitmap inode u =
    let u' = with_addresses inode u in
    rw (write_sector_on_bitmap_run inode u) (
      Kept-trans (Kept-with_addresses inode u) (
        Kept-mark_sectors (inode_getsize inode / 512 + 1 + 3) inode u' (inode_findsector u' inode 0)
          0))

pub Kept-fill_slot : (u : FileSystem) (n : ℕ) → Kept u (fill_slot u n).2
unfolding fill_slot
Kept-fill_slot u n = elim (Result-cases (inode_read u n)) [
  | inl (i, e) ↦
      rw (e, fill_slot)
        (Kept-trans (Kept-set_ibm u n (ground (arith, e)))
          (Kept-write_sector_on_bitmap i (record u { ibm = bm_set u.ibm n })))
  | inr (inl (m, e)) ↦
      rw (e, fill_slot)
        (elim (ℕ_discrete m unallocated_inode) [
          | yes same ↦ rw same (Kept-refl u)
          | no ne ↦
              let other : (m == unallocated_inode) ≡ false = ground (arith, ne) in
              rw other (Kept-set_ibm u n (ground (arith, e, ne)))
        ])
  | inr (inr e) ↦ rw (e, fill_slot) (Kept-set_ibm u n (ground (arith, e)))
]

pub Kept-fill_slots :
    (row : ℕ) (u : FileSystem) (found : Bool) (left j : ℕ)
    → Kept u (fill_slots row u found left j).2
unfolding fill_slots
Kept-fill_slots row u found zero j = Kept-refl u
Kept-fill_slots row u found (suc left) j =
    let n = scanned_inr row j in
    let first = Kept-fill_slot u n in
    elim (Result-cases (fill_slot u n).0) [
      | inl (_, e) ↦
          rw (e, fill_slots)
            (Kept-trans first (
              Kept-fill_slots row (fill_slot u n).2 (if (fill_slot u n).1 then true else found) left
                (j + 1)))
      | inr (inl (_, e)) ↦ rw (e, fill_slots) first
      | inr (inr e) ↦ rw (e, fill_slots) first
    ]

pub Kept-fill_rows : (u : FileSystem) (left row : ℕ) → Kept u (fill_rows u left row).1
unfolding fill_rows
Kept-fill_rows u zero row = Kept-refl u
Kept-fill_rows u (suc left) row =
    let slots = fill_slots row u false 16 0 in
    let first = Kept-fill_slots row u false 16 0 in
    elim (Result-cases slots.0) [
      | inl (_, e) ↦
          rw (e, fill_rows)
            (Kept-trans first (elim (Bool-cases slots.1) [
              | inl used ↦ rw used (
                  Kept-trans (Kept-set_fbm slots.2 (u.s.s_inode_start + row))
                    (Kept-fill_rows (set_fbm slots.2 (u.s.s_inode_start + row)) left (row + 1)))
              | inr unused ↦ rw unused (Kept-fill_rows slots.2 left (row + 1))
            ]))
      | inr (inl (_, e)) ↦ rw (e, fill_rows) first
      | inr (inr e) ↦ rw (e, fill_rows) first
    ]
