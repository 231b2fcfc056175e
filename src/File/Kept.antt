-- ===== src/File/Kept.antt =====
-- done/filev6.c: what filev6_create leaves of a file that is there already.
use file_system_public_copy.Prelude.{
  ℕ, ◌*◌, ◌/◌, ◌%◌, ◌^◌, ◌<◌, ◌≡◌, ◌≢◌, inl, inr, refl, sym, ap, arith, true, ok, ◌∙◌, subst, u16,
}
use file_system_public_copy.Layout.{Inode, ialloc, has_flag, inode_getsize}
use file_system_public_copy.Layout.Laws.{IsInode, has_flag-bit_or}
use file_system_public_copy.Bitmap.{Bitmap, bm_get}
use file_system_public_copy.Bitmap.Bits.{IsValid, InRange}
use file_system_public_copy.FileSystem.{FileSystem}
use file_system_public_copy.Sector.Laws.{IsReadable, sector_write-IsReadable}
use file_system_public_copy.Inode.{inode_read, inode_write, inode_alloc}
use file_system_public_copy.Inode.Store.{
  InTable, sector_of, new_block, inode_write_lem, inode_read-inode_write, InTable-inode_write,
}
use file_system_public_copy.Inode.Alloc.{inode_alloc_lem}
use file_system_public_copy.File.{Filev6, filev6_create}
use file_system_public_copy.File.Create.{created_node, created-IsInode}
use file_system_public_copy.File.Sectors.{SameSector, SameSector-inode_write}
use file_system_public_copy.File.Sound.{IsSound, address, bytes_of}

-- A file is sound as it was, with the bytes that it had.
pub record IsKept (u u' : FileSystem) (fv6 : Filev6) : Type 0 where
  pub sound : IsSound u' fv6
  pub bitmap : u'.fbm ≡ u.fbm
  pub bytes :
      (p : ℕ) → p < inode_getsize fv6.i_node → bytes_of u' fv6.i_node p ≡ bytes_of u fv6.i_node p

-- Of what was there before the inode `n` was made, the other inodes of the table and the data sectors
-- stay.
pub record IsCreated (u u' : FileSystem) (n : ℕ) : Type 0 where
  pub places : (m : ℕ) → InTable u m → InTable u' m
  pub others : (m : ℕ) → InTable u m → m ≢ n → inode_read u' m ≡ inode_read u m
  pub sectors : (y : ℕ) → InRange u.fbm y → SameSector u.f u'.f y
  pub beside : (y : ℕ) → IsReadable u.f y → y ≢ sector_of u n → SameSector u.f u'.f y
  pub super : u'.s ≡ u.s
  pub inodes : IsValid u'.ibm

InTable-ibm : (u : FileSystem) (b : Bitmap) (n : ℕ) → InTable u n → InTable (record u { ibm = b }) n
InTable-ibm u b n t = record {
  start_small = t.start_small;
  size_small = t.size_small;
  used = t.used;
  in_table = t.in_table;
  readable = t.readable;
}

-- The inode bitmap has no part in it.
IsSound-ibm :
    (u : FileSystem) (b : Bitmap) (fv6 : Filev6)
    → IsSound u fv6
    → IsSound (record u { ibm = b }) fv6
unfolding inode_read
IsSound-ibm u b fv6 s = record {
  ready = record {
    fbm_valid = s.ready.fbm_valid;
    fbm_small = s.ready.fbm_small;
    sectors = s.ready.sectors;
    table = InTable-ibm u b fv6.i_number s.ready.table;
    apart = s.ready.apart;
    node = s.ready.node;
    allocated = s.ready.allocated;
  };
  small = s.small;
  stored = s.stored;
  blocks = s.blocks;
  used = s.used;
  distinct = s.distinct;
}

-- Nor has an inode other than its own.
pub IsKept-inode_write :
    (u : FileSystem) (n : ℕ) (i : Inode) (fv6 : Filev6)
    → IsSound u fv6
    → InTable u n
    → n ≢ fv6.i_number
    → IsInode i
    → has_flag i.i_mode ialloc ≡ true
    → IsKept u (inode_write u n i).1 fv6
IsKept-inode_write u n i fv6 s t ne valid flag = record {
  sound = record {
    ready = record {
      fbm_valid = subst IsValid (sym fbm) s.ready.fbm_valid;
      fbm_small = rw fbm s.ready.fbm_small;
      sectors = rw (inode_write_lem u n i t) (λ x r.
          (sector_write-IsReadable u.f (sector_of u n) x (new_block u n i) t.readable
            (s.ready.sectors x r)).1);
      table = InTable-inode_write u n fv6.i_number i t s.ready.table;
      apart = rw (inode_write_lem u n i t) s.ready.apart;
      node = s.ready.node;
      allocated = s.ready.allocated;
    };
    small = s.small;
    stored =
        (inode_read-inode_write u n fv6.i_number i t s.ready.table valid flag).1
        ∙ ground (arith, ne, s.stored);
    blocks = rw (inode_write_lem u n i t) s.blocks;
    used = rw (inode_write_lem u n i t) s.used;
    distinct = s.distinct;
  };
  bitmap = fbm;
  bytes = λ p h. (same (p / 512) (omega (arith, h))).bytes (p % 512) (omega arith);
}
  where
    fbm : (inode_write u n i).1.fbm ≡ u.fbm
    fbm = rw (inode_write_lem u n i t) refl

    same :
        (k : ℕ)
        → k * 512 < inode_getsize fv6.i_node
        → SameSector u.f (inode_write u n i).1.f (address fv6.i_node k)
    same k h =
        SameSector-inode_write u n i (address fv6.i_node k) t
          (s.ready.sectors (address fv6.i_node k) (s.blocks k h))
          (omega (arith, (s.blocks k h).above, s.ready.apart, t.in_table))

module _ (u : FileSystem) (mode : ℕ) (fv6 new : Filev6) (n : ℕ) (v : IsValid u.ibm)
    (small : u.ibm.max < 2 ^ 16) (mode_small : mode < 2 ^ 16) (node : IsInode new.i_node)
    (found : (inode_alloc u).0 ≡ ok n) (table : InTable u n) (s : IsSound u fv6)
    (taken : bm_get u.ibm fv6.i_number ≡ ok 1) where
  abbrev u1 : FileSystem
  u1 = (inode_alloc u).1

  abbrev node' : Inode
  node' = created_node mode new.i_node

  u1_lem : u1 ≡ record u { ibm = u1.ibm }
  u1_lem = (inode_alloc_lem u v (omega (arith, small))).1

  -- The new number has 16 bits, and was not in use.
  number : (n < 2 ^ 16) × (n ≢ fv6.i_number)
  number = elim (inode_alloc_lem u v (omega (arith, small))).2 [
    | inr (e, _) ↦ absurd (ground (arith, found, e))
    | inl (m, e, r, free, bits) ↦
        let same : m ≡ n = ground (arith, found, e) in
        (omega (arith, same, r.below, small), λ q. ground (arith, free, taken, same, q))
  ]

  run : (filev6_create u mode new).2 ≡ (inode_write u1 n node').1
  unfolding filev6_create
  run = let fits : u16 n ≡ n = omega (arith, number.0) in rw (found, fits, filev6_create) refl

  -- A file whose number is in use is kept by the creation of another.
  pub filev6_create-IsKept : IsKept u (filev6_create u mode new).2 fv6
  filev6_create-IsKept =
      let s' : IsSound u1 fv6 =
        subst (λ t. IsSound t fv6) (sym u1_lem) (IsSound-ibm u u1.ibm fv6 s) in
      let t' : InTable u1 n =
        subst (λ t. InTable t n) (sym u1_lem) (InTable-ibm u u1.ibm n table) in
      let k =
        IsKept-inode_write u1 n node' fv6 s' t' number.1
          (created-IsInode mode new.i_node mode_small node) (has_flag-bit_or mode 15) in
      rw run (record {
        sound = k.sound;
        bitmap = k.bitmap ∙ ap (λ (t : FileSystem). t.fbm) u1_lem;
        bytes = λ p h. k.bytes p h ∙ ap (λ (t : FileSystem). bytes_of t fv6.i_node p) u1_lem;
      })

  -- The new inode has its place.
  pub filev6_create-InTable : InTable (filev6_create u mode new).2 n
  filev6_create-InTable =
      let t' : InTable u1 n =
        subst (λ t. InTable t n) (sym u1_lem) (InTable-ibm u u1.ibm n table) in
      rw run (InTable-inode_write u1 n n node' t' t')

  pub number_lem : (n < 2 ^ 16) × (n ≢ fv6.i_number)
  number_lem = number

  -- So is all that was there.
  pub filev6_create-IsCreated : IsCreated u (filev6_create u mode new).2 n
  unfolding inode_read
  filev6_create-IsCreated =
      let place : (m : ℕ) → InTable u m → InTable u1 m =
        λ m t. subst (λ x. InTable x m) (sym u1_lem) (InTable-ibm u u1.ibm m t) in
      let t' = place n table in
      let file : u1.f ≡ u.f = ap (λ (x : FileSystem). x.f) u1_lem in
      let beside : (y : ℕ)
          → IsReadable u.f y
          → y ≢ sector_of u n
          → SameSector u.f (inode_write u1 n node').1.f y =
        λ y r ne.
          subst (λ f. SameSector f (inode_write u1 n node').1.f y) file
            (SameSector-inode_write u1 n node' y t' (subst (λ f. IsReadable f y) (sym file) r)
              (λ e. ne (e ∙ ap (λ (x : FileSystem). sector_of x n) u1_lem))) in
      rw run (record {
        places = λ m t. InTable-inode_write u1 n m node' t' (place m t);
        others = λ m t ne.
            (inode_read-inode_write u1 n m node' t' (place m t)
              (created-IsInode mode new.i_node mode_small node) (has_flag-bit_or mode 15)).1
            ∙ ground (arith, ne, ap (λ (x : FileSystem). inode_read x m) u1_lem);
        sectors = λ y r.
            beside y (s.ready.sectors y r)
              (λ e. omega (arith, e, r.above, s.ready.apart, table.in_table));
        beside = beside;
        super = rw (inode_write_lem u1 n node' t') (ap (λ (x : FileSystem). x.s) u1_lem);
        inodes = rw (inode_write_lem u1 n node' t') (inode_alloc_lem u v (omega (arith, small))).0;
      })
