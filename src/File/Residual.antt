-- ===== src/File/Residual.antt =====
-- done/filev6.c: filev6_writesector_residual.
use file_system_public_copy.Prelude.{
  ℕ, ◌+◌, ◌-◌, ◌*◌, ◌/◌, ◌%◌, ◌≤◌, ◌<◌, ◌≡◌, ◌≢◌, inl, refl, sym, ap, arith, true, ok, ◌∙◌, get_or,
  ℕ_discrete, u32,
}
use file_system_public_copy.Stdio.{Buffer, memcpy, memcpy_inside, memcpy_outside}
use file_system_public_copy.Layout.{Inode, ialloc, has_flag, inode_getsize}
use file_system_public_copy.Layout.Laws.{IsInode}
use file_system_public_copy.Sector.{sector_write}
use file_system_public_copy.Sector.Laws.{IsReadable, sector_read_lem, sector_write-IsReadable}
use file_system_public_copy.FileSystem.{FileSystem}
use file_system_public_copy.Inode.{inode_write, inode_setsize}
use file_system_public_copy.Inode.Size.{setsize-ok, setsize-IsInode}
use file_system_public_copy.File.{Filev6, filev6_writesector_residual, store_size}
use file_system_public_copy.File.Content.{findsector_small}
use file_system_public_copy.File.Ready.{sized}
use file_system_public_copy.File.Sound.{IsSound, IsGrown, address, bytes_of}
use file_system_public_copy.File.Sectors.{SameSector}
use file_system_public_copy.File.TwoWrites.{
  inode_stored, inodes_kept, block_stored, block_bytes, sectors_kept, super_kept, IsReadable-kept,
  bitmap_kept,
}

module _ (u : FileSystem) (fv6 : Filev6) (buf : Buffer) (len : ℕ) (s : IsSound u fv6)
    (some' : 0 < inode_getsize fv6.i_node % 512) (fits : inode_getsize fv6.i_node % 512 + len ≤ 512)
    (small : inode_getsize fv6.i_node + len < 8 * 512) where
  abbrev size : ℕ
  size = inode_getsize fv6.i_node

  -- The last block, and its sector.
  abbrev x : ℕ
  x = address fv6.i_node (size / 512)

  abbrev block : Buffer
  block = memcpy (λ k. u.f.byte (x * 512 + k)) (size % 512) len buf

  abbrev node' : Inode
  node' = sized fv6 (size + len)

  abbrev u1 : FileSystem
  u1 = record u { f = (sector_write u.f x block).1 }

  last : size / 512 * 512 < size
  last = omega (arith, some')

  x-IsReadable : IsReadable u.f x
  x-IsReadable = s.ready.sectors x (s.blocks (size / 512) last)

  above : u.s.s_inode_start + u.s.s_isize ≤ x
  above = omega (arith, s.ready.apart, (s.blocks (size / 512) last).above)

  so :
      ((inode_setsize fv6.i_node (size + len)).0 ≡ ok 0)
      × (inode_getsize node' ≡ size + len)
      × (node'.i_mode ≡ fv6.i_node.i_mode)
      × (node'.i_addr ≡ fv6.i_node.i_addr)
  so = setsize-ok fv6.i_node (size + len) (omega (arith, small))

  valid : IsInode node'
  valid = setsize-IsInode fv6.i_node (size + len) s.ready.node

  flag : has_flag node'.i_mode ialloc ≡ true
  flag = rw so.2 s.ready.allocated

  abbrev u2 : FileSystem
  u2 = (inode_write u1 fv6.i_number node').1

  -- What the function does, where nothing fails.
  residual_run :
      filev6_writesector_residual u fv6 buf len (size / 512 + 1) (size % 512) size
      ≡ (ok 0, record fv6 { i_node = node' }, u2)
  unfolding filev6_writesector_residual store_size
  residual_run =
      let index : u32 (size / 512 + 1 - 1) ≡ size / 512 = omega (arith, small) in
      let new_size : u32 (size + len) ≡ size + len = omega (arith, small) in
      let found =
        findsector_small u fv6.i_node (size / 512) s.ready.allocated s.small
          (omega (arith, last)) in
      let read = sector_read_lem u.f x x-IsReadable in
      let wrote = (sector_write-IsReadable u.f x x block x-IsReadable x-IsReadable).0 in
      ground (arith, index, new_size, found, read, wrote, so.0)

  same_addresses : (k : ℕ) → address node' k ≡ address fv6.i_node k
  same_addresses k = ap (λ as'. get_or as' k 0) so.3

  -- Another block of the file.
  other_block :
      (k : ℕ) → k * 512 < size → k ≢ size / 512 → SameSector u.f u2.f (address fv6.i_node k)
  other_block k h ne =
      sectors_kept u u1 fv6.i_number x block node' refl refl s.ready.table x-IsReadable above valid
        flag (address fv6.i_node k) (s.ready.sectors (address fv6.i_node k) (s.blocks k h))
        (omega (arith, s.ready.apart, (s.blocks k h).above))
        (λ e. ne (s.distinct k (size / 512) h last e))

  last_block' : SameSector u1.f u2.f x
  last_block' =
      block_stored u u1 fv6.i_number x block node' refl refl s.ready.table x-IsReadable above valid
        flag

  last_bytes : (k : ℕ) → k < 512 → u2.f.byte (x * 512 + k) ≡ block k
  last_bytes =
      block_bytes u u1 fv6.i_number x block node' refl refl s.ready.table x-IsReadable above valid
        flag

  readable' : (k : ℕ) → k * 512 < size → IsReadable u2.f (address fv6.i_node k)
  readable' k h = elim (ℕ_discrete k (size / 512)) [
    | yes e ↦ rw e last_block'.readable
    | no ne ↦ (other_block k h ne).readable
  ]

  -- A byte of the file afterwards.
  byte' :
      (p : ℕ)
      → p < size + len
      → bytes_of u2 node' p ≡ u2.f.byte (address fv6.i_node (p / 512) * 512 + p % 512)
  byte' p h = ap (λ a. u2.f.byte (a * 512 + p % 512)) (same_addresses (p / 512))

  old : (p : ℕ) → p < size → bytes_of u2 node' p ≡ bytes_of u fv6.i_node p
  old p h = byte' p (omega (arith, h)) ∙ elim (ℕ_discrete (p / 512) (size / 512)) [
    | yes e ↦
        ap (λ a. u2.f.byte (address fv6.i_node a * 512 + p % 512)) e
        ∙ last_bytes (p % 512) (omega arith)
        ∙ memcpy_outside (λ k. u.f.byte (x * 512 + k)) buf (size % 512) len (p % 512)
            (inl (omega (arith, e, h)))
        ∙ ap (λ a. u.f.byte (address fv6.i_node a * 512 + p % 512)) (sym e)
    | no ne ↦ (other_block (p / 512) (omega (arith, h)) ne).bytes (p % 512) (omega arith)
  ]

  new : (k : ℕ) → k < len → bytes_of u2 node' (size + k) ≡ buf k
  new k h =
      let q : (size + k) / 512 ≡ size / 512 = omega (arith, fits, h) in
      let r : (size + k) % 512 ≡ size % 512 + k = omega (arith, fits, h) in
      byte' (size + k) (omega (arith, h))
      ∙ rw (q, r)
          (last_bytes (size % 512 + k) (omega (arith, fits, h))
            ∙ memcpy_inside (λ j. u.f.byte (x * 512 + j)) buf (size % 512) len k h)

  -- Bytes that fit in what is left of the last block are appended to the file.
  pub residual_lem :
      IsGrown u fv6 buf len
        (filev6_writesector_residual u fv6 buf len (size / 512 + 1) (size % 512) size)
  residual_lem = rw residual_run (record {
    status = refl;
    size = so.1;
    mode = so.2;
    stored =
        inode_stored u u1 fv6.i_number x block node' refl refl s.ready.table x-IsReadable above
          valid flag;
    others =
        inodes_kept u u1 fv6.i_number x block node' refl refl s.ready.table x-IsReadable above valid
          flag;
    file = record {
      allocated = flag;
      small = rw so.1 small;
      blocks = λ k h. rw (same_addresses k) (readable' k (omega (arith, h, so.1, some', fits)));
    };
    old = old;
    new = new;
    super =
        super_kept u u1 fv6.i_number x block node' refl refl s.ready.table x-IsReadable above valid
          flag;
    readable =
        IsReadable-kept u u1 fv6.i_number x block node' refl refl s.ready.table x-IsReadable above
          valid flag;
    sectors = λ y r used ne.
        sectors_kept u u1 fv6.i_number x block node' refl refl s.ready.table x-IsReadable above
          valid flag y (s.ready.sectors y r) (omega (arith, s.ready.apart, r.above))
          (ne (size / 512) last);
    partial = λ h. (
      bitmap_kept u u1 fv6.i_number x block node' refl refl s.ready.table x-IsReadable above valid
          flag,
      so.3,
    );
    fresh = λ z y e. absurd (omega (arith, z, some'));
  })
