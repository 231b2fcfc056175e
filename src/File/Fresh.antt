-- ===== src/File/Fresh.antt =====
-- done/filev6.c: filev6_writesector at the end of a file of whole blocks.
use file_system_public_copy.Prelude.{
  ℕ, ◌+◌, ◌*◌, ◌/◌, ◌%◌, ◌≤◌, ◌<◌, ◌≡◌, ◌≢◌, refl, sym, ap, arith, true, ok, ◌∙◌, get_or, set,
  get_or-set_self, get_or-set_ne, subst, ℕ_discrete,
}
use file_system_public_copy.Stdio.{Buffer, memcpy, memcpy_inside}
use file_system_public_copy.Layout.{Inode, ialloc, has_flag, inode_getsize}
use file_system_public_copy.Layout.Laws.{IsInode, getsize_addr}
use file_system_public_copy.Sector.Laws.{IsReadable}
use file_system_public_copy.Bitmap.{bm_find_next, bm_get}
use file_system_public_copy.Bitmap.Bits.{InRange}
use file_system_public_copy.Bitmap.Find.{find-ok}
use file_system_public_copy.FileSystem.{FileSystem}
use file_system_public_copy.Inode.{inode_write, inode_setsize}
use file_system_public_copy.Inode.Size.{setsize-ok}
use file_system_public_copy.File.{Filev6, filev6_writesector}
use file_system_public_copy.File.Ready.{
  sized, linked, with_sector, node'-IsInode, node'-allocated, node'-addr,
}
use file_system_public_copy.File.Write.{writesector_run}
use file_system_public_copy.File.Sound.{IsSound, IsGrown, address, bytes_of}
use file_system_public_copy.File.Sectors.{SameSector}
use file_system_public_copy.File.TwoWrites.{
  status, inode_stored, inodes_kept, block_stored, block_bytes, sectors_kept, super_kept,
  IsReadable-kept, bitmap_kept,
}

module _ (junk : Buffer) (u : FileSystem) (fv6 : Filev6) (buf : Buffer) (len x : ℕ)
    (s : IsSound u fv6) (whole : inode_getsize fv6.i_node % 512 ≡ 0) (some' : 0 < len)
    (short : len < 512) (small : inode_getsize fv6.i_node + len < 8 * 512)
    (found : (bm_find_next u.fbm).0 ≡ ok x) where
  abbrev size : ℕ
  size = inode_getsize fv6.i_node

  abbrev block : Buffer
  block = memcpy junk 0 len buf

  abbrev node' : Inode
  node' = linked fv6 (size + len) x

  abbrev u1 : FileSystem
  u1 = with_sector u x block

  free : InRange u.fbm x × (bm_get u.fbm x ≡ ok 0)
  free = find-ok u.fbm x s.ready.fbm_valid (omega (arith, s.ready.fbm_small)) found

  x-IsReadable : IsReadable u.f x
  x-IsReadable = s.ready.sectors x free.0

  above : u.s.s_inode_start + u.s.s_isize ≤ x
  above = omega (arith, s.ready.apart, free.0.above)

  valid : IsInode node'
  valid = node'-IsInode u fv6 (size + len) x block s.ready free.0 small

  flag : has_flag node'.i_mode ialloc ≡ true
  flag = node'-allocated u fv6 (size + len) x block s.ready free.0 small

  so :
      ((inode_setsize fv6.i_node (size + len)).0 ≡ ok 0)
      × (inode_getsize (sized fv6 (size + len)) ≡ size + len)
      × ((sized fv6 (size + len)).i_mode ≡ fv6.i_node.i_mode)
      × ((sized fv6 (size + len)).i_addr ≡ fv6.i_node.i_addr)
  so = setsize-ok fv6.i_node (size + len) (omega (arith, small))

  new_size : inode_getsize node' ≡ size + len
  new_size = getsize_addr (sized fv6 (size + len)) node'.i_addr ∙ so.1

  abbrev u2 : FileSystem
  u2 = (inode_write u1 fv6.i_number node').1

  addresses : node'.i_addr ≡ set fv6.i_node.i_addr (size / 512) x
  addresses =
      let e : (size + len) / 512 ≡ size / 512 = omega (arith, whole, short) in
      node'-addr u fv6 (size + len) x block s.ready free.0 small
      ∙ ap (λ k. set fv6.i_node.i_addr k x) e

  own_address : address node' (size / 512) ≡ x
  own_address =
      ap (λ as'. get_or as' (size / 512) 0) addresses
      ∙ get_or-set_self fv6.i_node.i_addr (size / 512) x 0
          (omega (arith, s.ready.node.addr_length, small))

  same_address : (k : ℕ) → k ≢ size / 512 → address node' k ≡ address fv6.i_node k
  same_address k ne =
      ap (λ as'. get_or as' k 0) addresses
      ∙ get_or-set_ne fv6.i_node.i_addr (size / 512) k x 0 (λ e. ne (sym e))

  -- A block that the file had.
  old_block : (k : ℕ) → k * 512 < size → SameSector u.f u2.f (address fv6.i_node k)
  old_block k h =
      sectors_kept u u1 fv6.i_number x block node' refl refl s.ready.table x-IsReadable above valid
        flag (address fv6.i_node k) (s.ready.sectors (address fv6.i_node k) (s.blocks k h))
        (omega (arith, s.ready.apart, (s.blocks k h).above))
        (λ e. absurd (ground (arith, s.used k h, free.1, e)))

  readable' : (k : ℕ) → k * 512 < size + len → IsReadable u2.f (address node' k)
  readable' k h = elim (ℕ_discrete k (size / 512)) [
    | yes e ↦
        subst (λ j. IsReadable u2.f (address node' j)) (sym e)
          (rw own_address
            (block_stored u u1 fv6.i_number x block node' refl refl s.ready.table x-IsReadable above
              valid flag).readable)
    | no ne ↦ rw (same_address k ne) (old_block k (omega (arith, h, ne, whole, short))).readable
  ]

  old : (p : ℕ) → p < size → bytes_of u2 node' p ≡ bytes_of u fv6.i_node p
  old p h =
      ap (λ a. u2.f.byte (a * 512 + p % 512)) (same_address (p / 512) (omega (arith, h, whole)))
      ∙ (old_block (p / 512) (omega (arith, h))).bytes (p % 512) (omega arith)

  new : (k : ℕ) → k < len → bytes_of u2 node' (size + k) ≡ buf k
  new k h =
      let q : (size + k) / 512 ≡ size / 512 = omega (arith, whole, short, h) in
      let r : (size + k) % 512 ≡ k = omega (arith, whole, short, h) in
      ap (λ j. u2.f.byte (address node' j * 512 + (size + k) % 512)) q
      ∙ ap (λ j. u2.f.byte (address node' (size / 512) * 512 + j)) r
      ∙ ap (λ a. u2.f.byte (a * 512 + k)) own_address
      ∙ block_bytes u u1 fv6.i_number x block node' refl refl s.ready.table x-IsReadable above valid
          flag k (omega (arith, h, short))
      ∙ ap block (omega arith)
      ∙ memcpy_inside junk buf 0 len k h

  -- Less than a sector, appended to whole blocks.
  pub fresh_lem : IsGrown u fv6 buf len (filev6_writesector junk u fv6 buf len size)
  fresh_lem =
      rw (writesector_run junk u fv6 buf len size x s.ready found small (omega (arith, short)))
        (record {
          status =
              status u u1 fv6.i_number x block node' refl refl s.ready.table x-IsReadable above
                valid flag;
          size = new_size;
          mode = so.2;
          stored =
              inode_stored u u1 fv6.i_number x block node' refl refl s.ready.table x-IsReadable
                above valid flag;
          others =
              inodes_kept u u1 fv6.i_number x block node' refl refl s.ready.table x-IsReadable above
                valid flag;
          file = record {
            allocated = flag;
            small = rw new_size small;
            blocks = λ k h. readable' k (omega (arith, h, new_size));
          };
          old = old;
          new = new;
          super =
              super_kept u u1 fv6.i_number x block node' refl refl s.ready.table x-IsReadable above
                valid flag;
          readable =
              IsReadable-kept u u1 fv6.i_number x block node' refl refl s.ready.table x-IsReadable
                above valid flag;
          sectors = λ y r used ne.
              sectors_kept u u1 fv6.i_number x block node' refl refl s.ready.table x-IsReadable
                above valid flag y (s.ready.sectors y r) (omega (arith, s.ready.apart, r.above))
                (λ e. absurd (ground (arith, used, free.1, e)));
          partial = λ h. absurd (omega (arith, h, whole));
          fresh = λ z y e. (
            own_address ∙ ground (arith, found, e),
            bitmap_kept u u1 fv6.i_number x block node' refl refl s.ready.table x-IsReadable above
                valid flag,
          );
        })
