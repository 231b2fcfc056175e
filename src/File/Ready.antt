-- ===== src/File/Ready.antt =====
-- done/filev6.c: the state in which `filev6_writesector` can write, and what its last step keeps.
use file_system_public_copy.Prelude.{
  ℕ, ◌+◌, ◌*◌, ◌/◌, ◌^◌, ◌≤◌, ◌<◌, ◌≡◌, ◌≢◌, sym, ap, arith, true, set, get_or, length, length-set,
  get_or-set_self, get_or-set_ne, Result, ok, ◌∙◌, u16, ℕ_discrete, subst,
}
use file_system_public_copy.Stdio.{Buffer}
use file_system_public_copy.Layout.{Inode, ialloc, has_flag, inode_getsize}
use file_system_public_copy.Layout.Laws.{IsInode}
use file_system_public_copy.Sector.{sector_write}
use file_system_public_copy.Sector.Laws.{IsReadable, sector_write-IsReadable, byte-sector_write}
use file_system_public_copy.Bitmap.{Bitmap, bm_find_next}
use file_system_public_copy.Bitmap.Bits.{IsValid, InRange}
use file_system_public_copy.Bitmap.Find.{bm_find_next_lem}
use file_system_public_copy.FileSystem.{FileSystem}
use file_system_public_copy.Inode.{inode_read, inode_write, inode_setsize}
use file_system_public_copy.Inode.Size.{setsize-IsInode, setsize-ok}
use file_system_public_copy.Inode.Store.{
  InTable, sector_of, new_block, inode_write_lem, inode_read-inode_write, InTable-inode_write,
}
use file_system_public_copy.File.{Filev6}

-- The file system can take a write to an open file: the data bitmap is valid and its sectors can be
-- written, they lie behind the inode table, and the inode is an allocated one of the table.
pub record IsReady (u : FileSystem) (fv6 : Filev6) : Type 0 where
  pub fbm_valid : IsValid u.fbm
  pub fbm_small : u.fbm.max < 2 ^ 16
  pub sectors : (x : ℕ) → InRange u.fbm x → IsReadable u.f x
  pub table : InTable u fv6.i_number
  pub apart : u.s.s_inode_start + u.s.s_isize ≤ u.fbm.min
  pub node : IsInode fv6.i_node
  pub allocated : has_flag fv6.i_node.i_mode ialloc ≡ true

-- The inode with its new size, and then with the address of a sector.
abbrev pub sized : Filev6 → ℕ → Inode
sized fv6 n = (inode_setsize fv6.i_node n).1

abbrev pub linked : Filev6 → ℕ → ℕ → Inode
linked fv6 n x = record (sized fv6 n) {
  i_addr = set (sized fv6 n).i_addr (inode_getsize (sized fv6 n) / 512) (u16 x);
}

-- The file system after the sector was written.
abbrev pub with_sector : FileSystem → ℕ → Buffer → FileSystem
with_sector u x block = record u { fbm = (bm_find_next u.fbm).1; f = (sector_write u.f x block).1 }

module _ (u : FileSystem) (fv6 : Filev6) (n x : ℕ) (block : Buffer) (r : IsReady u fv6)
    (free : InRange u.fbm x) (small : n < 8 * 512) where
  -- The file system and the inode that the last step writes.
  abbrev pub before : FileSystem
  before = with_sector u x block

  abbrev pub node' : Inode
  node' = linked fv6 n x

  abbrev pub after : FileSystem
  after = (inode_write before fv6.i_number node').1

  before-InTable : InTable before fv6.i_number
  before-InTable = record {
    start_small = r.table.start_small;
    size_small = r.table.size_small;
    used = r.table.used;
    in_table = r.table.in_table;
    readable =
        (sector_write-IsReadable u.f x (sector_of u fv6.i_number) block (r.sectors x free)
          r.table.readable).1;
  }

  in_addr : inode_getsize (sized fv6 n) / 512 < length (sized fv6 n).i_addr
  in_addr =
      let so = setsize-ok fv6.i_node n (omega arith) in
      rw (so.1, so.3, r.node.addr_length) (omega arith)

  pub node'-IsInode : IsInode node'
  node'-IsInode =
      let v = setsize-IsInode fv6.i_node n r.node in
      let index = inode_getsize (sized fv6 n) / 512 in
      record {
        mode = v.mode;
        nlink = v.nlink;
        uid = v.uid;
        gid = v.gid;
        size0 = v.size0;
        size1 = v.size1;
        addr_length = length-set (sized fv6 n).i_addr index (u16 x) ∙ v.addr_length;
        addr = λ k. elim (ℕ_discrete index k) [
          | yes e ↦
              subst (λ t. get_or node'.i_addr t 0 < 2 ^ 16) e
                (rw (get_or-set_self (sized fv6 n).i_addr index (u16 x) 0 in_addr) (omega arith))
          | no ne ↦ rw (get_or-set_ne (sized fv6 n).i_addr index k (u16 x) 0 ne) (v.addr k)
        ];
        atime0 = v.atime0;
        atime1 = v.atime1;
        mtime0 = v.mtime0;
        mtime1 = v.mtime1;
      }

  pub node'-allocated : has_flag node'.i_mode ialloc ≡ true
  node'-allocated = rw (setsize-ok fv6.i_node n (omega arith)).2 r.allocated

  pub node'-addr : node'.i_addr ≡ set fv6.i_node.i_addr (n / 512) x
  node'-addr =
      let so = setsize-ok fv6.i_node n (omega arith) in
      let e : u16 x ≡ x = omega (arith, free.below, r.fbm_small) in rw (so.1, so.3, e)

  pub stored :
      ((inode_write before fv6.i_number node').0 ≡ ok 0)
      × (inode_read after fv6.i_number ≡ ok node')
  stored =
      let w =
        inode_read-inode_write before fv6.i_number fv6.i_number node' before-InTable before-InTable
          node'-IsInode node'-allocated in
      (w.0, ground (arith, w.1))

  pub bytes_kept : (k : ℕ) → k < 512 → after.f.byte (x * 512 + k) ≡ block k
  bytes_kept k h =
      ap (λ (t : Result ℕ × FileSystem). t.1.f.byte (x * 512 + k))
        (inode_write_lem before fv6.i_number node' before-InTable)
      ∙ (byte-sector_write before.f (sector_of before fv6.i_number) x k
            (new_block before fv6.i_number node') before-InTable.readable x-readable h
          ∙ ground (arith, apart, byte-sector_write u.f x x k block here here h))
    where
      here : IsReadable u.f x
      here = r.sectors x free

      x-readable : IsReadable before.f x
      x-readable = (sector_write-IsReadable u.f x x block here here).1

      apart : x ≢ sector_of before fv6.i_number
      apart = omega (arith, r.apart, free.above, r.table.in_table)

  pub fbm_kept : after.fbm ≡ (bm_find_next u.fbm).1
  fbm_kept =
      ap (λ (t : Result ℕ × FileSystem). t.1.fbm)
        (inode_write_lem before fv6.i_number node' before-InTable)

  -- The data bitmap after the search.
  fbm' : Bitmap
  fbm' = (bm_find_next u.fbm).1

  fbm'-same : (fbm'.min ≡ u.fbm.min) × (fbm'.max ≡ u.fbm.max) × IsValid fbm'
  unfolding fbm'
  fbm'-same =
      let f = bm_find_next_lem u.fbm r.fbm_valid (omega (arith, r.fbm_small)) in
      (ap (λ (b : Bitmap). b.min) f.1, ap (λ (b : Bitmap). b.max) f.1, f.0)

  after-IsReadable : (y : ℕ) → IsReadable u.f y → IsReadable after.f y
  after-IsReadable y h =
      subst (λ (t : Result ℕ × FileSystem). IsReadable t.1.f y)
        (sym (inode_write_lem before fv6.i_number node' before-InTable))
        (sector_write-IsReadable before.f (sector_of before fv6.i_number) y
          (new_block before fv6.i_number node') before-InTable.readable
          (sector_write-IsReadable u.f x y block (r.sectors x free) h).1).1

  superblock_kept : after.s ≡ u.s
  superblock_kept =
      ap (λ (t : Result ℕ × FileSystem). t.1.s)
        (inode_write_lem before fv6.i_number node' before-InTable)

  in_old : (y : ℕ) → InRange after.fbm y → InRange u.fbm y
  in_old y h =
      let lo : after.fbm.min ≡ u.fbm.min =
        ap (λ (b : Bitmap). b.min) fbm_kept ∙ (unfold fbm' in fbm'-same.0) in
      let hi : after.fbm.max ≡ u.fbm.max =
        ap (λ (b : Bitmap). b.max) fbm_kept ∙ (unfold fbm' in fbm'-same.1) in
      record { above = omega (arith, lo, h.above); below = omega (arith, hi, h.below) }

  pub after-IsReady : IsReady after (record fv6 { i_node = node' })
  unfolding fbm'
  after-IsReady = record {
    fbm_valid = rw fbm_kept fbm'-same.2;
    fbm_small = rw (fbm_kept, fbm'-same.1) r.fbm_small;
    sectors = λ y h. after-IsReadable y (r.sectors y (in_old y h));
    table =
        InTable-inode_write before fv6.i_number fv6.i_number node' before-InTable before-InTable;
    apart = rw (superblock_kept, fbm_kept, fbm'-same.0) r.apart;
    node = node'-IsInode;
    allocated = node'-allocated;
  }
