-- ===== src/File/Create.antt =====
-- done/filev6.c: filev6_create.
use file_system_public_copy.Prelude.{
  ℕ, ◌^◌, ◌<◌, ◌≡◌, refl, sym, ap, arith, inl, inr, subst, if◌then◌else◌, ◌==◌, Result, ok, ◌∙◌,
  u16, bit_or,
}
use file_system_public_copy.Prelude.Bits.{bit_or-lt}
use file_system_public_copy.Layout.{Inode, ialloc}
use file_system_public_copy.Layout.Laws.{IsInode, has_flag-bit_or}
use file_system_public_copy.Bitmap.{bm_get}
use file_system_public_copy.Bitmap.Bits.{IsValid}
use file_system_public_copy.FileSystem.{FileSystem}
use file_system_public_copy.Inode.{inode_read, inode_write, inode_alloc}
use file_system_public_copy.Inode.Store.{InTable, inode_write_lem, inode_read-inode_write}
use file_system_public_copy.Inode.Alloc.{inode_alloc_lem}
use file_system_public_copy.File.{Filev6, filev6_create}

-- The inode that is written.
abbrev pub created_node : ℕ → Inode → Inode
created_node mode i = record i { i_mode = bit_or mode ialloc }

pub created-IsInode :
    (mode : ℕ) (i : Inode) → mode < 2 ^ 16 → IsInode i → IsInode (created_node mode i)
created-IsInode mode i h v = record {
  mode = bit_or-lt 16 mode ialloc h (omega arith);
  nlink = v.nlink;
  uid = v.uid;
  gid = v.gid;
  size0 = v.size0;
  size1 = v.size1;
  addr_length = v.addr_length;
  addr = v.addr;
  atime0 = v.atime0;
  atime1 = v.atime1;
  mtime0 = v.mtime0;
  mtime1 = v.mtime1;
}

-- If the inode bitmap is valid and its numbers have 16 bits, inode_alloc gives n, n is in the
-- inode table with a sector that can be read, and the mode and the fields of the given inode fit
-- their types, then filev6_create returns ERR_NONE; the open file has number n, offset 0, and the
-- given inode with the mode and IALLOC as its mode; inode_read of n gives this inode; and the bit
-- of n was 0 and is 1.
pub filev6_create_lem :
    (u : FileSystem) (mode : ℕ) (fv6 : Filev6) (n : ℕ)
    → IsValid u.ibm
    → u.ibm.max < 2 ^ 16
    → mode < 2 ^ 16
    → IsInode fv6.i_node
    → (inode_alloc u).0 ≡ ok n
    → InTable u n
    → let (status, fv6', u') = filev6_create u mode fv6 in
      (status ≡ ok 0)
      × (fv6' ≡ record { i_number = n; i_node = created_node mode fv6.i_node; offset = 0 })
      × (inode_read u' n ≡ ok fv6'.i_node)
      × (bm_get u.ibm n ≡ ok 0)
      × (bm_get u'.ibm n ≡ ok 1)
unfolding filev6_create
filev6_create_lem u mode fv6 n v small mode_small node found table =
    elim (inode_alloc_lem u v (omega arith)).2 [
      | inr (e, _) ↦ absurd (ground (arith, found, e))
      | inl (m, e, r, free, bits) ↦
          let same : m ≡ n = ground (arith, found, e) in
          let fits : u16 n ≡ n = omega (arith, same, r.below, small) in
          rw (found, fits, filev6_create)
            (
              w.0,
              refl,
              ground (arith, w.1),
              rw (sym same) free,
              ap (λ (t : Result ℕ × FileSystem). bm_get t.1.ibm n)
                    (inode_write_lem u' n node' table')
                  ∙ ground (arith, bits n, same),
            )
    ]
  where
    u' : FileSystem
    u' = (inode_alloc u).1

    kept : u' ≡ record u { ibm = u'.ibm }
    kept = (inode_alloc_lem u v (omega arith)).1

    node' : Inode
    node' = created_node mode fv6.i_node

    table' : InTable u' n
    table' =
        subst (λ t. InTable t n) (sym kept)
          (record {
            start_small = table.start_small;
            size_small = table.size_small;
            used = table.used;
            in_table = table.in_table;
            readable = table.readable;
          })

    w :
        ((inode_write u' n node').0 ≡ ok 0)
        × (inode_read (inode_write u' n node').1 n ≡ (if n == n then ok node' else inode_read u' n))
    w =
        inode_read-inode_write u' n n node' table' table'
          (created-IsInode mode fv6.i_node mode_small node) (has_flag-bit_or mode 15)
