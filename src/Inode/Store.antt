-- ===== src/Inode/Store.antt =====
-- done/inode.c: inode_read and inode_write.
use file_system_public_copy.Prelude.{
  ℕ, ◌+◌, ◌-◌, ◌*◌, ◌/◌, ◌^◌, ◌≤◌, ◌<◌, ◌≡◌, ◌≢◌, ap, arith, true, false, if◌then◌else◌, ◌==◌, ok,
  err, ◌∙◌, ℕ_discrete, subst, sym,
}
use file_system_public_copy.Errors.{unallocated_inode}
use file_system_public_copy.Stdio.{Buffer, memcpy, memcpy_inside, memcpy_outside}
use file_system_public_copy.Layout.{Inode, ialloc, has_flag, decode_inode, encode_inode}
use file_system_public_copy.Layout.Laws.{IsInode, decode-encode, decode_ext}
use file_system_public_copy.Sector.{sector_write}
use file_system_public_copy.Sector.Laws.{
  IsReadable, sector_read_lem, byte-sector_write, sector_write-IsReadable,
}
use file_system_public_copy.FileSystem.{FileSystem}
use file_system_public_copy.Inode.{
  inode_read, inode_write, target_sector, inode_index, out_of_range,
}

-- The inode number `inr` has its place in the inode table, and its sector can be read and written.
pub record InTable (u : FileSystem) (inr : ℕ) : Type 0 where
  pub start_small : u.s.s_inode_start < 2 ^ 16
  pub size_small : u.s.s_isize < 2 ^ 16
  pub used : 1 ≤ inr
  pub in_table : inr < 16 * u.s.s_isize
  pub readable : IsReadable u.f (inr / 16 + u.s.s_inode_start)

-- The sector and the index, with no wrap.
abbrev pub sector_of : FileSystem → ℕ → ℕ
sector_of u inr = inr / 16 + u.s.s_inode_start

pub target_sector_lem :
    (u : FileSystem) (inr : ℕ)
    → InTable u inr
    → (target_sector u.s inr ≡ sector_of u inr) × (out_of_range u.s inr ≡ false)
target_sector_lem u inr t = (omega arith, ground arith)

-- The bytes of an inode within its sector of the file.
abbrev pub table_bytes : FileSystem → ℕ → Buffer
table_bytes u inr k = u.f.byte (sector_of u inr * 512 + k)

-- Reading an inode of the table: its bytes, decoded, if they carry the flag IALLOC.
pub inode_read_lem :
    (u : FileSystem) (inr : ℕ)
    → InTable u inr
    → inode_read u inr ≡ (
        let inode = decode_inode (table_bytes u inr) (inode_index inr) in
        if has_flag inode.i_mode ialloc then ok inode else err unallocated_inode)
unfolding inode_read
inode_read_lem u inr t = rw (
  (target_sector_lem u inr t).1,
  (target_sector_lem u inr t).0,
  sector_read_lem u.f (sector_of u inr) t.readable,
)

-- The sector of an inode with the inode put in.
abbrev pub new_block : FileSystem → ℕ → Inode → Buffer
new_block u inr i = memcpy (table_bytes u inr) (inode_index inr) 32 (encode_inode i)

-- The file system after a write of an inode of the table.
pub inode_write_lem :
    (u : FileSystem) (inr : ℕ) (i : Inode)
    → InTable u inr
    → inode_write u inr i
      ≡ (ok 0, record u { f = (sector_write u.f (sector_of u inr) (new_block u inr i)).1 })
unfolding inode_write
inode_write_lem u inr i t =
    rw
      (
        (target_sector_lem u inr t).1,
        (target_sector_lem u inr t).0,
        sector_read_lem u.f (sector_of u inr) t.readable,
      )
      (rw (
        (target_sector_lem u inr t).0,
        (sector_write-IsReadable u.f (sector_of u inr) (sector_of u inr) (new_block u inr i)
            t.readable t.readable).0,
      ))

-- The bytes of an inode of the table after another one, or itself, was written.
table_bytes-inode_write :
    (u : FileSystem) (inr m : ℕ) (i : Inode)
    → InTable u inr
    → InTable u m
    → (k : ℕ) → k < 32
    → table_bytes (inode_write u inr i).1 m (inode_index m + k)
      ≡ (if m == inr then encode_inode i k else table_bytes u m (inode_index m + k))
table_bytes-inode_write u inr m i t tm k h = rw (inode_write_lem u inr i t) (
    byte-sector_write u.f (sector_of u inr) (sector_of u m) (inode_index m + k) (new_block u inr i)
      t.readable tm.readable (omega arith)
    ∙ cases)
  where
    in_place : m ≡ inr → new_block u inr i (inode_index m + k) ≡ encode_inode i k
    in_place e = rw e (memcpy_inside (table_bytes u inr) (encode_inode i) (inode_index inr) 32 k h)

    beside :
        m ≢ inr
        → sector_of u m ≡ sector_of u inr
        → new_block u inr i (inode_index m + k) ≡ table_bytes u m (inode_index m + k)
    beside ne e =
        memcpy_outside (table_bytes u inr) (encode_inode i) (inode_index inr) 32 (inode_index m + k)
          (ground arith)
        ∙ ap (λ n. u.f.byte (n * 512 + (inode_index m + k))) (sym e)

    cases :
        (if sector_of u m == sector_of u inr
          then new_block u inr i (inode_index m + k)
          else table_bytes u m (inode_index m + k))
        ≡ (if m == inr then encode_inode i k else table_bytes u m (inode_index m + k))
    cases = elim (ℕ_discrete m inr) [
      | yes same ↦ ground (arith, in_place same)
      | no other ↦ elim (ℕ_discrete (sector_of u m) (sector_of u inr)) [
        | yes e ↦ ground (arith, beside other e)
        | no e ↦ ground arith
      ]
    ]

pub InTable-inode_write :
    (u : FileSystem) (inr m : ℕ) (i : Inode)
    → InTable u inr
    → InTable u m
    → InTable (inode_write u inr i).1 m
InTable-inode_write u inr m i t tm = rw (inode_write_lem u inr i t) (record {
  start_small = tm.start_small;
  size_small = tm.size_small;
  used = tm.used;
  in_table = tm.in_table;
  readable =
      (sector_write-IsReadable u.f (sector_of u inr) (sector_of u m) (new_block u inr i) t.readable
        tm.readable).1;
})

-- What the place of an inode decodes to after a write.
decode-inode_write :
    (u : FileSystem) (inr m : ℕ) (i : Inode)
    → InTable u inr
    → InTable u m
    → IsInode i
    → decode_inode (table_bytes (inode_write u inr i).1 m) (inode_index m)
      ≡ (if m == inr then i else decode_inode (table_bytes u m) (inode_index m))
decode-inode_write u inr m i t tm valid = elim (ℕ_discrete m inr) [
  | yes same ↦
      decode-encode i (table_bytes u' m) (inode_index m) valid
        (λ k h. bytes k h ∙ ground (arith, same))
      ∙ ground (arith, same)
  | no other ↦
      decode_ext (table_bytes u' m) (table_bytes u m) (inode_index m)
        (λ q lo hi. same_byte other q lo hi)
      ∙ ground (arith, other)
]
  where
    u' : FileSystem
    u' = (inode_write u inr i).1

    bytes :
        (k : ℕ)
        → k < 32
        → table_bytes u' m (inode_index m + k)
          ≡ (if m == inr then encode_inode i k else table_bytes u m (inode_index m + k))
    bytes k h = table_bytes-inode_write u inr m i t tm k h

    same_byte :
        m ≢ inr
        → (q : ℕ) → inode_index m ≤ q
        → q < inode_index m + 32
        → table_bytes u' m q ≡ table_bytes u m q
    same_byte other q lo hi =
        let e : inode_index m + (q - inode_index m) ≡ q = omega arith in
        subst (λ x. table_bytes u' m x ≡ table_bytes u m x) e
          (bytes (q - inode_index m) (omega arith) ∙ ground (arith, other))

-- For two numbers of the inode table whose sectors can be read, and an inode whose fields fit
-- their types and which has the flag IALLOC: inode_write of the inode at the first number returns
-- ERR_NONE, and then inode_read gives that inode at the first number and, at any other, what it
-- gave before.
pub inode_read-inode_write :
    (u : FileSystem) (inr m : ℕ) (i : Inode)
    → InTable u inr
    → InTable u m
    → IsInode i
    → has_flag i.i_mode ialloc ≡ true
    → let (status, u') = inode_write u inr i in
      (status ≡ ok 0) × (inode_read u' m ≡ (if m == inr then ok i else inode_read u m))
inode_read-inode_write u inr m i t tm valid flag = (
  rw (inode_write_lem u inr i t),
  ground (
    arith,
    inode_read_lem (inode_write u inr i).1 m (InTable-inode_write u inr m i t tm),
    inode_read_lem u m tm,
    decode-inode_write u inr m i t tm valid,
    flag,
  ),
)
