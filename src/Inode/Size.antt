-- ===== src/Inode/Size.antt =====
-- done/inode.c: inode_setsize, with inode_getsize and inode_getsectorsize of done/inode.h.
use file_system_public_copy.Prelude.{
  ℕ, ◌+◌, ◌%◌, ℕ_discrete, ◌/◌, ◌^◌, ◌≤◌, ◌<◌, ◌≡◌, ◌⊎◌, inl, inr, ap, arith, leb, ◌||◌, not, ◌==◌,
  Bool-cases, ok, err, ◌∙◌, dec_lt,
}
use file_system_public_copy.Prelude.Bits.{bit_and_ones}
use file_system_public_copy.Errors.{bad_parameter}
use file_system_public_copy.Layout.{Inode, inode_getsize, inode_getsectorsize}
use file_system_public_copy.Layout.Laws.{IsInode, getsize_sum}
use file_system_public_copy.Inode.{inode_setsize}

-- For a number of 32 bits: if it is below 2 ^ 24, inode_setsize returns ERR_NONE, inode_getsize
-- gives that number, and the other fields of the inode stay; if not, which covers the negative
-- ones, inode_setsize returns ERR_BAD_PARAMETER and the inode stays.
pub setsize-getsize :
    (i : Inode) (n : ℕ)
    → n < 2 ^ 32
    → let (status, i') = inode_setsize i n in
      ((n < 2 ^ 24)
        × (status ≡ ok 0)
        × (inode_getsize i' ≡ n)
        × (i' ≡ record i { i_size0 = i'.i_size0; i_size1 = i'.i_size1 }))
      ⊎ ((2 ^ 24 ≤ n) × (status ≡ err bad_parameter) × (i' ≡ i))
unfolding inode_setsize
setsize-getsize i n h = elim (dec_lt n (2 ^ 24)) [
  | yes l ↦ inl (l, ground arith, size l, ground arith)
  | no g ↦ inr (omega arith, ground arith, ground arith)
]
  where
    size : n < 2 ^ 24 → inode_getsize (inode_setsize i n).1 ≡ n
    size l = getsize_sum (inode_setsize i n).1 (ground arith) ∙ ground (arith, bit_and_ones 17 n)

-- A valid inode stays valid.
pub setsize-IsInode : (i : Inode) (n : ℕ) → IsInode i → IsInode (inode_setsize i n).1
unfolding inode_setsize
setsize-IsInode i n v = elim (Bool-cases (leb (2 ^ 31) n || not (n / 2 ^ 24 == 0))) [
  | inl e ↦ rw e v
  | inr e ↦ rw e (record {
    mode = v.mode;
    nlink = v.nlink;
    uid = v.uid;
    gid = v.gid;
    size0 = omega arith;
    size1 = omega arith;
    addr_length = v.addr_length;
    addr = v.addr;
    atime0 = v.atime0;
    atime1 = v.atime1;
    mtime0 = v.mtime0;
    mtime1 = v.mtime1;
  })
]

-- What a size of 24 bits does.
pub setsize-ok :
    (i : Inode) (n : ℕ)
    → n < 2 ^ 24
    → ((inode_setsize i n).0 ≡ ok 0)
      × (inode_getsize (inode_setsize i n).1 ≡ n)
      × ((inode_setsize i n).1.i_mode ≡ i.i_mode)
      × ((inode_setsize i n).1.i_addr ≡ i.i_addr)
setsize-ok i n h = elim (setsize-getsize i n (omega arith)) [
  | inl (_, status, size, same) ↦
      (status, size, ap (λ (j : Inode). j.i_mode) same, ap (λ (j : Inode). j.i_addr) same)
  | inr (big, _, _) ↦ absurd (omega arith)
]

-- The least multiple of a sector that holds the file, and one byte more.
pub getsectorsize_lem :
    (i : Inode)
    → let size = inode_getsectorsize i in
      (size % 512 ≡ 1) × (inode_getsize i + 1 ≤ size) × (size < inode_getsize i + 513)
unfolding inode_getsectorsize
getsectorsize_lem i = elim (ℕ_discrete (inode_getsize i) 0) [
  | yes e ↦ (ground (arith, e), ground (arith, e), ground (arith, e))
  | no e ↦ (ground (arith, e), ground (arith, e), ground (arith, e))
]
