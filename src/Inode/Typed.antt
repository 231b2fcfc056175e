-- ===== src/Inode/Typed.antt =====
-- done/inode.c: what inode_read can give.
use file_system_public_copy.Prelude.{
  ℕ, zero, suc, ◌+◌, ◌*◌, ◌^◌, ◌<◌, ◌≡◌, arith, true, get_or, slice, length-slice, ok, inl, inr,
  Result-cases, Bool-cases, subst, ◌&&◌, ◌==◌,
}
use file_system_public_copy.Stdio.{Buffer, File, fread_count}
use file_system_public_copy.Layout.{Inode, ialloc, has_flag, u16_at, decode_inode}
use file_system_public_copy.Layout.Laws.{IsInode}
use file_system_public_copy.Sector.{sector_read, sector_offset, sector_size}
use file_system_public_copy.FileSystem.{FileSystem}
use file_system_public_copy.Inode.{inode_read, target_sector, inode_index, out_of_range}

-- An element of a run, or 0 out of range.
get_or-slice-lt :
    (f : ℕ → ℕ) (i n k m : ℕ) → ((j : ℕ) → f j < m) → 0 < m → get_or (slice f i n) k 0 < m
get_or-slice-lt f i zero k m h p = p
get_or-slice-lt f i (suc n) zero m h p = h i
get_or-slice-lt f i (suc n) (suc k) m h p = get_or-slice-lt f (i + 1) n k m h p

decode-IsInode : (b : Buffer) (p : ℕ) → ((k : ℕ) → b k < 2 ^ 8) → IsInode (decode_inode b p)
unfolding decode_inode
decode-IsInode b p h = record {
  mode = word p;
  nlink = h (p + 2);
  uid = h (p + 3);
  gid = h (p + 4);
  size0 = h (p + 5);
  size1 = word (p + 6);
  addr_length = length-slice (λ k. u16_at b (p + 8 + 2 * k)) 0 8;
  addr = λ k.
      get_or-slice-lt (λ j. u16_at b (p + 8 + 2 * j)) 0 8 k (2 ^ 16) (λ j. word (p + 8 + 2 * j))
        (omega arith);
  atime0 = word (p + 24);
  atime1 = word (p + 26);
  mtime0 = word (p + 28);
  mtime1 = word (p + 30);
}
  where
    word : (q : ℕ) → u16_at b q < 2 ^ 16
    word q = omega (arith, h q, h (q + 1))

-- A sector that was read has the bytes of the file, or none that are not bytes.
sector_read-lt :
    (f : File) (n : ℕ) (b : Buffer)
    → ((k : ℕ) → f.byte k < 2 ^ 8)
    → sector_read f n ≡ ok b
    → (k : ℕ) → b k < 2 ^ 8
unfolding sector_read
sector_read-lt f n b h e k =
    let at = sector_offset n in
    elim (Bool-cases (f.seekable && fread_count f at sector_size == sector_size)) [
      | inl t ↦
          let q : (λ j. f.byte (at + j)) ≡ b = ground (arith, e, t) in
          subst (λ c. c k < 2 ^ 8) q (h (at + k))
      | inr t ↦ absurd (ground (arith, e, t))
    ]

-- If the bytes of the file are below 256 and inode_read gives an inode, then every field of the
-- inode fits its C type, its addresses are eight in number, and it has the flag IALLOC.
pub inode_read-IsInode :
    (u : FileSystem) (n : ℕ) (i : Inode)
    → ((k : ℕ) → u.f.byte k < 2 ^ 8)
    → inode_read u n ≡ ok i
    → IsInode i × (has_flag i.i_mode ialloc ≡ true)
unfolding inode_read
inode_read-IsInode u n i h e = elim (Bool-cases (out_of_range u.s n)) [
  | inl o ↦ absurd (ground (arith, e, o))
  | inr o ↦ elim (Result-cases (sector_read u.f (target_sector u.s n))) [
    | inr (inl (c, r)) ↦ absurd (ground (arith, e, o, r))
    | inr (inr r) ↦ absurd (ground (arith, e, o, r))
    | inl (b, r) ↦ elim (Bool-cases (has_flag (decode_inode b (inode_index n)).i_mode ialloc)) [
      | inl f ↦
          let q : decode_inode b (inode_index n) ≡ i = ground (arith, e, o, r, f) in
          subst (λ j. IsInode j × (has_flag j.i_mode ialloc ≡ true)) q
            (decode-IsInode b (inode_index n) (sector_read-lt u.f (target_sector u.s n) b h r), f)
      | inr f ↦ absurd (ground (arith, e, o, r, f))
    ]
  ]
]
