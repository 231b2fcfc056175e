-- ===== src/File/Content.antt =====
-- done/filev6.c: the content of a file, filev6_readblock and filev6_lseek; inode_findsector of
-- done/inode.c.
use file_system_public_copy.Prelude.{
  ℕ, ◌+◌, ◌-◌, ◌*◌, ◌/◌, ◌%◌, ◌^◌, ◌≤◌, ◌<◌, ◌≡◌, ◌⊎◌, ap, ap₂, arith, true, slice, slice_ext,
  get_or, to_int16, u16, ok, err, ◌∙◌, min, ℕ_discrete,
}
use file_system_public_copy.Errors.{offset_out_of_range, bad_parameter}
use file_system_public_copy.Stdio.{Buffer}
use file_system_public_copy.Layout.{Inode, inode_getsize, ialloc, has_flag, u16_at}
use file_system_public_copy.Sector.Laws.{IsReadable, sector_read_lem}
use file_system_public_copy.FileSystem.{FileSystem}
use file_system_public_copy.Inode.{inode_findsector, inode_findsector_bigfile}
use file_system_public_copy.File.{Filev6, filev6_readblock, filev6_lseek}

-- Block `k` of the file lies in the readable sector `addr k`.
pub record IsFile (u : FileSystem) (i : Inode) (addr : ℕ → ℕ) : Type 0 where
  pub located : (k : ℕ) → k * 512 < inode_getsize i → inode_findsector u i k ≡ ok (addr k)
  pub readable : (k : ℕ) → k * 512 < inode_getsize i → IsReadable u.f (addr k)

-- The byte at place `p` of a file.
abbrev pub content : FileSystem → (ℕ → ℕ) → Buffer
content u addr p = u.f.byte (addr (p / 512) * 512 + p % 512)

-- How many bytes a block has at an offset.
abbrev pub block_length : Filev6 → ℕ
block_length f = min 512 (inode_getsize f.i_node - f.offset)

-- One block, as the code takes it from its sector.
block_from_sector :
    (u : FileSystem) (f : Filev6) (addr : ℕ → ℕ)
    → IsFile u f.i_node addr
    → f.offset < inode_getsize f.i_node
    → filev6_readblock u f ≡ (
      ok (slice (λ k. u.f.byte (addr (f.offset / 512) * 512 + k)) 0 (block_length f)),
      record f { offset = f.offset + block_length f },
    )
unfolding filev6_readblock
block_from_sector u f addr file inside = ground (
  arith,
  file.located (f.offset / 512) (omega arith),
  sector_read_lem u.f (addr (f.offset / 512)) (file.readable (f.offset / 512) (omega arith)),
)

-- Those bytes are the file's.
block-content :
    (u : FileSystem) (addr : ℕ → ℕ) (offset n : ℕ)
    → offset % 512 ≡ 0
    → n ≤ 512
    → slice (λ k. u.f.byte (addr (offset / 512) * 512 + k)) 0 n ≡ slice (content u addr) offset n
block-content u addr offset n aligned small =
    slice_ext (λ k. u.f.byte (addr (offset / 512) * 512 + k)) (content u addr) 0 offset n
      λ k h.
        let q : offset / 512 ≡ (offset + k) / 512 = omega arith in
        let r : 0 + k ≡ (offset + k) % 512 = omega arith in
        ap₂ (λ a b. u.f.byte (addr a * 512 + b)) q r

-- If the blocks of an open file are located in readable sectors, and its offset is the start of a
-- block or the end of the file and not past its end, then filev6_readblock returns the bytes of
-- the file from the offset on, 512 of them or those that are left, and moves the offset by their
-- number.
pub readblock_lem :
    (u : FileSystem) (f : Filev6) (addr : ℕ → ℕ)
    → IsFile u f.i_node addr
    → f.offset ≤ inode_getsize f.i_node
    → (f.offset % 512 ≡ 0) ⊎ (f.offset ≡ inode_getsize f.i_node)
    → filev6_readblock u f ≡ (
      ok (slice (content u addr) f.offset (block_length f)),
      record f { offset = f.offset + block_length f },
    )
unfolding filev6_readblock
readblock_lem u f addr file inside aligned = elim (ℕ_discrete f.offset (inode_getsize f.i_node)) [
  | yes e ↦ let z : block_length f ≡ 0 = omega arith in rw z (ground arith)
  | no ne ↦
      block_from_sector u f addr file (omega arith)
      ∙ ap (λ bytes. (ok bytes, record f { offset = f.offset + block_length f }))
          (block-content u addr f.offset (block_length f) (ground arith) (omega arith))
]

-- For an open file of a size below 2 ^ 31: if an offset is at most the size, and is the size or a
-- multiple of 512, filev6_lseek returns ERR_NONE and the offset is set; if it is above the size,
-- or else below it and no multiple of 512, the function returns ERR_OFFSET_OUT_OF_RANGE or
-- ERR_BAD_PARAMETER, and the open file stays.
pub lseek_lem :
    (f : Filev6) (offset : ℕ)
    → inode_getsize f.i_node < 2 ^ 31
    → let size = inode_getsize f.i_node in
      let (status, f') = filev6_lseek f offset in
      ((offset ≤ size)
        × ((offset ≡ size) ⊎ (offset % 512 ≡ 0))
        × (status ≡ ok 0)
        × (f' ≡ record f { offset = offset }))
      ⊎ ((size < offset) × (status ≡ err offset_out_of_range) × (f' ≡ f))
      ⊎ ((offset < size) × (1 ≤ offset % 512) × (status ≡ err bad_parameter) × (f' ≡ f))
unfolding filev6_lseek
lseek_lem f offset small = ground arith

-- A small file is one of at most eight blocks, the last of them not full; the inode lists them.
pub record IsSmallFile (u : FileSystem) (i : Inode) : Type 0 where
  pub allocated : has_flag i.i_mode ialloc ≡ true
  pub small : inode_getsize i < 8 * 512
  pub blocks : (k : ℕ) → k * 512 < inode_getsize i → IsReadable u.f (get_or i.i_addr k 0)

-- The blocks of a small file are at the addresses in its inode.
pub IsSmallFile-IsFile :
    (u : FileSystem) (i : Inode) → IsSmallFile u i → IsFile u i (λ k. get_or i.i_addr k 0)
unfolding inode_findsector
IsSmallFile-IsFile u i s = record {
  located = λ k h. ground (arith, s.allocated);
  readable = s.blocks;
}

-- The two bytes of the address of block `k`, in the indirect sector that lists it.
abbrev pub indirect_address : FileSystem → Inode → ℕ → ℕ
indirect_address u i k =
    u16_at (λ p. u.f.byte (get_or i.i_addr (k / 256) 0 * 512 + p)) (k % 256 * 2)

-- A large file has from 8 * 512 to 1792 * 512 - 1 bytes; the inode lists indirect sectors.
pub record IsLargeFile (u : FileSystem) (i : Inode) : Type 0 where
  pub allocated : has_flag i.i_mode ialloc ≡ true
  pub large : 8 * 512 ≤ inode_getsize i
  pub supported : inode_getsize i < 1792 * 512
  pub indirect : (k : ℕ) → k * 512 < inode_getsize i → IsReadable u.f (get_or i.i_addr (k / 256) 0)
  pub positive : (k : ℕ) → k * 512 < inode_getsize i → indirect_address u i k < 2 ^ 15
  pub blocks : (k : ℕ) → k * 512 < inode_getsize i → IsReadable u.f (indirect_address u i k)

to_int16_small : (n : ℕ) → n < 2 ^ 15 → to_int16 n ≡ ok n
to_int16_small n h = let e : u16 n ≡ n = omega arith in rw e (ground arith)

-- An address of an indirect sector as C returns it: read into an `int16_t`.
pub findsector_large :
    (u : FileSystem) (i : Inode) (k : ℕ)
    → has_flag i.i_mode ialloc ≡ true
    → 8 * 512 ≤ inode_getsize i
    → inode_getsize i < 1792 * 512
    → k * 512 < inode_getsize i
    → IsReadable u.f (get_or i.i_addr (k / 256) 0)
    → inode_findsector u i k ≡ to_int16 (indirect_address u i k)
unfolding inode_findsector inode_findsector_bigfile
findsector_large u i k allocated large supported h readable =
    ground (arith, allocated, sector_read_lem u.f (get_or i.i_addr (k / 256) 0) readable)

-- If an inode is allocated, has a size from 4096 to below 1792 * 512, its indirect sectors can be
-- read, and every address that they list for a block is below 2 ^ 15 and names a readable sector,
-- then inode_findsector gives for every block the address that is listed, and its sector is
-- readable.
pub IsLargeFile-IsFile :
    (u : FileSystem) (i : Inode) → IsLargeFile u i → IsFile u i (indirect_address u i)
IsLargeFile-IsFile u i s = record {
  located = λ k h.
      findsector_large u i k s.allocated s.large s.supported h (s.indirect k h)
      ∙ to_int16_small (indirect_address u i k) (s.positive k h);
  readable = s.blocks;
}

-- If an inode is allocated, has a size from 4096 to below 1792 * 512, and the indirect sector of
-- a block can be read and lists for it an address from 2 ^ 15 to below 2 ^ 16, then
-- inode_findsector returns that address less 2 ^ 16, a negative number that its callers take for
-- an error.
pub findsector_negative :
    (u : FileSystem) (i : Inode) (k : ℕ)
    → has_flag i.i_mode ialloc ≡ true
    → 8 * 512 ≤ inode_getsize i
    → inode_getsize i < 1792 * 512
    → k * 512 < inode_getsize i
    → IsReadable u.f (get_or i.i_addr (k / 256) 0)
    → 2 ^ 15 ≤ indirect_address u i k
    → indirect_address u i k < 2 ^ 16
    → inode_findsector u i k ≡ err (2 ^ 16 - indirect_address u i k)
findsector_negative u i k allocated large supported h readable big fits =
    findsector_large u i k allocated large supported h readable ∙ ground arith

-- The last block of a file, wherever the others are.
pub last_block :
    (u : FileSystem) (f : Filev6) (x : ℕ)
    → f.offset < inode_getsize f.i_node
    → inode_getsize f.i_node ≤ f.offset + 512
    → inode_findsector u f.i_node (f.offset / 512) ≡ ok x
    → IsReadable u.f x
    → (filev6_readblock u f).0
      ≡ ok (slice (λ k. u.f.byte (x * 512 + k)) 0 (inode_getsize f.i_node - f.offset))
unfolding filev6_readblock
last_block u f x inside last located readable = ground (arith, sector_read_lem u.f x readable)

-- A block of a small file.
pub findsector_small :
    (u : FileSystem) (i : Inode) (k : ℕ)
    → has_flag i.i_mode ialloc ≡ true
    → inode_getsize i < 8 * 512
    → k * 512 ≤ inode_getsize i
    → inode_findsector u i k ≡ ok (get_or i.i_addr k 0)
unfolding inode_findsector
findsector_small u i k allocated small inside = ground (arith, allocated)
