-- ===== src/Layout.antt =====
-- done/unixv6fs.h: the on-disk structures, and their bytes. Numbers of two bytes are little-endian,
-- as on the machines that the program is built for: it copies the structures by `memcpy`.
pub mod Laws
use file_system_public_copy.Prelude.{
  ℕ, ◌+◌, ◌*◌, ◌/◌, ◌%◌, ◌^◌, List, [], ◌∷◌, get_or, slice, bit_or, bit_and, Bool, not, ◌==◌, ◌-◌,
  if◌then◌else◌,
}
use file_system_public_copy.Stdio.{Buffer}

-- `struct superblock` without its padding.
pub record Superblock : Type 0 where
  pub s_isize : ℕ
  pub s_fsize : ℕ
  pub s_fbmsize : ℕ
  pub s_ibmsize : ℕ
  pub s_inode_start : ℕ
  pub s_block_start : ℕ
  pub s_fbm_start : ℕ
  pub s_ibm_start : ℕ
  pub s_flock : ℕ
  pub s_ilock : ℕ
  pub s_fmod : ℕ
  pub s_ronly : ℕ
  pub s_time : ℕ × ℕ

-- `struct inode`; `i_addr` has eight entries.
pub record Inode : Type 0 where
  pub i_mode : ℕ
  pub i_nlink : ℕ
  pub i_uid : ℕ
  pub i_gid : ℕ
  pub i_size0 : ℕ
  pub i_size1 : ℕ
  pub i_addr : List ℕ
  pub i_atime : ℕ × ℕ
  pub i_mtime : ℕ × ℕ

abbrev pub inodes_per_sector : ℕ
inodes_per_sector = 16

abbrev pub addresses_per_sector : ℕ
addresses_per_sector = 256

abbrev pub root_inumber : ℕ
root_inumber = 1

abbrev pub ialloc : ℕ
ialloc = 0o100000

abbrev pub ifdir : ℕ
ifdir = 0o40000

-- `mode & flag` as a condition.
unfoldable pub has_flag : ℕ → ℕ → Bool
has_flag mode flag = not (bit_and mode flag == 0)

-- `struct inode i = {0}`.
abbrev pub zero_inode : Inode
zero_inode = record {
  i_mode = 0;
  i_nlink = 0;
  i_uid = 0;
  i_gid = 0;
  i_size0 = 0;
  i_size1 = 0;
  i_addr = 0 ∷ 0 ∷ 0 ∷ 0 ∷ 0 ∷ 0 ∷ 0 ∷ 0 ∷ [];
  i_atime = (0, 0);
  i_mtime = (0, 0);
}

-- The `uint16_t` at byte `p`.
abbrev pub u16_at : Buffer → ℕ → ℕ
u16_at b p = b p + 256 * b (p + 1)

unfoldable pub decode_superblock : Buffer → Superblock
decode_superblock b = record {
  s_isize = u16_at b 0;
  s_fsize = u16_at b 2;
  s_fbmsize = u16_at b 4;
  s_ibmsize = u16_at b 6;
  s_inode_start = u16_at b 8;
  s_block_start = u16_at b 10;
  s_fbm_start = u16_at b 12;
  s_ibm_start = u16_at b 14;
  s_flock = b 16;
  s_ilock = b 17;
  s_fmod = b 18;
  s_ronly = b 19;
  s_time = (u16_at b 20, u16_at b 22);
}

-- `memcpy(&inode, &b[p], sizeof(struct inode))`.
unfoldable pub decode_inode : Buffer → ℕ → Inode
decode_inode b p = record {
  i_mode = u16_at b p;
  i_nlink = b (p + 2);
  i_uid = b (p + 3);
  i_gid = b (p + 4);
  i_size0 = b (p + 5);
  i_size1 = u16_at b (p + 6);
  i_addr = slice (λ k. u16_at b (p + 8 + 2 * k)) 0 8;
  i_atime = (u16_at b (p + 24), u16_at b (p + 26));
  i_mtime = (u16_at b (p + 28), u16_at b (p + 30));
}

abbrev pub u16_bytes : ℕ → List ℕ → List ℕ
u16_bytes n rest = n % 256 ∷ n / 256 % 256 ∷ rest

abbrev pub addr_bytes : List ℕ → List ℕ → List ℕ
addr_bytes [] rest = rest
addr_bytes (a ∷ as') rest = u16_bytes a (addr_bytes as' rest)

abbrev pub get_or_zero : List ℕ → ℕ → ℕ
get_or_zero xs k = get_or xs k 0

abbrev pub inode_bytes : Inode → List ℕ
inode_bytes i = u16_bytes i.i_mode (
    i.i_nlink
    ∷ i.i_uid
    ∷ i.i_gid
    ∷ i.i_size0
    ∷ u16_bytes i.i_size1 (
        addr_bytes (slice (get_or_zero i.i_addr) 0 8) (
          u16_bytes i.i_atime.0
            (u16_bytes i.i_atime.1 (u16_bytes i.i_mtime.0 (u16_bytes i.i_mtime.1 []))))))

-- The 32 bytes of an inode, as a source for `memcpy`.
unfoldable pub encode_inode : Inode → Buffer
encode_inode i k = get_or (inode_bytes i) k 0

-- `inode_getsize`, of done/inode.h.
unfoldable pub inode_getsize : Inode → ℕ
inode_getsize i = bit_or (i.i_size0 * 2 ^ 16) i.i_size1

-- `inode_getsectorsize`, of done/inode.h.
unfoldable pub inode_getsectorsize : Inode → ℕ
inode_getsectorsize i =
    let i_size = inode_getsize i in if i_size == 0 then 1 else ((i_size - 1) / 512 + 1) * 512 + 1
