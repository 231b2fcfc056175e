-- ===== src/File/Sound.antt =====
-- done/filev6.c: the open files that can grow, and what growing one means.
use file_system_public_copy.Prelude.{ℕ, ◌+◌, ◌*◌, ◌/◌, ◌%◌, ◌<◌, ◌≡◌, ◌≢◌, ok, get_or}
use file_system_public_copy.Stdio.{Buffer}
use file_system_public_copy.Layout.{Inode, inode_getsize}
use file_system_public_copy.Bitmap.{bm_get, bm_find_next}
use file_system_public_copy.Bitmap.Bits.{InRange}
use file_system_public_copy.FileSystem.{FileSystem}
use file_system_public_copy.Inode.{inode_read}
use file_system_public_copy.Inode.Store.{InTable}
use file_system_public_copy.File.{Filev6, Written}
use file_system_public_copy.File.Content.{IsSmallFile, content}
use file_system_public_copy.File.Ready.{IsReady}
use file_system_public_copy.File.Sectors.{SameSector}
use file_system_public_copy.Sector.Laws.{IsReadable}

-- Where the inode of a small file says that block `k` is.
abbrev pub address : Inode → ℕ → ℕ
address i k = get_or i.i_addr k 0

-- The bytes of a small file.
abbrev pub bytes_of : FileSystem → Inode → Buffer
bytes_of u i = content u (address i)

-- An open file is sound: writes to it can be made; it is small, and its inode is the stored one; its
-- blocks are data sectors in use, no two of them the same.
pub record IsSound (u : FileSystem) (fv6 : Filev6) : Type 0 where
  pub ready : IsReady u fv6
  pub small : inode_getsize fv6.i_node < 8 * 512
  pub stored : inode_read u fv6.i_number ≡ ok fv6.i_node
  pub blocks : (k : ℕ) → k * 512 < inode_getsize fv6.i_node → InRange u.fbm (address fv6.i_node k)
  pub used :
      (k : ℕ) → k * 512 < inode_getsize fv6.i_node → bm_get u.fbm (address fv6.i_node k) ≡ ok 1
  pub distinct :
      (j k : ℕ)
      → j * 512 < inode_getsize fv6.i_node
      → k * 512 < inode_getsize fv6.i_node
      → address fv6.i_node j ≡ address fv6.i_node k
      → j ≡ k

-- A sound file is small, in readable sectors.
pub IsSound-IsSmallFile : {u : FileSystem} {fv6 : Filev6} → IsSound u fv6 → IsSmallFile u fv6.i_node
IsSound-IsSmallFile {u} {fv6} s = record {
  allocated = s.ready.allocated;
  small = s.small;
  blocks = λ k h. s.ready.sectors (address fv6.i_node k) (s.blocks k h);
}

-- A file has grown by `len` bytes of `buf`: the status is ERR_NONE; the inode has the new size and
-- the mode it had, is stored, and is the only one that changed; the file is small, and its bytes are
-- the old ones and then the new ones. Of the rest, the superblock stays, sectors stay readable, and
-- those in use, other than the file's own, keep their bytes; a last block that is not full is used
-- up without a search of the bitmap, and a new one is the sector that the search gives.
pub record IsGrown (u : FileSystem) (fv6 : Filev6) (buf : Buffer) (len : ℕ) (out : Written)
    : Type 0 where
  pub status : out.0 ≡ ok 0
  pub size : inode_getsize out.1.i_node ≡ inode_getsize fv6.i_node + len
  pub mode : out.1.i_node.i_mode ≡ fv6.i_node.i_mode
  pub stored : inode_read out.2 fv6.i_number ≡ ok out.1.i_node
  pub others : (m : ℕ) → InTable u m → m ≢ fv6.i_number → inode_read out.2 m ≡ inode_read u m
  pub file : IsSmallFile out.2 out.1.i_node
  pub old :
      (p : ℕ)
      → p < inode_getsize fv6.i_node
      → bytes_of out.2 out.1.i_node p ≡ bytes_of u fv6.i_node p
  pub new : (k : ℕ) → k < len → bytes_of out.2 out.1.i_node (inode_getsize fv6.i_node + k) ≡ buf k
  pub super : out.2.s ≡ u.s
  pub readable : (y : ℕ) → IsReadable u.f y → IsReadable out.2.f y
  pub sectors :
      (y : ℕ)
      → InRange u.fbm y
      → bm_get u.fbm y ≡ ok 1
      → ((k : ℕ) → k * 512 < inode_getsize fv6.i_node → y ≢ address fv6.i_node k)
      → SameSector u.f out.2.f y
  pub partial :
      0 < inode_getsize fv6.i_node % 512
      → (out.2.fbm ≡ u.fbm) × (out.1.i_node.i_addr ≡ fv6.i_node.i_addr)
  pub fresh :
      inode_getsize fv6.i_node % 512 ≡ 0
      → (x : ℕ) → (bm_find_next u.fbm).0 ≡ ok x
      → (address out.1.i_node (inode_getsize fv6.i_node / 512) ≡ x)
        × (out.2.fbm ≡ (bm_find_next u.fbm).1)
