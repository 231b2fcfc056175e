-- ===== src/Fuse/Listing.antt =====
-- done/u6fs_fuse.c: the loop of fs_readdir, and fs_readdir.
use file_system_public_copy.Prelude.{
  ℕ, zero, suc, ◌+◌, ◌*◌, ◌/◌, ◌%◌, ◌<◌, ◌≡◌, inl, inr, ap, arith, Bool, true, List, [], ◌∷◌, ◌++◌,
  ok, u16,
}
use file_system_public_copy.Stdio.{Buffer}
use file_system_public_copy.Layout.{Inode, inode_getsize, ifdir, has_flag, root_inumber}
use file_system_public_copy.FileSystem.{FileSystem}
use file_system_public_copy.Inode.{inode_read}
use file_system_public_copy.File.Content.{IsFile, content}
use file_system_public_copy.Directory.{DirectoryReader, dir_rounds, direntv6_dirlookup}
use file_system_public_copy.Directory.Reader.{entry_at, IsReader}
use file_system_public_copy.Directory.Find.{readdir_lem, opendir_lem}
use file_system_public_copy.Fuse.{fill_names, fs_readdir, dot, dot_dot}

-- The names of `left` entries from `k` on.
abbrev pub names_from : Buffer → ℕ → ℕ → List (List ℕ)
names_from g zero k = []
names_from g (suc left) k = (entry_at g k).name ∷ names_from g left (k + 1)

fill_names_lem :
    (fills : List ℕ → Bool) (rounds left : ℕ) (u : FileSystem) (addr : ℕ → ℕ) (size : ℕ)
    (d : DirectoryReader) (k : ℕ)
    → ((name : List ℕ) → fills name ≡ true)
    → IsReader u addr size d k
    → (k + left) * 16 ≡ size
    → left < rounds
    → fill_names fills rounds u d ≡ (names_from (content u addr) left k, ok 0)
unfolding fill_names
fill_names_lem fills zero left u addr size d k takes r total enough = absurd (omega (arith, enough))
fill_names_lem fills (suc rounds) zero u addr size d k takes r total enough =
    elim (readdir_lem u addr size d k r) [
      | inl (h, _, _, _) ↦ absurd (omega (arith, h, total))
      | inr (_, e) ↦ ground (arith, e)
    ]
fill_names_lem fills (suc rounds) (suc left) u addr size d k takes r total enough =
    elim (readdir_lem u addr size d k r) [
      | inl (h, d', e, r') ↦ ground (
        arith,
        e,
        takes (entry_at (content u addr) k).name,
        fill_names_lem fills rounds left u addr size d' (k + 1) takes r' (omega (arith, total))
            (omega (arith, enough)),
      )
      | inr (h, _) ↦ absurd (omega (arith, h, total))
    ]

-- If a path leads to an inode that can be read and is a directory, whose blocks are located in
-- readable sectors and whose size is a multiple of 16, and the filler takes every name, then
-- fs_readdir returns ERR_NONE and the names filled in are those of all entries of the directory
-- in their order, and then `.` and `..`.
pub fs_readdir_lem :
    (fills : List ℕ → Bool) (dirs : Buffer) (u : FileSystem) (path : List ℕ) (n : ℕ) (i : Inode)
    (addr : ℕ → ℕ)
    → ((name : List ℕ) → fills name ≡ true)
    → direntv6_dirlookup u root_inumber path ≡ ok n
    → inode_read u (u16 n) ≡ ok i
    → has_flag i.i_mode ifdir ≡ true
    → IsFile u i addr
    → inode_getsize i % 16 ≡ 0
    → fs_readdir fills dirs u path
      ≡ (names_from (content u addr) (inode_getsize i / 16) 0 ++ (dot ∷ dot_dot ∷ []), ok 0)
unfolding fs_readdir
fs_readdir_lem fills dirs u path n i addr takes found read dir file whole =
    let (d, opened, same, r) = opendir_lem dirs u (u16 n) i addr read dir file whole in
    ground (
      arith,
      found,
      opened,
      takes dot,
      takes dot_dot,
      fill_names_lem fills (dir_rounds d) (inode_getsize i / 16) u addr (inode_getsize i) d 0 takes
          r (omega (arith, whole)) (omega (arith, ap inode_getsize same)),
    )
