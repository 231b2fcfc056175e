-- ===== src/Fuse/NewFile.antt =====
-- done/u6fs_fuse.c: fs_getattr and fs_read of a file that direntv6_addfile made.
use file_system_public_copy.Prelude.{
  ℕ, ◌-◌, ◌%◌, ◌^◌, ◌<◌, ◌≡◌, refl, sym, ap, arith, true, false, none, List, [], ◌∷◌, ◌++◌, length,
  ok, ◌∙◌, u16, slice, slice_ext, inl, min,
}
use file_system_public_copy.Stdio.{Buffer}
use file_system_public_copy.Layout.{Inode, zero_inode, ifdir, has_flag, inode_getsize, root_inumber}
use file_system_public_copy.Bitmap.{bm_find_next}
use file_system_public_copy.FileSystem.{FileSystem}
use file_system_public_copy.Inode.{inode_read}
use file_system_public_copy.File.Content.{IsSmallFile-IsFile}
use file_system_public_copy.File.Create.{created_node}
use file_system_public_copy.File.Sound.{address, bytes_of}
use file_system_public_copy.Directory.{find_in_directory, slash, direntv6_dirlookup}
use file_system_public_copy.Directory.Create.{direntv6_addfile}
use file_system_public_copy.Directory.Paths.{
  no_slash, are_names, join, walk, dirlookup_lem, dirlookup-append_one,
}
use file_system_public_copy.Directory.Entries.{no_nul}
use file_system_public_copy.Directory.Created.{IsNext, IsOpen}
use file_system_public_copy.Directory.Added.{addfile-readblock}
use file_system_public_copy.Directory.Print.Tree.{Forest, node, leaf}
use file_system_public_copy.Directory.Print.Graft.{HasApart, HasTree-HasApart}
use file_system_public_copy.Directory.Print.Lookup.{dirlookup-walk_tree, walk_tree-graft}
use file_system_public_copy.Directory.Print.NewFile.{addfile_lem}
use file_system_public_copy.File.Sound.{IsSound-IsSmallFile}
use file_system_public_copy.Sector.{sector_size}
use file_system_public_copy.Fuse.{Stat, blocks_of, fs_getattr, fs_read}
use file_system_public_copy.Fuse.Read.{fs_read_lem}

-- The attributes of an inode.
abbrev stat_of : ℕ → Inode → Stat
stat_of n c = record {
  st_ino = n;
  st_nlink = c.i_nlink;
  st_uid = c.i_uid;
  st_gid = c.i_gid;
  st_size = inode_getsize c;
  st_blksize = sector_size;
  st_blocks = blocks_of (inode_getsize c);
  is_dir = has_flag c.i_mode ifdir;
}

fs_getattr_lem :
    (u : FileSystem) (path : List ℕ) (n : ℕ) (c : Inode)
    → direntv6_dirlookup u root_inumber path ≡ ok n
    → inode_read u (u16 n) ≡ ok c
    → fs_getattr u path ≡ ok (stat_of n c)
unfolding fs_getattr
fs_getattr_lem u path n c found read = ground (arith, found, read)

module _ (junk : Buffer) (u : FileSystem) (mode p n : ℕ) (i : Inode) (names : List (List ℕ))
    (name : List ℕ) (data' : Buffer) (len x : ℕ) (f : Forest) (sector : Buffer) (size : ℕ)
    (next : IsNext u n) (parent : IsOpen u p i) (mode_small : mode < 2 ^ 16)
    (flag : has_flag (created_node mode zero_inode).i_mode ifdir ≡ false)
    (path : are_names names ≡ true) (named : are_names (name ∷ []) ≡ true)
    (plain : no_slash name ≡ true) (valid : no_nul name ≡ true) (short : length name < 14)
    (led : walk u root_inumber names ≡ ok p) (new : find_in_directory (λ k. 0) u p name ≡ ok none)
    (partial : 0 < inode_getsize i % 512) (some' : 0 < len) (fits : len < 512)
    (free : (bm_find_next u.fbm).0 ≡ ok x) (tree : HasApart u p i root_inumber (node f)) where
  -- If the next inode number n can be had and has its place in the inode table, names lead from
  -- the root to a directory p that is sound, is in use, can take one more entry, and whose last
  -- sector is partly filled, a name that is new in it has 1 to 13 bytes without a slash or NUL,
  -- the mode has 16 bits and is not that of a directory, there is a free data sector, between 1
  -- and 511 bytes are given, and the root is the root of a tree in which every inode number is in
  -- use and has its place in the table, and every directory but p is small and has blocks of its
  -- own, which are data sectors in use, then direntv6_addfile at the path of the names and the
  -- new name returns ERR_NONE; and afterwards direntv6_dirlookup of the whole path from the root
  -- gives n, fs_getattr of it gives the number n, the number of bytes given as the size and no
  -- directory, and fs_read of it from the start returns the bytes given, as many as are asked
  -- for.
  pub addfile-fs_read :
      let (status, u') = direntv6_addfile junk u (join names ++ slash ∷ name) mode data' len in
      (status ≡ ok 0)
      × (direntv6_dirlookup u' root_inumber (join names ++ slash ∷ name) ≡ ok n)
      × ((s : Stat) × (fs_getattr u' (join names ++ slash ∷ name) ≡ ok s)
          × (s.st_ino ≡ n)
          × (s.st_size ≡ len)
          × (s.is_dir ≡ false))
      × (fs_read sector u' (join names ++ slash ∷ name) size 0 ≡ ok (slice data' 0 (min size len)))
  addfile-fs_read =
      let (u', c, _, run, t, file, small, _, _, _, _) =
        addfile_lem junk u mode p n i names name data' len x f next parent mode_small flag path
          named plain valid short led new partial some' fits free tree in
      let old =
        HasTree-HasApart u p i parent.sound.stored parent.dir (IsSound-IsSmallFile parent.sound)
          parent.whole tree in
      let parent_led : direntv6_dirlookup u' root_inumber (join names) ≡ ok p =
        dirlookup-walk_tree u' root_inumber _ names t path
        ∙ walk_tree-graft p name n leaf root_inumber (node f) names p (
            sym (dirlookup-walk_tree u root_inumber (node f) names old path)
            ∙ dirlookup_lem u root_inumber names path
            ∙ led) in
      let below =
        ap (λ r. direntv6_dirlookup r.1 p (slash ∷ name)) (sym run)
        ∙ (addfile-readblock junk u mode p n i names name data' len x next parent mode_small path
            named plain valid short led new partial some' fits free).1 in
      let found = dirlookup-append_one u' root_inumber p n names name path named parent_led below in
      let read : inode_read u' (u16 n) ≡ ok c =
        let e : u16 n ≡ n = omega (arith, small) in rw e file.stored in
      rw run (
        refl,
        found,
        (
          stat_of n c,
          fs_getattr_lem u' (join names ++ slash ∷ name) n c found read,
          refl,
          file.size,
          rw file.kind flag,
        ),
        fs_read_lem sector u' (join names ++ slash ∷ name) size 0 n c (address c) found read
              (IsSmallFile-IsFile u' c file.small) (omega (arith, file.size, fits)) (omega arith)
              (inl refl)
            ∙ ap ok (
                slice_ext (bytes_of u' c) data' 0 0 (min size (inode_getsize c - 0)) (λ k h.
                  ap (bytes_of u' c) (omega arith)
                  ∙ file.bytes k (omega (arith, h, file.size))
                  ∙ ap data' (omega arith)))
            ∙ ap (λ t. ok (slice data' 0 (min size t))) (omega (arith, file.size)),
      )
