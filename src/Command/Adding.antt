-- ===== src/Command/Adding.antt =====
-- done/u6fs.c: the command add, from the arguments to the file on the disk.
use file_system_public_copy.Prelude.{
  ℕ, ◌%◌, ◌≤◌, ◌<◌, ◌≡◌, refl, ap, arith, true, if◌then◌else◌, none, some, List, [], ◌∷◌, ◌++◌,
  length, get_or, slice-get_or, ok, err, fault, ◌∙◌,
}
use file_system_public_copy.Errors.{io}
use file_system_public_copy.Stdio.{Buffer}
use file_system_public_copy.Layout.{Inode, inode_getsize, root_inumber}
use file_system_public_copy.Bitmap.{bm_find_next}
use file_system_public_copy.FileSystem.{FileSystem}
use file_system_public_copy.Mount.{mountv6, umountv6}
use file_system_public_copy.File.{filev6_open, filev6_readblock}
use file_system_public_copy.Directory.{find_in_directory, slash, direntv6_dirlookup}
use file_system_public_copy.Directory.Create.{direntv6_addfile}
use file_system_public_copy.Directory.Paths.{no_slash, are_names, join, walk}
use file_system_public_copy.Directory.Entries.{no_nul}
use file_system_public_copy.Directory.Created.{IsNext, IsOpen, opened}
use file_system_public_copy.Directory.Added.{addfile-readblock}
use file_system_public_copy.Command.{
  Host, Source, Ran, read_source, run_add, run_command, u6fs_do_one_cmd, finish, add_word,
  read_write_execute,
}

-- A local file of `len` bytes that can be read.
pub record IsSource (f : Source) (len : ℕ) : Type 0 where
  pub seeks : f.seeks_end ≡ true
  pub told : f.tell ≡ some len
  pub back : f.rewinds ≡ true
  pub whole : length (f.fread len) ≡ len

pub read_source_lem :
    (h : Host) (path : List ℕ) (f : Source) (len : ℕ)
    → h.source path ≡ some f
    → IsSource f len
    → len ≤ 4096
    → read_source h path ≡ ok (f.fread len)
unfolding read_source
read_source_lem h path f len e s small = ground (arith, e, s.seeks, s.told, s.back, s.whole, small)

pub run_add_lem :
    (h : Host) (u : FileSystem) (destination path bytes : List ℕ)
    → read_source h path ≡ ok bytes
    → let (status, u') =
        direntv6_addfile h.junk u destination read_write_execute
          (λ k. get_or bytes k 0)
          (length bytes) in
      ((run_add h u destination path).1 ≡ status) × ((run_add h u destination path).2 ≡ u')
unfolding run_add
run_add_lem h u destination path bytes e = ground (arith, e)

-- The run is that of the command on the mounted disk.
pub run_lem :
    (h : Host) (u : FileSystem) (execname disk destination path : List ℕ)
    → mountv6 h.malloc (h.disk disk) ≡ (ok 0, some u)
    → u6fs_do_one_cmd h (execname ∷ disk ∷ add_word ∷ destination ∷ path ∷ [])
      ≡ finish h (run_add h u destination path)
unfolding u6fs_do_one_cmd run_command
run_lem h u execname disk destination path e = ground (arith, ap (λ t. t.0) e, ap (λ t. t.1) e)

pub finish_lem :
    (h : Host) (r : Ran)
    → r.1 ≡ ok 0
    → ((finish h r).status ≡ (if h.closes then ok 0 else err io)) × ((finish h r).left ≡ some r.2)
unfolding umountv6
finish_lem h (rows, ok n, u) e = ground (arith, e)
finish_lem h (rows, err n, u) e = cc
finish_lem h (rows, fault, u) e = cc

module _ (h : Host) (u : FileSystem) (p n : ℕ) (i : Inode) (names : List (List ℕ))
    (name execname disk path : List ℕ) (f : Source) (len x : ℕ)
    (mounts : mountv6 h.malloc (h.disk disk) ≡ (ok 0, some u)) (local : h.source path ≡ some f)
    (source : IsSource f len) (next : IsNext u n) (parent : IsOpen u p i)
    (led_by : are_names names ≡ true) (named : are_names (name ∷ []) ≡ true)
    (plain : no_slash name ≡ true) (valid : no_nul name ≡ true) (short : length name < 14)
    (led : walk u root_inumber names ≡ ok p) (new : find_in_directory (λ k. 0) u p name ≡ ok none)
    (partial : 0 < inode_getsize i % 512) (some' : 0 < len) (fits : len < 512)
    (free : (bm_find_next u.fbm).0 ≡ ok x) where
  -- If the disk named on the command line mounts, the local file can be opened, measured, rewound
  -- and read and has between 1 and 511 bytes, the next inode number n can be had and has its
  -- place in the inode table, names lead from the root to a directory p that is sound, is in use,
  -- can take one more entry, and whose last sector is partly filled, a name that is new in it has
  -- 1 to 13 bytes without a slash or NUL, and there is a free data sector, then u6fs_do_one_cmd
  -- with the command add, the path of those names and the new name, and the local file returns
  -- ERR_NONE, or ERR_IO if the disk cannot be closed; and in the file system that it leaves,
  -- direntv6_dirlookup of the new name after a slash, from p, gives n, and filev6_readblock of
  -- the file that filev6_open of n opens returns exactly the bytes of the local file.
  pub add-readblock :
      let out =
        u6fs_do_one_cmd h (execname ∷ disk ∷ add_word ∷ (join names ++ slash ∷ name) ∷ path ∷ []) in
      (out.status ≡ (if h.closes then ok 0 else err io))
      × (u' : FileSystem) × (out.left ≡ some u')
      × (direntv6_dirlookup u' p (slash ∷ name) ≡ ok n)
      × (c : Inode) × (filev6_open u' n ≡ ok (opened n c))
      × ((filev6_readblock u' (opened n c)).0 ≡ ok (f.fread len))
  add-readblock =
      let buf : Buffer = λ k. get_or (f.fread len) k 0 in
      let size = length (f.fread len) in
      let (status, found, c, opens, mode, bytes) =
        addfile-readblock h.junk u read_write_execute p n i names name buf size x next parent
          (omega arith) led_by named plain valid short led new partial
          (omega (arith, some', source.whole)) (omega (arith, fits, source.whole)) free in
      let ran =
        run_add_lem h u (join names ++ slash ∷ name) path (f.fread len)
          (read_source_lem h path f len local source (omega (arith, fits))) in
      let ends = finish_lem h (run_add h u (join names ++ slash ∷ name) path) (ran.0 ∙ status) in
      rw (run_lem h u execname disk (join names ++ slash ∷ name) path mounts) (
        ends.0,
        _,
        ends.1 ∙ ap some ran.1,
        found,
        c,
        opens,
        bytes ∙ ap ok (slice-get_or buf 0 0 size (f.fread len) refl (λ k. ap buf (omega arith))),
      )
