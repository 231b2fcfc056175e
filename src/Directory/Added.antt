-- ===== src/Directory/Added.antt =====
-- done/direntv6.c: direntv6_addfile, and reading the file back.
use file_system_public_copy.Prelude.{
  ℕ, ◌+◌, ◌*◌, ◌/◌, ◌%◌, ◌^◌, ◌<◌, ◌≡◌, ◌≢◌, refl, sym, ap, arith, true, none, List, [], ◌∷◌, ◌++◌,
  length, get_or, ok, ◌∙◌, u16, subst, slice, slice_ext, inl,
}
use file_system_public_copy.Stdio.{Buffer}
use file_system_public_copy.Layout.{Inode, zero_inode, ifdir, has_flag, inode_getsize, root_inumber}
use file_system_public_copy.Bitmap.{bm_get, bm_find_next}
use file_system_public_copy.Bitmap.Find.{Moved}
use file_system_public_copy.Bitmap.Bits.{IsValid, InRange}
use file_system_public_copy.FileSystem.{FileSystem}
use file_system_public_copy.Inode.{inode_read}
use file_system_public_copy.Inode.Store.{InTable}
use file_system_public_copy.File.{Written, filev6_open, filev6_readblock, filev6_writebytes}
use file_system_public_copy.File.Content.{IsSmallFile, IsSmallFile-IsFile, readblock_lem}
use file_system_public_copy.File.Create.{created_node}
use file_system_public_copy.File.Sectors.{SameSector, IsSmallFile-SameSector}
use file_system_public_copy.File.Sound.{IsSound, IsGrown, address, bytes_of}
use file_system_public_copy.File.Kept.{IsKept}
use file_system_public_copy.File.Bytes.{writebytes_lem}
use file_system_public_copy.Directory.{find_in_directory, slash, direntv6_dirlookup}
use file_system_public_copy.Directory.Create.{direntv6_create, direntv6_addfile, dirent_bytes}
use file_system_public_copy.Directory.Find.{find_in_directory_lem}
use file_system_public_copy.Directory.Paths.{no_slash, are_names, join, walk, descend}
use file_system_public_copy.Directory.Entries.{no_nul, first_named_ext}
use file_system_public_copy.Directory.Created.{IsNext, IsOpen, opened, stages}
use file_system_public_copy.Directory.Child.{InTable-IsGrown, none_of, child-IsSound, zero-size}
use file_system_public_copy.Directory.NewPath.{create_run, create-dirlookup, lookup_below}

-- A search gives the same where the directory is the same.
find-SameSector :
    (dirs : Buffer) (u u' : FileSystem) (p : ℕ) (i : Inode) (sought : List ℕ)
    → inode_read u p ≡ ok i
    → inode_read u' p ≡ ok i
    → has_flag i.i_mode ifdir ≡ true
    → IsSmallFile u i
    → inode_getsize i % 16 ≡ 0
    → ((k : ℕ) → k * 512 < inode_getsize i → SameSector u.f u'.f (get_or i.i_addr k 0))
    → find_in_directory dirs u' p sought ≡ find_in_directory dirs u p sought
find-SameSector dirs u u' p i sought read read' dir file whole same =
    let (file', bytes) = IsSmallFile-SameSector u u' i file same in
    find_in_directory_lem dirs u' p i (address i) sought read' dir (IsSmallFile-IsFile u' i file')
      whole
    ∙ ap ok (
        first_named_ext (bytes_of u' i) (bytes_of u i) sought (inode_getsize i / 16) 0
          λ q h. bytes q (omega (arith, h, whole)))
    ∙ sym (
        find_in_directory_lem dirs u p i (address i) sought read dir (IsSmallFile-IsFile u i file)
          whole)

module _ (u u1 : FileSystem) (mode p n : ℕ) (i : Inode) (buf : Buffer) (o : Written)
    (kept : IsKept u u1 (opened p i)) (table : InTable u1 n)
    (read : inode_read o.2 n ≡ ok (created_node mode zero_inode))
    (grown : IsGrown u1 (opened p i) buf 16 o) (mode_small : mode < 2 ^ 16)
    (partial : 0 < inode_getsize i % 512) (whole : inode_getsize i % 16 ≡ 0) where
  pub bitmap : o.2.fbm ≡ u1.fbm
  bitmap = (grown.partial partial).0

  pub child : IsSound o.2 (opened n (created_node mode zero_inode))
  child =
      child-IsSound u u1 mode p n i buf o kept table read grown mode_small
        (subst IsValid (sym bitmap) kept.sound.ready.fbm_valid)
        (subst (λ b. Moved u1.fbm b) (sym bitmap) refl)

  -- A write to it leaves the directory.
  pub directory_kept :
      (data' : Buffer) (len : ℕ) (o' : Written)
      → IsGrown o.2 (opened n (created_node mode zero_inode)) data' len o'
      → (k : ℕ) → k * 512 < inode_getsize o.1.i_node
      → SameSector o.2.f o'.2.f (get_or o.1.i_node.i_addr k 0)
  directory_kept data' len o' g k h =
      let same = (grown.partial partial).1 in
      let inside : k * 512 < inode_getsize i = omega (arith, h, grown.size, partial, whole) in
      rw same (
        g.sectors (address i k)
          (subst (λ b. InRange b (address i k)) (sym bitmap) (kept.sound.blocks k inside))
          (ap (λ b. bm_get b (address i k)) bitmap ∙ kept.sound.used k inside)
          (λ j h'. none_of mode j h'))

  module _ (junk data' : Buffer) (len x : ℕ) (some' : 0 < len) (short : len < 512)
      (free : (bm_find_next u.fbm).0 ≡ ok x) where
    abbrev o' : Written
    o' = filev6_writebytes junk o.2 (opened n (created_node mode zero_inode)) data' len

    pub second : IsGrown o.2 (opened n (created_node mode zero_inode)) data' len o'
    second =
        writebytes_lem junk o.2 (opened n (created_node mode zero_inode)) data' len child some'
          short (omega (arith, zero-size mode, short)) (omega (arith, zero-size mode, short))
          (λ z. (x, ap (λ b. (bm_find_next b).0) (bitmap ∙ kept.bitmap) ∙ free))

    pub find_kept :
        p ≢ n
        → has_flag i.i_mode ifdir ≡ true
        → (dirs : Buffer) (sought : List ℕ)
        → find_in_directory dirs o'.2 p sought ≡ find_in_directory dirs o.2 p sought
    find_kept ne dir dirs sought =
        find-SameSector dirs o.2 o'.2 p o.1.i_node sought grown.stored
          (second.others p (InTable-IsGrown grown p kept.sound.ready.table) ne ∙ grown.stored)
          (rw grown.mode dir) grown.file (omega (arith, grown.size, whole))
          (directory_kept data' len o' second)

-- What direntv6_addfile does where nothing fails.
pub addfile_run :
    (junk : Buffer) (u u' : FileSystem) (entry : List ℕ) (mode n : ℕ) (c : Inode) (buf : Buffer)
    (len : ℕ) (o : Written)
    → direntv6_create junk u entry mode ≡ (ok n, u')
    → u16 n ≡ n
    → inode_read u' n ≡ ok c
    → filev6_writebytes junk u' (opened n c) buf len ≡ o
    → o.0 ≡ ok 0
    → direntv6_addfile junk u entry mode buf len ≡ (ok 0, o.2)
unfolding direntv6_addfile filev6_open
addfile_run junk u u' entry mode n c buf len o made fits read wrote status =
    ground (arith, made, fits, read, wrote, status)

-- The first block of a file of one block that is not full.
first_block :
    (u : FileSystem) (n len : ℕ) (c : Inode) (buf : Buffer)
    → inode_read u n ≡ ok c
    → IsSmallFile u c
    → inode_getsize c ≡ len
    → len < 512
    → ((k : ℕ) → k < len → bytes_of u c k ≡ buf k)
    → (filev6_open u n ≡ ok (opened n c))
      × ((filev6_readblock u (opened n c)).0 ≡ ok (slice buf 0 len))
unfolding filev6_open
first_block u n len c buf read file size short bytes = (
  rw read,
  ap (λ t. t.0)
        (readblock_lem u (opened n c) (address c) (IsSmallFile-IsFile u c file) (omega arith)
          (inl (omega arith)))
      ∙ ap (λ t. ok (slice (bytes_of u c) 0 t)) (omega (arith, size, short))
      ∙ ap ok (
          slice_ext (bytes_of u c) buf 0 0 len
            λ k h. bytes (0 + k) (omega (arith, h)) ∙ ap buf (omega arith)),
)

module _ (junk : Buffer) (u : FileSystem) (mode p n : ℕ) (i : Inode) (names : List (List ℕ))
    (name : List ℕ) (data' : Buffer) (len x : ℕ) (next : IsNext u n) (parent : IsOpen u p i)
    (mode_small : mode < 2 ^ 16) (path : are_names names ≡ true)
    (named : are_names (name ∷ []) ≡ true) (plain : no_slash name ≡ true)
    (valid : no_nul name ≡ true) (short : length name < 14) (led : walk u root_inumber names ≡ ok p)
    (new : find_in_directory (λ k. 0) u p name ≡ ok none) (partial : 0 < inode_getsize i % 512)
    (some' : 0 < len) (fits : len < 512) (free : (bm_find_next u.fbm).0 ≡ ok x) where
  abbrev buf_of : Buffer
  buf_of = dirent_bytes n name

  -- If the next inode number n can be had and has its place in the inode table, names lead from
  -- the root to a directory p that is sound, is in use, can take one more entry, and whose last
  -- sector is partly filled, a name that is new in it has 1 to 13 bytes without a slash or NUL,
  -- the mode has 16 bits, there is a free data sector, and between 1 and 511 bytes are given,
  -- then direntv6_addfile at the path of those names and the new name returns ERR_NONE;
  -- afterwards direntv6_dirlookup of the new name after a slash, from p, gives n; filev6_open of
  -- n gives an open file whose mode is the given one with IALLOC; and filev6_readblock of it
  -- returns exactly the given bytes.
  pub addfile-readblock :
      let (status, u') = direntv6_addfile junk u (join names ++ slash ∷ name) mode data' len in
      (status ≡ ok 0)
      × (direntv6_dirlookup u' p (slash ∷ name) ≡ ok n)
      × (c : Inode) × (filev6_open u' n ≡ ok (opened n c))
      × (c.i_mode ≡ (created_node mode zero_inode).i_mode)
      × ((filev6_readblock u' (opened n c)).0 ≡ ok (slice data' 0 len))
  addfile-readblock =
      let (u1, o, run, kept, table, read, grown, small, other, _, _) =
        stages junk u mode p n i name next parent mode_small valid short in
      let made =
        create_run junk u mode p n i names name next parent mode_small path named plain valid short
          led new
        ∙ run in
      let whole = parent.whole in
      let g =
        second u u1 mode p n i buf_of o kept table read grown mode_small partial whole junk data'
          len x some' fits free in
      let same =
        find_kept u u1 mode p n i buf_of o kept table read grown mode_small partial whole junk data'
          len x some' fits free (λ e. other (sym e)) parent.dir (λ k. 0) name in
      let found =
        (create-dirlookup junk u mode p n i names name next parent mode_small path named plain valid
          short led new).2 in
      let o' = filev6_writebytes junk o.2 (opened n (created_node mode zero_inode)) data' len in
      let block =
        first_block o'.2 n len o'.1.i_node data' g.stored g.file
          (omega (arith, g.size, zero-size mode)) fits
          (λ k h. ap (bytes_of o'.2 o'.1.i_node) (omega (arith, zero-size mode)) ∙ g.new k h) in
      rw
        (addfile_run junk u o.2 (join names ++ slash ∷ name) mode n (created_node mode zero_inode)
          data' len o' made (omega (arith, small)) read refl g.status)
        (
          refl,
          lookup_below o'.2 p name named
              ∙ ap (descend ok) same
              ∙ sym (lookup_below o.2 p name named)
              ∙ ap (λ t. direntv6_dirlookup t.1 p (slash ∷ name)) (sym made)
              ∙ found,
          o'.1.i_node,
          block.0,
          g.mode,
          block.1,
        )
