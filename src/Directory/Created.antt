-- ===== src/Directory/Created.antt =====
-- done/direntv6.c: create_dirent and direntv6_create, and the search in the directory afterwards.
use file_system_public_copy.Prelude.{
  ℕ, ◌+◌, ◌*◌, ◌/◌, ◌%◌, ◌^◌, ◌<◌, ◌≡◌, ◌≢◌, refl, sym, ap, arith, true, if◌then◌else◌, Option,
  none, some, List, length, get_or, get_or-replicate, Result, ok, err, fault, ◌∙◌, u16, Bool-cases,
  inl, inr,
}
use file_system_public_copy.Stdio.{Buffer}
use file_system_public_copy.Layout.{Inode, zero_inode, ifdir, has_flag, inode_getsize}
use file_system_public_copy.Layout.Laws.{IsInode}
use file_system_public_copy.Bitmap.{bm_get, bm_find_next}
use file_system_public_copy.Bitmap.Bits.{IsValid}
use file_system_public_copy.FileSystem.{FileSystem}
use file_system_public_copy.Inode.{inode_read, inode_alloc}
use file_system_public_copy.Inode.Store.{InTable}
use file_system_public_copy.File.{
  Filev6, Written, zero_filev6, filev6_create, filev6_open, filev6_writebytes,
}
use file_system_public_copy.File.Content.{IsSmallFile-IsFile}
use file_system_public_copy.File.Create.{created_node, filev6_create_lem}
use file_system_public_copy.File.Sound.{IsSound, IsGrown, IsSound-IsSmallFile, address, bytes_of}
use file_system_public_copy.File.Kept.{
  IsKept, IsCreated, filev6_create-IsCreated, filev6_create-IsKept, filev6_create-InTable,
  number_lem,
}
use file_system_public_copy.File.Bytes.{writebytes_lem}
use file_system_public_copy.Directory.{find_in_directory, bytes_eq}
use file_system_public_copy.Directory.Create.{create_dirent, dirent_bytes}
use file_system_public_copy.Directory.Find.{first_named, find_in_directory_lem}
use file_system_public_copy.Directory.Reader.{entry_at}
use file_system_public_copy.Directory.Entries.{
  no_nul, entry_at-dirent, first_named_ext, first_named-snoc, or_entry,
}

pub zero-IsInode : IsInode zero_inode
zero-IsInode = record {
  mode = omega arith;
  nlink = omega arith;
  uid = omega arith;
  gid = omega arith;
  size0 = omega arith;
  size1 = omega arith;
  addr_length = refl;
  addr = λ k.
      let e : get_or zero_inode.i_addr k 0 ≡ 0 = get_or-replicate {A = ℕ} 8 k 0 in
      rw e (omega arith);
  atime0 = omega arith;
  atime1 = omega arith;
  mtime0 = omega arith;
  mtime1 = omega arith;
}

-- The open file of an inode.
abbrev pub opened : ℕ → Inode → Filev6
opened p i = record { i_number = p; i_node = i; offset = 0 }

-- An inode number is the next that a file can have: the search of the bitmap finds it, and it has
-- its place in the table.
pub record IsNext (u : FileSystem) (n : ℕ) : Type 0 where
  pub valid : IsValid u.ibm
  pub small : u.ibm.max < 2 ^ 16
  pub found : (inode_alloc u).0 ≡ ok n
  pub table : InTable u n

-- A directory can take one more entry: it is a sound file whose number is in use, of whole entries,
-- stays small, and there is a free sector if it needs one.
pub record IsOpen (u : FileSystem) (p : ℕ) (i : Inode) : Type 0 where
  pub number : p < 2 ^ 16
  pub taken : bm_get u.ibm p ≡ ok 1
  pub sound : IsSound u (opened p i)
  pub dir : has_flag i.i_mode ifdir ≡ true
  pub whole : inode_getsize i % 16 ≡ 0
  pub small : inode_getsize i + 16 < 8 * 512
  pub free : inode_getsize i % 512 ≡ 0 → (x : ℕ) × ((bm_find_next u.fbm).0 ≡ ok x)

-- The answer of a search after an entry was added at the end.
abbrev pub added : List ℕ → List ℕ → ℕ → Result (Option ℕ) → Result (Option ℕ)
added name sought n (ok none) = if bytes_eq sought name then ok (some n) else ok none
added name sought n (ok (some m)) = ok (some m)
added name sought n (err e) = err e
added name sought n fault = fault

or_entry-added :
    (g : Buffer) (k n : ℕ) (name sought : List ℕ)
    → entry_at g k ≡ record { name = name; child_inr = n }
    → (o : Option ℕ) → ok (or_entry g sought k o) ≡ added name sought n (ok o)
or_entry-added g k n name sought e (some m) = refl
or_entry-added g k n name sought e none =
    (λ j. ok (if bytes_eq sought (e j).name then some (e j).child_inr else none))
    ∙ elim (Bool-cases (bytes_eq sought name)) [ inl h ↦ rw h | inr h ↦ rw h ]

-- A search in the grown directory, from the bytes.
grown_search :
    (dirs : Buffer) (u u' : FileSystem) (p n : ℕ) (i : Inode) (name sought : List ℕ) (out : Written)
    → ((q : ℕ) → q < inode_getsize i → bytes_of u' i q ≡ bytes_of u i q)
    → IsGrown u' (opened p i) (dirent_bytes n name) 16 out
    → has_flag i.i_mode ifdir ≡ true
    → inode_getsize i % 16 ≡ 0
    → no_nul name ≡ true
    → length name < 14
    → n < 2 ^ 16
    → find_in_directory dirs out.2 p sought
      ≡ added name sought n (ok (first_named (bytes_of u i) sought (inode_getsize i / 16) 0))
grown_search dirs u u' p n i name sought out same g dir whole valid short fits =
    find_in_directory_lem dirs out.2 p out.1.i_node (address out.1.i_node) sought g.stored
      (rw g.mode dir) (IsSmallFile-IsFile out.2 out.1.i_node g.file) (omega (arith, g.size, whole))
    ∙ ap (λ t. ok (first_named bytes' sought t 0)) count
    ∙ ap ok (first_named-snoc bytes' sought left 0)
    ∙ ap (λ t. ok (or_entry bytes' sought (0 + left) t))
        (first_named_ext bytes' (bytes_of u i) sought left 0
          λ q h. g.old q (omega (arith, h, whole)) ∙ same q (omega (arith, h, whole)))
    ∙ or_entry-added bytes' (0 + left) n name sought entry
        (first_named (bytes_of u i) sought left 0)
  where
    bytes' : Buffer
    bytes' = bytes_of out.2 out.1.i_node

    left : ℕ
    left = inode_getsize i / 16

    count : inode_getsize out.1.i_node / 16 ≡ left + 1
    count = omega (arith, g.size)

    entry : entry_at bytes' (0 + left) ≡ record { name = name; child_inr = n }
    entry =
        entry_at-dirent bytes' (0 + left) n name valid short fits
          λ j h. ap bytes' (omega (arith, whole)) ∙ g.new j h

-- What create_dirent does where nothing fails.
dirent_run :
    (junk : Buffer) (u u' : FileSystem) (mode p : ℕ) (name : List ℕ) (f fp : Filev6) (o : Written)
    → filev6_create u mode zero_filev6 ≡ (ok 0, f, u')
    → length name < 14
    → filev6_open u' (u16 p) ≡ ok fp
    → filev6_writebytes junk u' fp (dirent_bytes f.i_number name) 16 ≡ o
    → o.0 ≡ ok 0
    → create_dirent junk u mode name p ≡ (ok f.i_number, o.2)
unfolding create_dirent
dirent_run junk u u' mode p name f fp o made short open' wrote status =
    ground (arith, made, short, open', wrote, status)

module _ (junk : Buffer) (u : FileSystem) (mode p n : ℕ) (i : Inode) (name : List ℕ)
    (next : IsNext u n) (parent : IsOpen u p i) (mode_small : mode < 2 ^ 16)
    (valid : no_nul name ≡ true) (short : length name < 14) where
  abbrev u' : FileSystem
  u' = (filev6_create u mode zero_filev6).2

  abbrev buf : Buffer
  buf = dirent_bytes n name

  abbrev out : Written
  out = filev6_writebytes junk u' (opened p i) buf 16

  created :
      ((filev6_create u mode zero_filev6).0 ≡ ok 0)
      × ((filev6_create u mode zero_filev6).1 ≡ opened n (created_node mode zero_inode))
      × (inode_read u' n ≡ ok (filev6_create u mode zero_filev6).1.i_node)
      × (bm_get u.ibm n ≡ ok 0)
      × (bm_get u'.ibm n ≡ ok 1)
  created =
      filev6_create_lem u mode zero_filev6 n next.valid next.small mode_small zero-IsInode
        next.found next.table

  kept : IsKept u u' (opened p i)
  kept =
      filev6_create-IsKept u mode (opened p i) zero_filev6 n next.valid next.small mode_small
        zero-IsInode next.found next.table parent.sound parent.taken

  numbers : (n < 2 ^ 16) × (n ≢ p)
  numbers =
      number_lem u mode (opened p i) zero_filev6 n next.valid next.small mode_small zero-IsInode
        next.found next.table parent.sound parent.taken

  grown : IsGrown u' (opened p i) buf 16 out
  grown =
      writebytes_lem junk u' (opened p i) buf 16 kept.sound (omega arith) (omega arith)
        (omega (arith, parent.small)) (omega (arith, parent.whole))
        (λ z. let f = parent.free z in (f.0, ap (λ b. (bm_find_next b).0) kept.bitmap ∙ f.1))

  run : create_dirent junk u mode name p ≡ (ok n, out.2)
  unfolding filev6_open
  run =
      let fits : u16 p ≡ p = omega (arith, parent.number) in
      let made : filev6_create u mode zero_filev6
          ≡ (ok 0, opened n (created_node mode zero_inode), u') =
        λ j. (created.0 j, created.1 j, u') in
      dirent_run junk u u' mode p name (opened n (created_node mode zero_inode)) (opened p i) out
        made short (rw (fits, kept.sound.stored)) refl grown.status

  before :
      (dirs : Buffer) (sought : List ℕ)
      → find_in_directory dirs u p sought
        ≡ ok (first_named (bytes_of u i) sought (inode_getsize i / 16) 0)
  before dirs sought =
      find_in_directory_lem dirs u p i (address i) sought parent.sound.stored parent.dir
        (IsSmallFile-IsFile u i (IsSound-IsSmallFile parent.sound)) parent.whole

  read_back : inode_read out.2 n ≡ ok (created_node mode zero_inode)
  read_back =
      grown.others n
        (filev6_create-InTable u mode (opened p i) zero_filev6 n next.valid next.small mode_small
          zero-IsInode next.found next.table parent.sound parent.taken)
        numbers.1
      ∙ created.2
      ∙ ap (λ (t : Filev6). ok t.i_node) created.1

  -- The two stages: the file system with the new inode, and what the write of the entry gives.
  pub stages :
      (u1 : FileSystem) × (o : Written) × (create_dirent junk u mode name p ≡ (ok n, o.2))
      × IsKept u u1 (opened p i)
      × InTable u1 n
      × (inode_read o.2 n ≡ ok (created_node mode zero_inode))
      × IsGrown u1 (opened p i) (dirent_bytes n name) 16 o
      × (n < 2 ^ 16)
      × (n ≢ p)
      × IsCreated u u1 n
      × (o ≡ filev6_writebytes junk u1 (opened p i) (dirent_bytes n name) 16)
  stages = (
    u',
    out,
    run,
    kept,
    filev6_create-InTable u mode (opened p i) zero_filev6 n next.valid next.small mode_small
        zero-IsInode next.found next.table parent.sound parent.taken,
    read_back,
    grown,
    numbers.0,
    numbers.1,
    filev6_create-IsCreated u mode (opened p i) zero_filev6 n next.valid next.small mode_small
        zero-IsInode next.found next.table parent.sound parent.taken,
    refl,
  )

  pub create_dirent_lem :
      let (status, u'') = create_dirent junk u mode name p in
      (status ≡ ok n)
      × (inode_read u'' n ≡ ok (created_node mode zero_inode))
      × ((dirs : Buffer) (sought : List ℕ)
          → find_in_directory dirs u'' p sought
            ≡ added name sought n (find_in_directory dirs u p sought))
  create_dirent_lem = rw run (
    refl,
    read_back,
    λ dirs sought.
        grown_search dirs u u' p n i name sought out kept.bytes grown parent.dir parent.whole valid
          short numbers.0
        ∙ ap (added name sought n) (sym (before dirs sought)),
  )
