-- ===== src/Directory/Overwritten.antt =====
-- done/direntv6.c: direntv6_addfile in a directory whose sectors are all full.
use file_system_public_copy.Prelude.{
  ℕ, ◌+◌, ◌*◌, ◌/◌, ◌%◌, ◌^◌, ◌<◌, ◌≡◌, ◌≢◌, refl, sym, ap, arith, true, none, List, [], ◌∷◌, ◌++◌,
  length, ok, ◌∙◌, subst,
}
use file_system_public_copy.Stdio.{Buffer}
use file_system_public_copy.Layout.{Inode, zero_inode, inode_getsize, root_inumber}
use file_system_public_copy.Bitmap.{bm_find_next}
use file_system_public_copy.Bitmap.Find.{Moved, bm_find_next_lem, bm_find_next_again}
use file_system_public_copy.Bitmap.Bits.{IsValid}
use file_system_public_copy.FileSystem.{FileSystem}
use file_system_public_copy.Inode.{inode_read}
use file_system_public_copy.Inode.Store.{InTable}
use file_system_public_copy.File.{Written, filev6_writebytes}
use file_system_public_copy.File.Create.{created_node}
use file_system_public_copy.File.Sound.{IsGrown, address, bytes_of}
use file_system_public_copy.File.Kept.{IsKept}
use file_system_public_copy.File.Bytes.{writebytes_lem}
use file_system_public_copy.Directory.{find_in_directory, slash}
use file_system_public_copy.Directory.Create.{direntv6_addfile, dirent_bytes}
use file_system_public_copy.Directory.Paths.{no_slash, are_names, join, walk}
use file_system_public_copy.Directory.Entries.{no_nul}
use file_system_public_copy.Directory.Created.{IsNext, IsOpen, opened, stages}
use file_system_public_copy.Directory.Child.{InTable-IsGrown, child-IsSound, zero-size}
use file_system_public_copy.Directory.NewPath.{create_run}
use file_system_public_copy.Directory.Added.{addfile_run}

module _ (junk : Buffer) (u u1 : FileSystem) (mode p n : ℕ) (i : Inode) (buf data' : Buffer)
    (o : Written) (len x : ℕ) (kept : IsKept u u1 (opened p i)) (table : InTable u1 n)
    (read : inode_read o.2 n ≡ ok (created_node mode zero_inode))
    (grown : IsGrown u1 (opened p i) buf 16 o) (mode_small : mode < 2 ^ 16)
    (whole : inode_getsize i % 512 ≡ 0) (some' : 0 < len) (short : len < 512)
    (free : (bm_find_next u1.fbm).0 ≡ ok x) where
  -- The entry has a new sector.
  new_sector :
      (address o.1.i_node (inode_getsize i / 512) ≡ x) × (o.2.fbm ≡ (bm_find_next u1.fbm).1)
  new_sector = grown.fresh whole x free

  searched : IsValid (bm_find_next u1.fbm).1 × Moved u1.fbm (bm_find_next u1.fbm).1
  searched =
      let l =
        bm_find_next_lem u1.fbm kept.sound.ready.fbm_valid
          (omega (arith, kept.sound.ready.fbm_small)) in
      (l.0, l.1)

  valid : IsValid o.2.fbm
  valid = subst IsValid (sym new_sector.1) searched.0

  moved : Moved u1.fbm o.2.fbm
  moved = subst (λ b. Moved u1.fbm b) (sym new_sector.1) searched.1

  -- The search for the file's first sector gives it again.
  again : (bm_find_next o.2.fbm).0 ≡ ok x
  again =
      ap (λ b. (bm_find_next b).0) new_sector.1
      ∙ ap (λ t. t.0)
          (bm_find_next_again u1.fbm x kept.sound.ready.fbm_valid
            (omega (arith, kept.sound.ready.fbm_small)) free)

  abbrev o' : Written
  o' = filev6_writebytes junk o.2 (opened n (created_node mode zero_inode)) data' len

  pub second : IsGrown o.2 (opened n (created_node mode zero_inode)) data' len o'
  second =
      writebytes_lem junk o.2 (opened n (created_node mode zero_inode)) data' len
        (child-IsSound u u1 mode p n i buf o kept table read grown mode_small valid moved) some'
        short (omega (arith, zero-size mode, short)) (omega (arith, zero-size mode, short))
        (λ z. (x, again))

  pub directory_stored : p ≢ n → inode_read o'.2 p ≡ ok o.1.i_node
  directory_stored ne =
      second.others p (InTable-IsGrown grown p kept.sound.ready.table) ne ∙ grown.stored

  -- Both have the sector: the entry is the file's bytes.
  pub entry_is_file : (k : ℕ) → k < len → bytes_of o'.2 o.1.i_node (inode_getsize i + k) ≡ data' k
  entry_is_file k h = at_entry ∙ sym at_file ∙ second.new k h
    where
      size : ℕ
      size = inode_getsize (created_node mode zero_inode)

      zero' : size ≡ 0
      zero' = zero-size mode

      own : address o'.1.i_node 0 ≡ x
      own =
          ap (address o'.1.i_node) (omega (arith, zero'))
          ∙ (second.fresh (omega (arith, zero')) x again).0

      at_entry : bytes_of o'.2 o.1.i_node (inode_getsize i + k) ≡ o'.2.f.byte (x * 512 + k)
      at_entry =
          let q : (inode_getsize i + k) / 512 ≡ inode_getsize i / 512 =
            omega (arith, whole, h, short) in
          let r : (inode_getsize i + k) % 512 ≡ k = omega (arith, whole, h, short) in
          (λ j. o'.2.f.byte (address o.1.i_node (q j) * 512 + r j))
          ∙ ap (λ a. o'.2.f.byte (a * 512 + k)) new_sector.0

      at_file : bytes_of o'.2 o'.1.i_node (size + k) ≡ o'.2.f.byte (x * 512 + k)
      at_file =
          let q : (size + k) / 512 ≡ 0 = omega (arith, zero', h, short) in
          let r : (size + k) % 512 ≡ k = omega (arith, zero', h, short) in
          (λ j. o'.2.f.byte (address o'.1.i_node (q j) * 512 + r j))
          ∙ ap (λ a. o'.2.f.byte (a * 512 + k)) own

module _ (junk : Buffer) (u : FileSystem) (mode p n : ℕ) (i : Inode) (names : List (List ℕ))
    (name : List ℕ) (data' : Buffer) (len x : ℕ) (next : IsNext u n) (parent : IsOpen u p i)
    (mode_small : mode < 2 ^ 16) (path : are_names names ≡ true)
    (named : are_names (name ∷ []) ≡ true) (plain : no_slash name ≡ true)
    (valid : no_nul name ≡ true) (short : length name < 14) (led : walk u root_inumber names ≡ ok p)
    (new : find_in_directory (λ k. 0) u p name ≡ ok none) (whole : inode_getsize i % 512 ≡ 0)
    (some' : 0 < len) (fits : len < 512) (free : (bm_find_next u.fbm).0 ≡ ok x) where
  -- If the next inode number n can be had and has its place in the inode table, names lead from
  -- the root to a directory p that is sound, is in use, can take one more entry, and has whole
  -- sectors only (it may be empty), a name that is new in it has 1 to 13 bytes without a slash or
  -- NUL, the mode has 16 bits, there is a free data sector, and between 1 and 511 bytes are
  -- given, then direntv6_addfile at the path of those names and the new name returns ERR_NONE,
  -- but afterwards the directory, which is 16 bytes longer, has the given bytes of the file in
  -- the place of the new entry, as far as they reach.
  pub addfile_overwrites :
      let (status, u') = direntv6_addfile junk u (join names ++ slash ∷ name) mode data' len in
      (status ≡ ok 0)
      × (i' : Inode) × (inode_read u' p ≡ ok i')
      × (inode_getsize i' ≡ inode_getsize i + 16)
      × ((k : ℕ) → k < 16 → k < len → bytes_of u' i' (inode_getsize i + k) ≡ data' k)
  addfile_overwrites =
      let (u1, o, run, kept, table, read, grown, small, other, _, _) =
        stages junk u mode p n i name next parent mode_small valid short in
      let made =
        create_run junk u mode p n i names name next parent mode_small path named plain valid short
          led new
        ∙ run in
      let free1 : (bm_find_next u1.fbm).0 ≡ ok x =
        ap (λ b. (bm_find_next b).0) kept.bitmap ∙ free in
      let buf = dirent_bytes n name in
      let g =
        second junk u u1 mode p n i buf data' o len x kept table read grown mode_small whole some'
          fits free1 in
      rw
        (addfile_run junk u o.2 (join names ++ slash ∷ name) mode n (created_node mode zero_inode)
          data' len _ made (omega (arith, small)) read refl g.status)
        (
          refl,
          o.1.i_node,
          directory_stored junk u u1 mode p n i buf data' o len x kept table read grown mode_small
              whole some' fits free1 (λ e. other (sym e)),
          grown.size,
          λ k h below.
              entry_is_file junk u u1 mode p n i buf data' o len x kept table read grown mode_small
                whole some' fits free1 k below,
        )
