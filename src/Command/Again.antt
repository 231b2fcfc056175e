-- ===== src/Command/Again.antt =====
-- done/u6fs.c: the command add, and then the command tree on the disk that it leaves.
use file_system_public_copy.Prelude.{
  ℕ, ◌+◌, ◌%◌, ◌^◌, ◌≤◌, ◌<◌, ◌≡◌, refl, ap, arith, if◌then◌else◌, none, some, List, [], ◌∷◌, ◌++◌,
  length, get_or, ok, err, ◌∙◌, true, Option-cases, inl, inr, ℕ_discrete, subst,
}
use file_system_public_copy.Errors.{io}
use file_system_public_copy.Stdio.{Buffer, File}
use file_system_public_copy.Printed.{Row}
use file_system_public_copy.Layout.{Inode, inode_getsize, root_inumber, has_flag}
use file_system_public_copy.Sector.Laws.{IsReadable}
use file_system_public_copy.Bitmap.{bm_find_next}
use file_system_public_copy.FileSystem.{FileSystem}
use file_system_public_copy.Inode.{inode_read, scanned_inr, scanned_rows}
use file_system_public_copy.Inode.Store.{InTable}
use file_system_public_copy.Mount.{mountv6, umountv6}
use file_system_public_copy.Mount.Small.{IsSmall, IsFreeOrSmall}
use file_system_public_copy.Mount.Again.{mounts_again, mountv6-Parts, IsReadable-sector_read}
use file_system_public_copy.File.Sectors.{SameSector}
use file_system_public_copy.Directory.{find_in_directory, slash}
use file_system_public_copy.Directory.Paths.{no_slash, are_names, join, walk}
use file_system_public_copy.Directory.Entries.{no_nul}
use file_system_public_copy.Directory.Created.{IsNext, IsOpen}
use file_system_public_copy.Directory.Print.{direntv6_print_tree}
use file_system_public_copy.Directory.Print.Tree.{Forest, leaf, node, tree_rows, tree_depth}
use file_system_public_copy.Directory.Print.Listing.{print_tree_lem}
use file_system_public_copy.Directory.Print.Graft.{graft, HasApart}
use file_system_public_copy.Directory.Print.Depth.{depth-graft}
use file_system_public_copy.Directory.Print.Grafted.{Leaves, HasEntry}
use file_system_public_copy.Directory.Print.NewFile.{addfile_lem}
use file_system_public_copy.Directory.Print.Same.{HasTree-same}
use file_system_public_copy.Command.{
  Host, Source, u6fs_do_one_cmd, run_add, run_command, add_word, tree_word, read_write_execute,
}
use file_system_public_copy.Command.Adding.{
  IsSource, read_source_lem, run_add_lem, run_lem, finish_lem,
}

-- The inode table: its sectors can be read, and its numbers have 16 bits.
pub record HasTable (u : FileSystem) : Type 0 where
  pub few : u.s.s_isize < 2 ^ 12
  pub some_sectors : 1 ≤ u.s.s_isize
  pub start : u.s.s_inode_start < 2 ^ 16
  pub sectors :
      (y : ℕ) → u.s.s_inode_start ≤ y → y < u.s.s_inode_start + u.s.s_isize → IsReadable u.f y

pub scanned-InTable :
    (u : FileSystem) (row t : ℕ)
    → HasTable u
    → row < scanned_rows u.s
    → t < 16
    → InTable u (scanned_inr row t)
scanned-InTable u row t h below slot = record {
  start_small = h.start;
  size_small = omega (arith, h.few);
  used = omega (arith, h.few, h.some_sectors, h.start, below, slot);
  in_table = omega (arith, h.few, h.some_sectors, h.start, below, slot);
  readable = h.sectors _ (omega arith) (omega (arith, h.few, h.some_sectors, h.start, below, slot));
}

-- After a small file or directory was added, every inode is still not allocated or small.
pub left-IsFreeOrSmall :
    (u u' : FileSystem) (p n : ℕ) (i i' c : Inode) (name : List ℕ) (m : ℕ)
    → Leaves u u' p n i
    → HasEntry u u' p n i name i'
    → inode_read u' n ≡ ok c
    → IsSmall c
    → InTable u m
    → IsFreeOrSmall u m
    → IsFreeOrSmall u' m
left-IsFreeOrSmall u u' p n i i' c name m leaves entry stored small table h =
    elim (ℕ_discrete m n) [
      | yes e ↦ inr (c, ap (inode_read u') e ∙ stored, small)
      | no new ↦ elim (ℕ_discrete m p) [
        | yes e ↦ inr (
          i',
          ap (inode_read u') e ∙ entry.stored,
          record { allocated = entry.small.allocated; few = entry.small.small },
        )
        | no other ↦
            let same = leaves.inodes m table other new in
            elim h [ inl e ↦ inl (same ∙ e) | inr (j, e, s) ↦ inr (j, same ∙ e, s) ]
      ]
    ]

-- The run of tree on a disk that mounts.
pub tree_run :
    (h : Host) (v : FileSystem) (execname disk : List ℕ) (rows : List Row)
    → mountv6 h.malloc (h.disk disk) ≡ (ok 0, some v)
    → direntv6_print_tree h.stack h.junk v root_inumber [] ≡ (rows, ok 0)
    → let out = u6fs_do_one_cmd h (execname ∷ disk ∷ tree_word ∷ []) in
      (out.rows ≡ rows) × (out.status ≡ (if h.closes then ok 0 else err io))
unfolding u6fs_do_one_cmd run_command umountv6
tree_run h v execname disk rows e printed =
    ground (arith, ap (λ t. t.0) e, ap (λ t. t.1) e, ap (λ t. t.0) printed, ap (λ t. t.1) printed)

-- The disk that mounts.
disk_of :
    (h : Host) (path : List ℕ) (u : FileSystem)
    → mountv6 h.malloc (h.disk path) ≡ (ok 0, some u)
    → (f : File) × (h.disk path ≡ some f)
unfolding mountv6
disk_of h path u e = elim (Option-cases (h.disk path)) [
  | inl none' ↦ absurd (ground (arith, e, none'))
  | inr found ↦ found
]

-- The disk that mounted mounts again when nothing before the inode table changed.
pub remounts :
    (h : Host) (path : List ℕ) (u u' : FileSystem)
    → mountv6 h.malloc (h.disk path) ≡ (ok 0, some u)
    → u'.s ≡ u.s
    → 2 ≤ u.s.s_inode_start
    → ((y : ℕ) → IsReadable u.f y → y < u.s.s_inode_start → SameSector u.f u'.f y)
    → ((row t : ℕ) → row < scanned_rows u.s → t < 16 → IsFreeOrSmall u' (scanned_inr row t))
    → (v : FileSystem) × (mountv6 h.malloc (some u'.f) ≡ (ok 0, some v))
      × (v.f ≡ u'.f)
      × (v.s ≡ u'.s)
remounts h path u u' mounts super after low slots =
    let (f, is_disk) = disk_of h path u mounts in
    let mounts' : mountv6 h.malloc (some f) ≡ (ok 0, some u) =
      subst (λ d. mountv6 h.malloc d ≡ (ok 0, some u)) is_disk mounts in
    let p = mountv6-Parts h.malloc f u 0 mounts' in
    let low' : (y : ℕ) → IsReadable f y → y < u.s.s_inode_start → SameSector f u'.f y =
      subst (λ d. (y : ℕ) → IsReadable d y → y < u.s.s_inode_start → SameSector d u'.f y) p.file
        low in
    mounts_again h.malloc f u u' 0 mounts' super
      (low' 0 (IsReadable-sector_read f 0 p.table (omega arith) p.boot) (omega (arith, after)))
      (low' 1 (IsReadable-sector_read f 1 p.block (omega arith) p.superblock)
        (omega (arith, after)))
      slots

-- The disk that a run leaves, for the next.
abbrev pub next_host : Host → File → Host
next_host h f = record h { disk = λ path. some f }

module _ (h : Host) (u : FileSystem) (p n : ℕ) (i : Inode) (names : List (List ℕ))
    (name execname disk path : List ℕ) (f : Source) (len x : ℕ) (forest : Forest)
    (mounts : mountv6 h.malloc (h.disk disk) ≡ (ok 0, some u)) (local : h.source path ≡ some f)
    (source : IsSource f len) (next : IsNext u n) (parent : IsOpen u p i)
    (led_by : are_names names ≡ true) (named : are_names (name ∷ []) ≡ true)
    (plain : no_slash name ≡ true) (valid : no_nul name ≡ true) (short : length name < 14)
    (led : walk u root_inumber names ≡ ok p) (new : find_in_directory (λ k. 0) u p name ≡ ok none)
    (partial : 0 < inode_getsize i % 512) (some' : 0 < len) (fits : len < 512)
    (free : (bm_find_next u.fbm).0 ≡ ok x) (tree : HasApart u p i root_inumber (node forest))
    (table : HasTable u) (after : 2 ≤ u.s.s_inode_start)
    (slots : (row t : ℕ) → row < scanned_rows u.s → t < 16 → IsFreeOrSmall u (scanned_inr row t))
    (deep : tree_depth (node forest) ≤ h.stack) where
  -- If the disk named on the command line mounts, the local file can be opened, measured, rewound
  -- and read and has between 1 and 511 bytes, the next inode number n can be had and has its
  -- place in the inode table, names lead from the root to a directory p that is sound, is in use,
  -- can take one more entry, and whose last sector is partly filled, a name that is new in it has
  -- 1 to 13 bytes without a slash or NUL, there is a free data sector, the root is the root of a
  -- tree in which every inode number is in use and has its place in the table, and every
  -- directory but p is small and has blocks of its own, which are data sectors in use, the inode
  -- table starts after the superblock, can be read and has from 1 to 2 ^ 12 - 1 sectors, every
  -- inode that mountv6 visits is not allocated or has fewer than 4096 bytes, and the stack holds
  -- the calls for that tree, then u6fs_do_one_cmd with the command add, the path of those names
  -- and the new name, and the local file leaves a file system; and u6fs_do_one_cmd with the
  -- command tree on the disk that this is stored on, mounted anew, prints the tree of the root
  -- with the new file in p, and returns ERR_NONE, or ERR_IO if the disk cannot be closed.
  pub add-tree :
      let add = execname ∷ disk ∷ add_word ∷ (join names ++ slash ∷ name) ∷ path ∷ [] in
      let show = execname ∷ disk ∷ tree_word ∷ [] in
      (u' : FileSystem) × ((u6fs_do_one_cmd h add).left ≡ some u')
      × ((u6fs_do_one_cmd (next_host h u'.f) show).rows
          ≡ tree_rows root_inumber [] (graft p name n leaf root_inumber (node forest)))
      × ((u6fs_do_one_cmd (next_host h u'.f) show).status ≡ (if h.closes then ok 0 else err io))
  unfolding has_flag tree_depth graft
  add-tree =
      let mode = read_write_execute in
      let buf : Buffer = λ k. get_or (f.fread len) k 0 in
      let size = length (f.fread len) in
      let (u', c, i', run, t, file, small, leaves, entry, super, low) =
        addfile_lem h.junk u mode p n i names name buf size x forest next parent (omega arith) refl
          led_by named plain valid short led new partial (omega (arith, some', source.whole))
          (omega (arith, fits, source.whole)) free tree in
      let ran =
        run_add_lem h u (join names ++ slash ∷ name) path (f.fread len)
          (read_source_lem h path f len local source (omega (arith, fits))) in
      let ends =
        finish_lem h (run_add h u (join names ++ slash ∷ name) path) (ran.0 ∙ ap (λ t. t.0) run) in
      let (v, again, file_same, super_same) =
        remounts h disk u u' mounts super after low (λ row t below slot.
          left-IsFreeOrSmall u u' p n i i' c name (scanned_inr row t) leaves entry file.stored
            (record { allocated = file.small.allocated; few = file.small.small })
            (scanned-InTable u row t table below slot) (slots row t below slot)) in
      let printed =
        print_tree_lem h.stack h.junk v root_inumber _ []
          (HasTree-same u' v root_inumber _ file_same super_same t)
          (omega (arith, (depth-graft p name n leaf root_inumber (node forest)).1 refl, deep)) in
      let shown = tree_run (next_host h u'.f) v execname disk _ again printed in
      (
        u',
        ap (λ r. r.left) (run_lem h u execname disk (join names ++ slash ∷ name) path mounts)
            ∙ ends.1
            ∙ ap some (ran.1 ∙ ap (λ t. t.1) run),
        shown.0,
        shown.1,
      )
