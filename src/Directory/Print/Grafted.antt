-- ===== src/Directory/Print/Grafted.antt =====
-- done/direntv6.c: the tree of directories after one of them got an entry.
use file_system_public_copy.Prelude.{
  ℕ, suc, ◌+◌, ◌*◌, ◌/◌, ◌%◌, ◌<◌, ◌≡◌, ◌≢◌, ap, arith, true, false, List, ok, ◌∙◌, ◌==◌, subst,
}
use file_system_public_copy.Stdio.{Buffer}
use file_system_public_copy.Layout.{Inode, ifdir, has_flag, inode_getsize}
use file_system_public_copy.Bitmap.{bm_get}
use file_system_public_copy.Bitmap.Bits.{InRange}
use file_system_public_copy.FileSystem.{FileSystem}
use file_system_public_copy.Inode.{inode_read}
use file_system_public_copy.Inode.Store.{InTable}
use file_system_public_copy.File.Content.{IsSmallFile, IsSmallFile-IsFile}
use file_system_public_copy.File.Sectors.{SameSector, IsSmallFile-SameSector}
use file_system_public_copy.File.Sound.{address, bytes_of}
use file_system_public_copy.Directory.{Entry}
use file_system_public_copy.Directory.Reader.{entry_at, entry_ext}
use file_system_public_copy.Directory.Print.Tree.{
  Tree, Forest, empty, entry, HasTree, is_file, is_dir, HasForest, no_more, one_more,
}
use file_system_public_copy.Directory.Print.Graft.{
  append, graft, graft_entries, InUse, IsApart, HasApart, file, parent, directory, HasParts,
  none_left, one_part,
}

-- All but the inodes `p` and `n` stays, and so do the data sectors in use that are no blocks of `i`.
pub record Leaves (u u' : FileSystem) (p n : ℕ) (i : Inode) : Type 0 where
  pub inodes : (m : ℕ) → InTable u m → m ≢ p → m ≢ n → inode_read u' m ≡ inode_read u m
  pub sectors :
      (y : ℕ)
      → InRange u.fbm y
      → bm_get u.fbm y ≡ ok 1
      → ((k : ℕ) → k * 512 < inode_getsize i → y ≢ address i k)
      → SameSector u.f u'.f y

-- The directory `p` with one more entry, for the inode `n`, which was not in use.
pub record HasEntry (u u' : FileSystem) (p n : ℕ) (i : Inode) (name : List ℕ) (i' : Inode)
    : Type 0 where
  pub read : inode_read u p ≡ ok i
  pub dir : has_flag i.i_mode ifdir ≡ true
  pub whole : inode_getsize i % 16 ≡ 0
  pub unused : bm_get u.ibm n ≡ ok 0
  pub stored : inode_read u' p ≡ ok i'
  pub mode : has_flag i'.i_mode ifdir ≡ true
  pub small : IsSmallFile u' i'
  pub grown : inode_getsize i' ≡ inode_getsize i + 16
  pub old : (q : ℕ) → q < inode_getsize i → bytes_of u' i' q ≡ bytes_of u i q
  pub last :
      entry_at (bytes_of u' i') (inode_getsize i / 16) ≡ record { name = name; child_inr = n }

module _ (u u' : FileSystem) (p n : ℕ) (i i' : Inode) (name : List ℕ) (new : Tree)
    (leaves : Leaves u u' p n i) (has : HasEntry u u' p n i name i')
    (child : HasTree u' n new) where
  abbrev grafted : ℕ → Tree → Tree
  grafted = graft p name n new

  -- A number in use, other than `p`, has the inode that it had.
  same_inode :
      (m : ℕ) (j : Inode) → InUse u m → m ≢ p → inode_read u m ≡ ok j → inode_read u' m ≡ ok j
  same_inode m j use' ne r =
      leaves.inodes m use'.table ne (λ e. ground (arith, use'.taken, has.unused, e)) ∙ r

  -- A directory other than `p` has the bytes that it had.
  same_bytes :
      (j : Inode)
      → IsApart u i j
      → IsSmallFile u' j × ((q : ℕ) → q < inode_getsize j → bytes_of u' j q ≡ bytes_of u j q)
  same_bytes j a =
      IsSmallFile-SameSector u u' j a.small
        λ k h. leaves.sectors (address j k) (a.inside k h) (a.used k h) (λ l q. a.apart k l h q)

  -- The first entry of a rest.
  first_entry :
      (g' : Buffer) (k left : ℕ) (t : Tree) (f : Forest) (x : Entry)
      → entry_at g' k ≡ x
      → HasTree u' x.child_inr t
      → HasForest u' g' (k + 1) left f
      → HasForest u' g' k (suc left) (entry x.name x.child_inr t f)
  first_entry g' k left t f x e h rest =
      subst
        (λ (y : Entry).
          HasTree u' y.child_inr t → HasForest u' g' k (suc left) (entry y.name y.child_inr t f))
        e (λ h'. one_more h' rest) h

  mutual
    unfolding graft graft_entries append

    tree_lem : {m : ℕ} {t : Tree} → HasApart u p i m t → HasTree u' m (grafted m t)
    tree_lem {m} (file {j = j} use' r flag) =
        is_file (same_inode m j use' (λ e. ground (arith, r, has.read, has.dir, flag, e)) r) flag
    tree_lem {m} (parent {f = f} e parts) =
        let test : (m == p) ≡ true = ground (arith, e) in
        let count : inode_getsize i' / 16 ≡ inode_getsize i / 16 + 1 = omega (arith, has.grown) in
        rw test (
          is_dir (address i') (ap (inode_read u') e ∙ has.stored) has.mode
            (IsSmallFile-IsFile u' i' has.small) (omega (arith, has.grown, has.whole))
            (rw count (
              appended (bytes_of u' i') parts (λ q h. has.old q (omega (arith, h, has.whole)))
                (ap (entry_at (bytes_of u' i'))
                    (let z : 0 + inode_getsize i / 16 ≡ inode_getsize i / 16 = omega arith in z)
                  ∙ has.last))))
    tree_lem {m} (directory {j = j} {f = f} use' ne r flag apart whole parts) =
        let test : (m == p) ≡ false = ground (arith, ne) in
        let (small, bytes) = same_bytes j apart in
        rw test (
          is_dir (address j) (same_inode m j use' ne r) flag (IsSmallFile-IsFile u' j small) whole
            (entries_lem (bytes_of u' j) parts (λ q h. bytes q (omega (arith, h, whole)))))

    entries_lem :
        {g : Buffer} {k left : ℕ} {f : Forest} (g' : Buffer)
        → HasParts u p i g k left f
        → ((q : ℕ) → q < (k + left) * 16 → g' q ≡ g q)
        → HasForest u' g' k left (graft_entries p name n new f)
    entries_lem g' none_left same = no_more
    entries_lem {g} {k} g' (one_part {left = left} {t = t} {f = f} h parts) same =
        first_entry g' k left (grafted (entry_at g k).child_inr t) (graft_entries p name n new f)
          (entry_at g k) (entry_ext g' g k k λ q l. same (k * 16 + q) (omega (arith, l)))
          (tree_lem h) (entries_lem g' parts (λ q l. same q (omega (arith, l))))

    appended :
        {g : Buffer} {k left : ℕ} {f : Forest} (g' : Buffer)
        → HasParts u p i g k left f
        → ((q : ℕ) → q < (k + left) * 16 → g' q ≡ g q)
        → entry_at g' (k + left) ≡ record { name = name; child_inr = n }
        → HasForest u' g' k (left + 1) (append name n new (graft_entries p name n new f))
    appended {k = k} g' none_left same e =
        let here : k ≡ k + 0 = omega arith in
        first_entry g' k 0 new empty (record { name = name; child_inr = n })
          (ap (entry_at g') here ∙ e) child no_more
    appended {g} {k} g' (one_part {left = left} {t = t} {f = f} h parts) same e =
        let count : suc left + 1 ≡ suc (left + 1) = omega arith in
        let at : k + 1 + left ≡ k + suc left = omega arith in
        rw count (
          first_entry g' k (left + 1) (grafted (entry_at g k).child_inr t)
            (append name n new (graft_entries p name n new f)) (entry_at g k)
            (entry_ext g' g k k λ q l. same (k * 16 + q) (omega (arith, l))) (tree_lem h)
            (appended g' parts (λ q l. same q (omega (arith, l))) (ap (entry_at g') at ∙ e)))

  -- A tree below any inode whose number is in use, the directory's or another's, has the entry.
  pub HasTree-graft :
      {m : ℕ} {t : Tree} → HasApart u p i m t → HasTree u' m (graft p name n new m t)
  HasTree-graft h = tree_lem h
