-- ===== src/Directory/Print/Listing.antt =====
-- done/direntv6.c: what direntv6_print_tree prints of a tree.
use file_system_public_copy.Prelude.{
  ℕ, zero, suc, ◌+◌, ◌*◌, ◌/◌, ◌≤◌, ◌<◌, ◌≡◌, refl, ap, arith, true, false, inl, inr, ◌⊎◌, subst,
  Option, none, some, List, [], ◌∷◌, ◌++◌, Result, ok, ◌∙◌,
}
use file_system_public_copy.Stdio.{Buffer}
use file_system_public_copy.Printed.{Row, and_then}
use file_system_public_copy.Layout.{Inode, ifdir, has_flag, inode_getsize}
use file_system_public_copy.FileSystem.{FileSystem}
use file_system_public_copy.Inode.{inode_read}
use file_system_public_copy.File.Content.{content}
use file_system_public_copy.Directory.{
  DirectoryReader, Entry, direntv6_opendir, direntv6_readdir, dir_rounds, slash,
}
use file_system_public_copy.Directory.Reader.{entry_at, IsReader}
use file_system_public_copy.Directory.Find.{readdir_lem, opendir_lem}
use file_system_public_copy.Directory.Print.{dir_row, file_row, print_entries, direntv6_print_tree}
use file_system_public_copy.Directory.Print.Tree.{
  leaf, node, Forest, empty, entry, HasTree, is_file, is_dir, HasForest, no_more, one_more,
  tree_rows, forest_rows, tree_depth, forest_depth,
}

module _ (sub : ℕ → List ℕ → List Row × Result ℕ) (rounds : ℕ) (u : FileSystem) (prefix : List ℕ)
    (read : Result (Option Entry)) (d : DirectoryReader) where
  -- What the loop does with the next entry.
  abbrev rest : List Row × Result ℕ
  rest = print_entries sub rounds u prefix (direntv6_readdir u d).0 (direntv6_readdir u d).1

  print_end : read ≡ ok none → print_entries sub (suc rounds) u prefix read d ≡ ([], ok 0)
  unfolding print_entries
  print_end e = rw e

  print_file :
      (e : Entry) (i : Inode)
      → read ≡ ok (some e)
      → inode_read u e.child_inr ≡ ok i
      → has_flag i.i_mode ifdir ≡ false
      → print_entries sub (suc rounds) u prefix read d ≡ (file_row prefix e.name ∷ rest.0, rest.1)
  unfolding print_entries
  print_file e i r c f = rw (r, print_entries) (rw c (rw f refl))

  print_directory :
      (e : Entry) (i : Inode)
      → read ≡ ok (some e)
      → inode_read u e.child_inr ≡ ok i
      → has_flag i.i_mode ifdir ≡ true
      → print_entries sub (suc rounds) u prefix read d
        ≡ and_then (sub e.child_inr (prefix ++ slash ∷ e.name)) rest
  unfolding print_entries
  print_directory e i r c f = rw (r, print_entries) (rw c (rw f refl))

-- The call for a directory whose first entry, or whose end, can be read.
print_open :
    (depth : ℕ) (dirs : Buffer) (u : FileSystem) (n : ℕ) (prefix : List ℕ) (d : DirectoryReader)
    (first : Option Entry) (rows : List Row)
    → direntv6_opendir dirs u n ≡ ok d
    → (direntv6_readdir u d).0 ≡ ok first
    → print_entries
        (direntv6_print_tree depth dirs u)
        (dir_rounds d)
        u
        prefix
        (direntv6_readdir u d).0
        (direntv6_readdir u d).1
      ≡ (rows, ok 0)
    → direntv6_print_tree (suc depth) dirs u n prefix ≡ (dir_row n prefix ∷ rows, ok 0)
unfolding direntv6_print_tree
print_open depth dirs u n prefix d first rows opened read out = ground (arith, opened, read, out)

-- Before the end of a directory, or at its end, a call of readdir gives something.
first_read :
    (u : FileSystem) (addr : ℕ → ℕ) (size : ℕ) (d : DirectoryReader) (k : ℕ)
    → IsReader u addr size d k
    → (o : Option Entry) × ((direntv6_readdir u d).0 ≡ ok o)
first_read u addr size d k r = elim (readdir_lem u addr size d k r) [
  | inl (_, _, e, _) ↦ (_, ap (λ t. t.0) e)
  | inr (_, e) ↦ (_, e)
]

-- The next read of a directory whose bytes are `g`.
readdir_of :
    (u : FileSystem) (addr : ℕ → ℕ) (g : Buffer) (size : ℕ) (d : DirectoryReader) (k : ℕ)
    → content u addr ≡ g
    → IsReader u addr size d k
    → ((k * 16 < size)
        × (d' : DirectoryReader) × (direntv6_readdir u d ≡ (ok (some (entry_at g k)), d'))
        × IsReader u addr size d' (k + 1))
      ⊎ ((k * 16 ≡ size) × ((direntv6_readdir u d).0 ≡ ok none))
readdir_of u addr g size d k same r =
    subst
      (λ b.
        ((k * 16 < size)
          × (d' : DirectoryReader) × (direntv6_readdir u d ≡ (ok (some (entry_at b k)), d'))
          × IsReader u addr size d' (k + 1))
        ⊎ ((k * 16 ≡ size) × ((direntv6_readdir u d).0 ≡ ok none)))
      same (readdir_lem u addr size d k r)

mutual
  unfolding forest_rows tree_rows forest_depth tree_depth

  forest_lem :
      (rounds depth : ℕ) (dirs : Buffer) (u : FileSystem) (addr : ℕ → ℕ) (g : Buffer) (size : ℕ)
      (d : DirectoryReader) (k left : ℕ) (f : Forest) (prefix : List ℕ)
      → content u addr ≡ g
      → IsReader u addr size d k
      → (k + left) * 16 ≡ size
      → left < rounds
      → HasForest u g k left f
      → forest_depth f ≤ depth
      → print_entries
          (direntv6_print_tree depth dirs u)
          rounds
          u
          prefix
          (direntv6_readdir u d).0
          (direntv6_readdir u d).1
        ≡ (forest_rows prefix f, ok 0)
  forest_lem zero depth dirs u addr g size d k left f prefix same r total enough h deep =
      absurd (omega (arith, enough))
  forest_lem (suc rounds) depth dirs u addr g size d k zero empty prefix same r total enough no_more
        deep =
      elim (readdir_of u addr g size d k same r) [
        | inl (h, _, _, _) ↦ absurd (omega (arith, h, total))
        | inr (_, e) ↦
            print_end (direntv6_print_tree depth dirs u) rounds u prefix (direntv6_readdir u d).0
              (direntv6_readdir u d).1 e
      ]
  forest_lem (suc rounds) depth dirs u addr g size d k zero (entry name n t f) prefix same r total
        enough h deep =
      elim h [ ]
  forest_lem (suc rounds) depth dirs u addr g size d k (suc left) empty prefix same r total enough h
        deep =
      elim h [ ]
  forest_lem (suc rounds) depth dirs u addr g size d k (suc left) (entry name n leaf f) prefix same
        r total enough (one_more (is_file {i = i} read flag) h) deep =
      elim (readdir_of u addr g size d k same r) [
        | inl (_, d', e, r') ↦
            rw (ap (λ t. t.0) e, ap (λ t. t.1) e)
              (print_file (direntv6_print_tree depth dirs u) rounds u prefix
                  (ok (some (entry_at g k))) d' (entry_at g k) i refl read flag
                ∙ ap (λ t. (file_row prefix name ∷ t.0, t.1))
                    (forest_lem rounds depth dirs u addr g size d' (k + 1) left f prefix same r'
                      (omega (arith, total)) (omega (arith, enough)) h (omega (arith, deep))))
        | inr (z, _) ↦ absurd (omega (arith, z, total))
      ]
  forest_lem (suc rounds) depth dirs u addr g size d k (suc left) (entry name n (node b) f) prefix
        same r total enough (one_more (is_dir {i = i} a read flag file whole t) h) deep =
      elim (readdir_of u addr g size d k same r) [
        | inl (_, d', e, r') ↦
            rw (ap (λ t. t.0) e, ap (λ t. t.1) e)
              (print_directory (direntv6_print_tree depth dirs u) rounds u prefix
                  (ok (some (entry_at g k))) d' (entry_at g k) i refl read flag
                ∙ (λ j.
                    and_then
                      (tree_lem depth dirs u n b (prefix ++ slash ∷ name)
                        (is_dir a read flag file whole t) (omega (arith, deep)) j)
                      (forest_lem rounds depth dirs u addr g size d' (k + 1) left f prefix same r'
                        (omega (arith, total)) (omega (arith, enough)) h (omega (arith, deep)) j)))
        | inr (z, _) ↦ absurd (omega (arith, z, total))
      ]

  tree_lem :
      (depth : ℕ) (dirs : Buffer) (u : FileSystem) (n : ℕ) (f : Forest) (prefix : List ℕ)
      → HasTree u n (node f)
      → suc (forest_depth f) ≤ depth
      → direntv6_print_tree depth dirs u n prefix ≡ (dir_row n prefix ∷ forest_rows prefix f, ok 0)
  tree_lem zero dirs u n f prefix h deep = absurd (omega (arith, deep))
  tree_lem (suc depth) dirs u n f prefix (is_dir {i = i} addr read flag file whole h) deep =
      let (d, opened, sized, r) = opendir_lem dirs u n i addr read flag file whole in
      let (first, e) = first_read u addr (inode_getsize i) d 0 r in
      print_open depth dirs u n prefix d first (forest_rows prefix f) opened e (
        forest_lem (dir_rounds d) depth dirs u addr (content u addr) (inode_getsize i) d 0
          (inode_getsize i / 16) f prefix refl r (omega (arith, whole))
          (omega (arith, ap inode_getsize sized)) h (omega (arith, deep)))

pub print_tree_lem :
    (depth : ℕ) (dirs : Buffer) (u : FileSystem) (n : ℕ) (f : Forest) (prefix : List ℕ)
    → HasTree u n (node f)
    → tree_depth (node f) ≤ depth
    → direntv6_print_tree depth dirs u n prefix ≡ (tree_rows n prefix (node f), ok 0)
unfolding tree_rows tree_depth
print_tree_lem depth dirs u n f prefix h deep = tree_lem depth dirs u n f prefix h deep
