-- ===== src/Directory/Print/Depth.antt =====
-- done/direntv6.c: how deep a tree of directories is with one more entry.
use file_system_public_copy.Prelude.{
  ℕ, ◌≤◌, ◌≡◌, arith, max, refl, List, ◌==◌, Bool-cases, inl, inr,
}
use file_system_public_copy.Directory.Print.Tree.{
  Tree, leaf, node, Forest, empty, entry, tree_depth, forest_depth,
}
use file_system_public_copy.Directory.Print.Graft.{append, graft, graft_entries}

depth-append :
    (name : List ℕ) (n : ℕ) (new : Tree) (f : Forest)
    → forest_depth (append name n new f) ≡ max (forest_depth f) (tree_depth new)
unfolding append forest_depth
depth-append name n new empty = omega arith
depth-append name n new (entry name' m t f) = omega (arith, depth-append name n new f)

module _ (p : ℕ) (name : List ℕ) (n : ℕ) (new : Tree) where
  mutual
    unfolding graft graft_entries tree_depth forest_depth

    tree_lem :
        (m : ℕ) (t : Tree)
        → (tree_depth t ≤ tree_depth (graft p name n new m t))
          × (tree_depth new ≡ 0 → tree_depth (graft p name n new m t) ≡ tree_depth t)
    tree_lem m leaf = (omega arith, λ z. refl)
    tree_lem m (node f) = elim (Bool-cases (m == p)) [
      | inl e ↦ rw e (
        omega (arith, (forest_lem f).0, depth-append name n new (graft_entries p name n new f)),
        λ z.
            omega (
              arith,
              (forest_lem f).1 z,
              z,
              depth-append name n new (graft_entries p name n new f),
            ),
      )
      | inr e ↦ rw e (omega (arith, (forest_lem f).0), λ z. omega (arith, (forest_lem f).1 z))
    ]

    forest_lem :
        (f : Forest)
        → (forest_depth f ≤ forest_depth (graft_entries p name n new f))
          × (tree_depth new ≡ 0 → forest_depth (graft_entries p name n new f) ≡ forest_depth f)
    forest_lem empty = (omega arith, λ z. refl)
    forest_lem (entry name' m t f) = (
      omega (arith, (tree_lem m t).0, (forest_lem f).0),
      λ z. omega (arith, (tree_lem m t).1 z, (forest_lem f).1 z),
    )

  -- The tree is no less deep than it was, and just as deep if the new entry is a file.
  pub depth-graft :
      (m : ℕ) (t : Tree)
      → (tree_depth t ≤ tree_depth (graft p name n new m t))
        × (tree_depth new ≡ 0 → tree_depth (graft p name n new m t) ≡ tree_depth t)
  depth-graft m t = tree_lem m t
