-- ===== src/Tests/Again.antt =====
-- The command line again, on the disk that a run left: the theorems at inputs.
use file_system_public_copy.Prelude.{
  ℕ, ◌≡◌, ◌<◌, zero, suc, ℕ_discrete, refl, sym, subst, arith, some, List, [], ◌∷◌, ok, inl, inr,
}
use file_system_public_copy.Layout.{inode_getsize, has_flag, decode_inode}
use file_system_public_copy.Sector.{sector_read}
use file_system_public_copy.Bitmap.{bm_get}
use file_system_public_copy.FileSystem.{FileSystem}
use file_system_public_copy.Inode.{inode_read, scanned_inr, scanned_rows}
use file_system_public_copy.Directory.{slash}
use file_system_public_copy.Mount.Small.{IsFreeOrSmall}
use file_system_public_copy.Directory.Print.Tree.{leaf, empty, node, tree_rows, tree_depth}
use file_system_public_copy.Directory.Print.Graft.{
  append, graft, InUse, HasApart, file, parent, none_left, one_part,
}
use file_system_public_copy.Command.{u6fs_do_one_cmd, tree_word, mkdir_word}
use file_system_public_copy.Command.Again.{HasTable, next_host, add-tree}
use file_system_public_copy.Command.NewDir.{mkdir-tree}
use file_system_public_copy.Tests.Disk.{disk_bytes, root_inode, file_inode, empty_inode}
use file_system_public_copy.Tests.Printing.{forest}
use file_system_public_copy.Tests.Creation.{InTable-on_disk, root-IsOpen, four-IsNext, name_x}
use file_system_public_copy.Tests.Mounts.{with_boot, mounted, mounts, reads_mounted}
use file_system_public_copy.Tests.Commands.{host, local, add_line, no_x_mounted, free_mounted}

two_mounted : inode_read mounted 2 ≡ ok file_inode
unfolding inode_read sector_read disk_bytes decode_inode has_flag
two_mounted = refl

three_mounted : inode_read mounted 3 ≡ ok empty_inode
unfolding inode_read sector_read disk_bytes decode_inode has_flag
three_mounted = refl

-- A proof for each number below the bound.
Each : (ℕ → Type 0) → ℕ → Type 0
Each P zero = Unit
Each P (suc k) = Each P k × P k

each_lem : (P : ℕ → Type 0) (k t : ℕ) → Each P k → t < k → P t
unfolding Each
each_lem P zero t all h = absurd (omega (arith, h))
each_lem P (suc k) t all h = elim (ℕ_discrete t k) [
  | yes e ↦ subst P (sym e) all.1
  | no other ↦ each_lem P k t all.0 (omega (arith, h, other))
]

slot-IsFreeOrSmall : Each (λ t. IsFreeOrSmall mounted (scanned_inr 0 t)) 16
unfolding Each inode_read sector_read disk_bytes decode_inode has_flag inode_getsize
slot-IsFreeOrSmall = (
  (
    (
      (
        (
          (
            (
              (
                (
                  (
                    (
                      (
                        (
                          (
                            (
                              (
                                tt,
                                inr (
                                  root_inode,
                                  refl,
                                  record { allocated = refl; few = omega arith },
                                ),
                              ),
                              inr (
                                file_inode,
                                refl,
                                record { allocated = refl; few = omega arith },
                              ),
                            ),
                            inr (empty_inode, refl, record { allocated = refl; few = omega arith }),
                          ),
                          inl refl,
                        ),
                        inl refl,
                      ),
                      inl refl,
                    ),
                    inl refl,
                  ),
                  inl refl,
                ),
                inl refl,
              ),
              inl refl,
            ),
            inl refl,
          ),
          inl refl,
        ),
        inl refl,
      ),
      inl refl,
    ),
    inl refl,
  ),
  inl refl,
)

slots-IsFreeOrSmall :
    (row t : ℕ) → row < scanned_rows mounted.s → t < 16 → IsFreeOrSmall mounted (scanned_inr row t)
slots-IsFreeOrSmall row t below slot =
    let e : row ≡ 0 = omega (arith, below) in
    subst (λ r. IsFreeOrSmall mounted (scanned_inr r t)) (sym e)
      (each_lem (λ t. IsFreeOrSmall mounted (scanned_inr 0 t)) 16 t slot-IsFreeOrSmall slot)

mounted-HasTable : HasTable mounted
mounted-HasTable = record {
  few = omega arith;
  some_sectors = omega arith;
  start = omega arith;
  sectors = λ y lo hi. record {
    seeks = refl;
    sound = refl;
    inside = omega (arith, hi);
    small = omega (arith, hi);
  };
}

used_mounted : (n : ℕ) → 0 < n → n < 32 → bm_get mounted.ibm n ≡ ok 1 → InUse mounted n
used_mounted n some' below taken = record {
  table = InTable-on_disk with_boot.byte n some' below;
  taken = taken;
}

mounted-HasApart : HasApart mounted 1 root_inode 1 (node forest)
unfolding disk_bytes has_flag inode_getsize bm_get
mounted-HasApart = parent refl (
    one_part (file (used_mounted 2 (omega arith) (omega arith) refl) two_mounted refl) (
      one_part (file (used_mounted 3 (omega arith) (omega arith) refl) three_mounted refl)
        none_left))

add-tree_example :
    let show = [] ∷ [] ∷ tree_word ∷ [] in
    (u' : FileSystem) × ((u6fs_do_one_cmd host add_line).left ≡ some u')
    × ((u6fs_do_one_cmd (next_host host u'.f) show).rows
        ≡ tree_rows 1 [] (graft 1 name_x 4 leaf 1 (node forest)))
    × ((u6fs_do_one_cmd (next_host host u'.f) show).status ≡ ok 0)
unfolding inode_getsize tree_depth
add-tree_example =
    add-tree host mounted 1 4 root_inode [] name_x [] [] [] local 20 6 forest mounts refl
      (record { seeks = refl; told = refl; back = refl; whole = refl }) (four-IsNext with_boot.byte)
      (root-IsOpen with_boot.byte reads_mounted) refl refl refl refl (omega arith) refl no_x_mounted
      (omega arith) (omega arith) (omega arith) free_mounted mounted-HasApart mounted-HasTable
      (omega arith) slots-IsFreeOrSmall (omega arith)

abbrev mkdir_line : List (List ℕ)
mkdir_line = [] ∷ [] ∷ mkdir_word ∷ (slash ∷ name_x) ∷ []

mkdir-tree_example :
    let show = [] ∷ [] ∷ tree_word ∷ [] in
    (u' : FileSystem) × ((u6fs_do_one_cmd host mkdir_line).left ≡ some u')
    × ((u6fs_do_one_cmd host mkdir_line).status ≡ ok 0)
    × ((u6fs_do_one_cmd (next_host host u'.f) show).rows
        ≡ tree_rows 1 [] (graft 1 name_x 4 (node empty) 1 (node forest)))
    × ((u6fs_do_one_cmd (next_host host u'.f) show).status ≡ ok 0)
unfolding tree_depth graft append
mkdir-tree_example =
    mkdir-tree host mounted 1 4 root_inode [] name_x [] [] forest mounts
      (four-IsNext with_boot.byte) (root-IsOpen with_boot.byte reads_mounted) refl refl refl refl
      (omega arith) refl no_x_mounted mounted-HasApart mounted-HasTable (omega arith)
      slots-IsFreeOrSmall (omega arith)
