-- ===== src/Directory/Print.antt =====
-- done/direntv6.c, printing: direntv6_print_tree. A path or a name is the list of its bytes.
pub mod Tree
pub mod Listing
pub mod Graft
pub mod Depth
pub mod Lookup
pub mod Same
pub mod Grafted
pub mod NewEntry
pub mod NewFile
use file_system_public_copy.Prelude.{
  ℕ, zero, suc, ◌==◌, if◌then◌else◌, Option, none, some, List, [], ◌∷◌, ◌++◌, Result, ok, err,
  fault,
}
use file_system_public_copy.Stdio.{Buffer}
use file_system_public_copy.Printed.{Row, text, chars, and_then}
use file_system_public_copy.Layout.{root_inumber, ifdir, has_flag}
use file_system_public_copy.FileSystem.{FileSystem}
use file_system_public_copy.Inode.{inode_read}
use file_system_public_copy.Directory.{
  DirectoryReader, Entry, direntv6_opendir, direntv6_readdir, dir_rounds, slash,
}

abbrev pub dir_row : ℕ → List ℕ → Row
dir_row inr prefix =
    if inr == root_inumber
    then text "DIR /" ∷ chars prefix ∷ []
    else text "DIR " ∷ chars prefix ∷ text "/" ∷ []

abbrev pub file_row : List ℕ → List ℕ → Row
file_row prefix name = text "FIL " ∷ chars prefix ∷ text "/" ∷ chars name ∷ []

-- The `while` loop, from what the last call of `direntv6_readdir` gave; `print_child` is the call for
-- a directory in this one.
unfoldable pub print_entries :
    (ℕ → List ℕ → List Row × Result ℕ)
    → ℕ
    → FileSystem
    → List ℕ
    → Result (Option Entry)
    → DirectoryReader
    → List Row × Result ℕ
print_entries print_child zero u prefix read d = ([], fault)
print_entries print_child (suc rounds) u prefix read d =
    let (read', d') = direntv6_readdir u d in
    let rest = print_entries print_child rounds u prefix read' d' in
    elim read [
      | err n ↦ ([], err n)
      | fault ↦ ([], fault)
      | ok none ↦ ([], ok 0)
      | ok (some e) ↦ elim (inode_read u e.child_inr) [
        | err n ↦ ([], err n)
        | fault ↦ ([], fault)
        | ok inode ↦
            if has_flag inode.i_mode ifdir
            then and_then (print_child e.child_inr (prefix ++ slash ∷ e.name)) rest
            else (file_row prefix e.name ∷ rest.0, rest.1)
      ]
    ]

-- With `depth` directories below one another at most; `fault` below them stands for a recursion that
-- uses up the stack, as a directory that contains itself makes it.
unfoldable pub direntv6_print_tree : ℕ → Buffer → FileSystem → ℕ → List ℕ → List Row × Result ℕ
unfolding print_entries
direntv6_print_tree zero dirs u inr prefix = ([], fault)
direntv6_print_tree (suc depth) dirs u inr prefix = elim (direntv6_opendir dirs u inr) [
  | err n ↦ ([], err n)
  | fault ↦ ([], fault)
  | ok d ↦
      let (read, d') = direntv6_readdir u d in
      let out = print_entries (direntv6_print_tree depth dirs u) (dir_rounds d) u prefix read d' in
      elim read [
        | err n ↦ ([], err n)
        | fault ↦ ([], fault)
        | ok _ ↦ (dir_row inr prefix ∷ out.0, out.1)
      ]
]
