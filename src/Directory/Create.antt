-- ===== src/Directory/Create.antt =====
-- done/direntv6.c, writing: new directory entries and files.
use file_system_public_copy.Prelude.{
  ℕ, if◌then◌else◌, ltb, leb, ◌==◌, List, ◌++◌, length, get_or, replicate, Result, ok, err, fault,
  u16, take,
}
use mathlib.Core.List.{reverse}
use file_system_public_copy.Errors.{filename_too_long, filename_already_exists, no_such_file}
use file_system_public_copy.Stdio.{Buffer}
use file_system_public_copy.Layout.{root_inumber, u16_bytes}
use file_system_public_copy.FileSystem.{FileSystem}
use file_system_public_copy.Inode.{inode_read}
use file_system_public_copy.File.{zero_filev6, filev6_open, filev6_create, filev6_writebytes}
use file_system_public_copy.Directory.{
  dirent_maxlen, dirent_size, first_part, after_part, drop_slashes, direntv6_dirlookup,
}

-- What follows the last slash, and what stands before the slashes that end there.
unfoldable pub split_name_direntv6_create : List ℕ → Result (List ℕ × List ℕ)
split_name_direntv6_create entry =
    let relative_name = reverse (first_part (reverse entry)) in
    let absolute_name = reverse (drop_slashes (after_part (reverse entry))) in
    if ltb dirent_maxlen (length relative_name)
    then err filename_too_long
    else ok (relative_name, absolute_name)

-- The 16 bytes of a `struct direntv6` that was zero, after the copy of a name.
unfoldable pub dirent_bytes : ℕ → List ℕ → Buffer
dirent_bytes d_inumber name k =
    get_or (u16_bytes d_inumber (take dirent_maxlen (name ++ replicate dirent_maxlen 0))) k 0

-- `strcpy` of a name of 14 bytes writes its NUL behind the structure.
unfoldable pub create_dirent : Buffer → FileSystem → ℕ → List ℕ → ℕ → Result ℕ × FileSystem
unfolding dirent_bytes
create_dirent junk u mode relative_name inr_parent =
    let (create_file_child, fv6_child, u') = filev6_create u mode zero_filev6 in
    let inode_allocated = fv6_child.i_number in
    elim create_file_child [
      | err n ↦ (err n, u')
      | fault ↦ (fault, u')
      | ok _ ↦
          if leb dirent_maxlen (length relative_name)
          then (fault, u')
          else elim (filev6_open u' (u16 inr_parent)) [
            | err n ↦ (err n, u')
            | fault ↦ (fault, u')
            | ok fv6_parent ↦
                let out =
                  filev6_writebytes junk u' fv6_parent (dirent_bytes inode_allocated relative_name)
                    dirent_size in
                elim out.0 [
                  | err n ↦ (err n, out.2)
                  | fault ↦ (fault, out.2)
                  | ok _ ↦ (ok inode_allocated, out.2)
                ]
          ]
    ]

unfoldable pub direntv6_create : Buffer → FileSystem → List ℕ → ℕ → Result ℕ × FileSystem
unfolding split_name_direntv6_create create_dirent
direntv6_create junk u entry mode = elim (split_name_direntv6_create entry) [
  | err n ↦ (err n, u)
  | fault ↦ (fault, u)
  | ok (relative_name, absolute_name) ↦ elim (direntv6_dirlookup u root_inumber absolute_name) [
    | err n ↦ (err n, u)
    | fault ↦ (fault, u)
    | ok inr_parent ↦ elim (direntv6_dirlookup u (u16 inr_parent) relative_name) [
      | ok child ↦ (err filename_already_exists, u)
      | err n ↦
          if n == no_such_file
          then create_dirent junk u mode relative_name inr_parent
          else (err n, u)
      | fault ↦ (fault, u)
    ]
  ]
]

unfoldable pub direntv6_addfile :
    Buffer → FileSystem → List ℕ → ℕ → Buffer → ℕ → Result ℕ × FileSystem
unfolding direntv6_create
direntv6_addfile junk u entry mode buf size =
    let (created, u') = direntv6_create junk u entry mode in
    elim created [
      | err n ↦ (err n, u')
      | fault ↦ (fault, u')
      | ok child ↦ elim (inode_read u' (u16 child)) [
        | err n ↦ (err n, u')
        | fault ↦ (fault, u')
        | ok _ ↦ elim (filev6_open u' (u16 child)) [
          | err n ↦ (err n, u')
          | fault ↦ (fault, u')
          | ok fv6 ↦
              let out = filev6_writebytes junk u' fv6 buf size in
              elim out.0 [ err n ↦ (err n, out.2) | fault ↦ (fault, out.2) | ok _ ↦ (ok 0, out.2) ]
        ]
      ]
    ]
