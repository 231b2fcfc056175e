-- ===== src/Steps/Entries.antt =====
-- done/direntv6.c and done/u6fs.c: what the changes of directories and the commands keep, whatever they
-- return.
use file_system_public_copy.Prelude.{
  ℕ, arith, Bool, true, false, List, inl, inr, Bool-cases, Result-cases, leb, u16, ◌==◌, length,
  get_or, if◌then◌else◌,
}
use file_system_public_copy.Errors.{no_such_file}
use file_system_public_copy.Stdio.{Buffer}
use file_system_public_copy.Layout.{root_inumber, ifdir}
use file_system_public_copy.FileSystem.{FileSystem}
use file_system_public_copy.Inode.{inode_read}
use file_system_public_copy.Mount.Fill.{IsValidBoth}
use file_system_public_copy.File.{
  Filev6, zero_filev6, filev6_create, filev6_open, filev6_writebytes,
}
use file_system_public_copy.Directory.{dirent_maxlen, dirent_size, direntv6_dirlookup}
use file_system_public_copy.Directory.Create.{
  split_name_direntv6_create, dirent_bytes, create_dirent, direntv6_create, direntv6_addfile,
}
use file_system_public_copy.Command.{
  Host, Ran, read_source, read_write_execute, run_cat1, run_mkdir, run_add, run_command, cmd, arg,
  inode_word, sb_word, shafiles_word, cat1_word, tree_word, fuse_word, bm_word, mkdir_word,
  add_word,
}
use file_system_public_copy.Steps.Follows.{
  Follows, Follows-refl, Follows-trans, Anything, MayGrow-Anything,
}
use file_system_public_copy.Steps.Writes.{Follows-create}
use file_system_public_copy.Steps.Bytes.{Follows-writebytes}

writes :
    (junk : Buffer) (u : FileSystem) (fv6 : Filev6) (buf : Buffer) (len : ℕ)
    → IsValidBoth u
    → Follows Anything u (filev6_writebytes junk u fv6 buf len).2
writes junk u fv6 buf len v =
    Follows-writebytes junk u fv6 buf len v (MayGrow-Anything u) tt (λ r y h. tt)

Follows-create_dirent :
    (junk : Buffer) (u : FileSystem) (mode : ℕ) (name : List ℕ) (p : ℕ)
    → IsValidBoth u
    → Follows Anything u (create_dirent junk u mode name p).1
unfolding create_dirent
Follows-create_dirent junk u mode name p v =
    let made = filev6_create u mode zero_filev6 in
    let a : Follows Anything u made.2 =
      Follows-create u mode zero_filev6 v (MayGrow-Anything u) (λ n. tt) in
    elim (Result-cases made.0) [
      | inr (inl (n, e)) ↦ rw (e, create_dirent) a
      | inr (inr e) ↦ rw (e, create_dirent) a
      | inl (_, e) ↦ elim (Bool-cases (leb dirent_maxlen (length name))) [
        | inl long ↦ rw (e, create_dirent) (rw (long, create_dirent) a)
        | inr short ↦ elim (Result-cases (filev6_open made.2 (u16 p))) [
          | inr (inl (n, o)) ↦
              rw (e, create_dirent) (rw (short, create_dirent) (rw (o, create_dirent) a))
          | inr (inr o) ↦
              rw (e, create_dirent) (rw (short, create_dirent) (rw (o, create_dirent) a))
          | inl (fp, o) ↦
              let buf = dirent_bytes made.1.i_number name in
              let out = filev6_writebytes junk made.2 fp buf dirent_size in
              let b : Follows Anything u out.2 =
                Follows-trans a (writes junk made.2 fp buf dirent_size a.valid) in
              elim (Result-cases out.0) [
                | inl (_, w) ↦
                    rw (e, create_dirent)
                      (rw (short, create_dirent) (rw (o, create_dirent) (rw (w, create_dirent) b)))
                | inr (inl (n, w)) ↦
                    rw (e, create_dirent)
                      (rw (short, create_dirent) (rw (o, create_dirent) (rw (w, create_dirent) b)))
                | inr (inr w) ↦
                    rw (e, create_dirent)
                      (rw (short, create_dirent) (rw (o, create_dirent) (rw (w, create_dirent) b)))
              ]
        ]
      ]
    ]

pub Follows-direntv6_create :
    (junk : Buffer) (u : FileSystem) (entry : List ℕ) (mode : ℕ)
    → IsValidBoth u
    → Follows Anything u (direntv6_create junk u entry mode).1
unfolding direntv6_create
Follows-direntv6_create junk u entry mode v =
    elim (Result-cases (split_name_direntv6_create entry)) [
      | inr (inl (n, e)) ↦ rw (e, direntv6_create) (Follows-refl u v)
      | inr (inr e) ↦ rw (e, direntv6_create) (Follows-refl u v)
      | inl ((name, parents), e) ↦ elim (Result-cases (direntv6_dirlookup u root_inumber parents)) [
        | inr (inl (n, l)) ↦ rw (e, direntv6_create) (rw (l, direntv6_create) (Follows-refl u v))
        | inr (inr l) ↦ rw (e, direntv6_create) (rw (l, direntv6_create) (Follows-refl u v))
        | inl (p, l) ↦ elim (Result-cases (direntv6_dirlookup u (u16 p) name)) [
          | inl (_, c) ↦
              rw (e, direntv6_create)
                (rw (l, direntv6_create) (rw (c, direntv6_create) (Follows-refl u v)))
          | inr (inr c) ↦
              rw (e, direntv6_create)
                (rw (l, direntv6_create) (rw (c, direntv6_create) (Follows-refl u v)))
          | inr (inl (n, c)) ↦ elim (Bool-cases (n == no_such_file)) [
            | inl new ↦
                rw (e, direntv6_create)
                  (rw (l, direntv6_create)
                    (rw (c, direntv6_create) (rw new (Follows-create_dirent junk u mode name p v))))
            | inr bad ↦
                rw (e, direntv6_create)
                  (rw (l, direntv6_create) (rw (c, direntv6_create) (rw bad (Follows-refl u v))))
          ]
        ]
      ]
    ]

pub Follows-addfile :
    (junk : Buffer) (u : FileSystem) (entry : List ℕ) (mode : ℕ) (buf : Buffer) (size : ℕ)
    → IsValidBoth u
    → Follows Anything u (direntv6_addfile junk u entry mode buf size).1
unfolding direntv6_addfile
Follows-addfile junk u entry mode buf size v =
    let (created, u') = direntv6_create junk u entry mode in
    let a : Follows Anything u u' = Follows-direntv6_create junk u entry mode v in
    elim (Result-cases created) [
      | inr (inl (n, e)) ↦ rw (e, direntv6_addfile) a
      | inr (inr e) ↦ rw (e, direntv6_addfile) a
      | inl (child, e) ↦ elim (Result-cases (inode_read u' (u16 child))) [
        | inr (inl (n, r)) ↦ rw (e, direntv6_addfile) (rw (r, direntv6_addfile) a)
        | inr (inr r) ↦ rw (e, direntv6_addfile) (rw (r, direntv6_addfile) a)
        | inl (_, r) ↦ elim (Result-cases (filev6_open u' (u16 child))) [
          | inr (inl (n, o)) ↦
              rw (e, direntv6_addfile) (rw (r, direntv6_addfile) (rw (o, direntv6_addfile) a))
          | inr (inr o) ↦
              rw (e, direntv6_addfile) (rw (r, direntv6_addfile) (rw (o, direntv6_addfile) a))
          | inl (fv6, o) ↦
              let out = filev6_writebytes junk u' fv6 buf size in
              let b : Follows Anything u out.2 =
                Follows-trans a (writes junk u' fv6 buf size a.valid) in
              rw (e, direntv6_addfile)
                (rw (r, direntv6_addfile)
                  (rw (o, direntv6_addfile)
                    (elim (Result-cases out.0) [
                      | inl (_, w) ↦ rw (w, direntv6_addfile) b
                      | inr (inl (n, w)) ↦ rw (w, direntv6_addfile) b
                      | inr (inr w) ↦ rw (w, direntv6_addfile) b
                    ])))
        ]
      ]
    ]

Follows-run_mkdir :
    (h : Host) (u : FileSystem) (path : List ℕ)
    → IsValidBoth u
    → Follows Anything u (run_mkdir h u path).2
unfolding run_mkdir
Follows-run_mkdir h u path v =
    let a = Follows-direntv6_create h.junk u path ifdir v in
    elim (Result-cases (direntv6_create h.junk u path ifdir).0) [
      | inl (n, e) ↦ rw (e, run_mkdir) a
      | inr (inl (n, e)) ↦ rw (e, run_mkdir) a
      | inr (inr e) ↦ rw (e, run_mkdir) a
    ]

Follows-run_add :
    (h : Host) (u : FileSystem) (destination path : List ℕ)
    → IsValidBoth u
    → Follows Anything u (run_add h u destination path).2
unfolding run_add
Follows-run_add h u destination path v = elim (Result-cases (read_source h path)) [
  | inl (bytes, e) ↦
      rw (e, run_add)
        (Follows-addfile h.junk u destination read_write_execute (λ k. get_or bytes k 0)
          (length bytes) v)
  | inr (inl (n, e)) ↦ rw (e, run_add) (Follows-refl u v)
  | inr (inr e) ↦ rw (e, run_add) (Follows-refl u v)
]

Follows-run_cat1 :
    (h : Host) (u : FileSystem) (number : List ℕ)
    → IsValidBoth u
    → Follows Anything u (run_cat1 h u number).2
unfolding run_cat1
Follows-run_cat1 h u number v = ground (arith, Follows-refl {may = Anything} u v)

if-Follows :
    (u : FileSystem) (b : Bool) (x y : Ran)
    → Follows Anything u x.2
    → Follows Anything u y.2
    → Follows Anything u (if b then x else y).2
if-Follows u true x y p q = p
if-Follows u false x y p q = q

pub Follows-run_command :
    (h : Host) (u : FileSystem) (argv : List (List ℕ))
    → IsValidBoth u
    → Follows Anything u (run_command h u argv).2
unfolding run_command
Follows-run_command h u argv v =
    let same = Follows-refl {may = Anything} u v in
    if-Follows u (cmd argv inode_word 3) _ _ same (
      if-Follows u (cmd argv sb_word 3) _ _ same (
        if-Follows u (cmd argv shafiles_word 3) _ _ same (
          if-Follows u (cmd argv cat1_word 4) _ _ (Follows-run_cat1 h u (arg argv 3) v) (
            if-Follows u (cmd argv tree_word 3) _ _ same (
              if-Follows u (cmd argv fuse_word 4) _ _ same (
                if-Follows u (cmd argv bm_word 3) _ _ same (
                  if-Follows u (cmd argv mkdir_word 4) _ _ (Follows-run_mkdir h u (arg argv 3) v) (
                    if-Follows u (cmd argv add_word 5) _ _
                      (Follows-run_add h u (arg argv 3) (arg argv 4) v) same))))))))
