-- ===== src/Directory/NewPath.antt =====
-- done/direntv6.c: direntv6_create of a path, and the lookups afterwards.
use file_system_public_copy.Prelude.{
  ℕ, suc, ◌+◌, ◌^◌, ◌<◌, ◌≡◌, ◌≢◌, refl, sym, ap, arith, true, false, ◌&&◌, ◌==◌, Option, none,
  some, List, [], ◌∷◌, ◌++◌, length, Result, ok, err, fault, ◌∙◌, u16, Bool-cases, inl, inr, subst,
}
use mathlib.Core.List.{append-nil}
use file_system_public_copy.Errors.{no_such_file}
use file_system_public_copy.Stdio.{Buffer}
use file_system_public_copy.Layout.{Inode, zero_inode, root_inumber}
use file_system_public_copy.FileSystem.{FileSystem}
use file_system_public_copy.Inode.{inode_read}
use file_system_public_copy.File.Create.{created_node}
use file_system_public_copy.Directory.{
  slash, bytes_eq, drop_slashes, first_part, after_part, find_in_directory, direntv6_dirlookup_core,
  direntv6_dirlookup,
}
use file_system_public_copy.Directory.Create.{create_dirent, direntv6_create}
use file_system_public_copy.Directory.Paths.{
  no_slash, are_names, join, descend, descend_ext, split_first, walk, dirlookup_lem,
}
use file_system_public_copy.Directory.Entries.{no_nul, bytes_eq_self, bytes_eq_sound}
use file_system_public_copy.Directory.Splits.{split-join}
use file_system_public_copy.Directory.Created.{IsNext, IsOpen, added, create_dirent_lem}

-- One call, on a name with no slash before it.
name_step :
    (calls : ℕ) (u : FileSystem) (n c : ℕ) (cs : List ℕ)
    → (c == slash) ≡ false
    → direntv6_dirlookup_core (suc calls) u n (c ∷ cs)
      ≡ descend
          (λ child. direntv6_dirlookup_core calls u child (after_part (c ∷ cs)))
          (find_in_directory (λ k. 0) u n (first_part (c ∷ cs)))
unfolding direntv6_dirlookup_core
name_step calls u n c cs h =
    let d : drop_slashes (c ∷ cs) ≡ c ∷ cs = ground (arith, h) in
    let some_path : (length (c ∷ cs) == 0) ≡ false = ground arith in
    let not_root : (n == root_inumber && bytes_eq (c ∷ cs) (slash ∷ [])) ≡ false =
      ground (arith, h) in
    rw (some_path, not_root, d, some_path)
      (descend_ext
        (λ child. direntv6_dirlookup_core calls u child (after_part (drop_slashes (c ∷ cs))))
        (λ child. direntv6_dirlookup_core calls u child (after_part (c ∷ cs)))
        (find_in_directory (λ k. 0) u n (first_part (c ∷ cs)))
        λ child. ap (λ t. direntv6_dirlookup_core calls u child (after_part t)) d)

-- The lookup of a name alone is a search in one directory.
lookup_name :
    (u : FileSystem) (n : ℕ) (name : List ℕ)
    → are_names (name ∷ []) ≡ true
    → direntv6_dirlookup u n name ≡ descend ok (find_in_directory (λ k. 0) u n name)
unfolding direntv6_dirlookup direntv6_dirlookup_core
lookup_name u n [] valid = cc
lookup_name u n (c ∷ cs) valid =
    let parts = split_first (c ∷ cs) [] (ground (arith, valid)) in
    let same = append-nil (c ∷ cs) in
    let all : first_part (c ∷ cs) ≡ c ∷ cs = subst (λ t. first_part t ≡ c ∷ cs) same parts.0 in
    let rest : after_part (c ∷ cs) ≡ [] = subst (λ t. after_part t ≡ []) same parts.1 in
    let calls : length (c ∷ cs) + 1 ≡ suc (suc (length cs)) = omega arith in
    ap (λ t. direntv6_dirlookup_core t u n (c ∷ cs)) calls
    ∙ name_step (suc (length cs)) u n c cs (ground (arith, valid))
    ∙ ap
        (λ t.
          descend (λ child. direntv6_dirlookup_core (suc (length cs)) u child (after_part (c ∷ cs)))
            (find_in_directory (λ k. 0) u n t))
        all
    ∙ ap
        (λ t.
          descend (λ child. direntv6_dirlookup_core (suc (length cs)) u child t)
            (find_in_directory (λ k. 0) u n (c ∷ cs)))
        rest

-- So is the lookup of a name after a slash.
pub lookup_below :
    (u : FileSystem) (n : ℕ) (name : List ℕ)
    → are_names (name ∷ []) ≡ true
    → direntv6_dirlookup u n (slash ∷ name) ≡ descend ok (find_in_directory (λ k. 0) u n name)
lookup_below u n name h =
    ap (λ t. direntv6_dirlookup u n (slash ∷ t)) (sym (append-nil name))
    ∙ dirlookup_lem u n (name ∷ []) h

added_self : (name : List ℕ) (n : ℕ) → added name name n (ok none) ≡ ok (some n)
added_self name n = rw (bytes_eq_self name)

added_other :
    (name sought : List ℕ) (n : ℕ) (r : Result (Option ℕ))
    → sought ≢ name
    → added name sought n r ≡ r
added_other name sought n (ok none) ne = elim (Bool-cases (bytes_eq sought name)) [
  | inl e ↦ absurd (ne (bytes_eq_sound sought name e))
  | inr e ↦ rw e
]
added_other name sought n (ok (some m)) ne = refl
added_other name sought n (err e) ne = refl
added_other name sought n fault ne = refl

module _ (junk : Buffer) (u : FileSystem) (mode p n : ℕ) (i : Inode) (names : List (List ℕ))
    (name : List ℕ) (next : IsNext u n) (parent : IsOpen u p i) (mode_small : mode < 2 ^ 16)
    (path : are_names names ≡ true) (named : are_names (name ∷ []) ≡ true)
    (plain : no_slash name ≡ true) (valid : no_nul name ≡ true) (short : length name < 14)
    (led : walk u root_inumber names ≡ ok p)
    (new : find_in_directory (λ k. 0) u p name ≡ ok none) where
  -- The function splits the path, finds the parent and no such name in it.
  pub create_run :
      direntv6_create junk u (join names ++ slash ∷ name) mode ≡ create_dirent junk u mode name p
  unfolding direntv6_create
  create_run =
      let fits : u16 p ≡ p = omega (arith, parent.number) in
      let missing : direntv6_dirlookup u p name ≡ err no_such_file =
        lookup_name u p name named ∙ ap (descend ok) new in
      ground (
        arith,
        split-join names name path plain (omega (arith, short)),
        dirlookup_lem u root_inumber names path,
        led,
        fits,
        missing,
      )

  -- If the next inode number n can be had and has its place in the inode table, names lead from
  -- the root to a directory p that is sound, is in use and can take one more entry, a name that
  -- is new in it has 1 to 13 bytes without a slash or NUL, and the mode has 16 bits, then
  -- direntv6_create at the path of those names and the new name returns n; afterwards inode_read
  -- of n gives an empty inode with the mode and IALLOC, direntv6_dirlookup of the new name after
  -- a slash, from p, gives n, and direntv6_dirlookup of any other name in p gives what it gave
  -- before.
  pub create-dirlookup :
      let (status, u') = direntv6_create junk u (join names ++ slash ∷ name) mode in
      (status ≡ ok n)
      × (inode_read u' n ≡ ok (created_node mode zero_inode))
      × (direntv6_dirlookup u' p (slash ∷ name) ≡ ok n)
      × ((other : List ℕ)
          → are_names (other ∷ []) ≡ true
          → other ≢ name
          → direntv6_dirlookup u' p (slash ∷ other) ≡ direntv6_dirlookup u p (slash ∷ other))
  create-dirlookup =
      let c = create_dirent_lem junk u mode p n i name next parent mode_small valid short in
      rw create_run (
        c.0,
        c.1,
        lookup_below _ p name named
            ∙ ap (descend ok) (c.2 (λ k. 0) name ∙ ap (added name name n) new ∙ added_self name n),
        λ other h ne.
            lookup_below _ p other h
            ∙ ap (descend ok) (
                c.2 (λ k. 0) other
                ∙ added_other name other n (find_in_directory (λ k. 0) u p other) ne)
            ∙ sym (lookup_below u p other h),
      )
