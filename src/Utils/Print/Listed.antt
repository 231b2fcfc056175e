-- ===== src/Utils/Print/Listed.antt =====
-- done/u6fs_utils.c: what utils_print_sha_allfiles prints, line by line.
use file_system_public_copy.Prelude.{
  ℕ, zero, suc, ◌+◌, ◌-◌, ◌*◌, ◌^◌, ◌≤◌, ◌<◌, ◌≡◌, refl, ap, if◌then◌else◌, ◌==◌, List, [], ◌∷◌,
  Option, none, some, Result, ok, err, fault, ◌∙◌, Result-cases, inl, inr,
}
use mathlib.Core.List.{map}
use file_system_public_copy.Errors.{unallocated_inode}
use file_system_public_copy.Stdio.{Buffer}
use file_system_public_copy.Printed.{Row, text, decimal, hex}
use file_system_public_copy.Sector.Laws.{IsReadable}
use file_system_public_copy.Layout.{Inode}
use file_system_public_copy.FileSystem.{FileSystem}
use file_system_public_copy.Inode.{inode_read}
use file_system_public_copy.File.{filev6_open}
use file_system_public_copy.Utils.{utils_print_shafile}
use file_system_public_copy.Utils.Print.{sha_next, sha_begun, utils_print_sha_allfiles}
use file_system_public_copy.Utils.Print.AllFiles.{sha_pass, sha_allfiles_lem}

-- What inode `n` adds to the later lines, by what inode_read and utils_print_shafile gave. An inode that
-- is not allocated has no line; of one that can be read the number is printed, and then the word of a
-- directory or the hash of a file. Where there is no hash, the line ends after the number. An error
-- other than that of an unallocated inode ends the work.
abbrev pub sha_line :
    ℕ → Result Inode → Result (Option (List ℕ)) → List Row × Result ℕ → List Row × Result ℕ
sha_line n fault print rest = ([], fault)
sha_line n (err c) print rest = if c == unallocated_inode then rest else ([], err c)
sha_line n (ok i) (ok none) rest =
    ((text "SHA inode " ∷ decimal n ∷ text ": " ∷ text "DIR" ∷ []) ∷ rest.0, rest.1)
sha_line n (ok i) (ok (some sha)) rest =
    ((text "SHA inode " ∷ decimal n ∷ text ": " ∷ map hex sha) ∷ rest.0, rest.1)
sha_line n (ok i) (err c) rest =
    let begun = text "SHA inode " ∷ decimal n ∷ text ": " ∷ [] in
    if c == unallocated_inode then (begun ∷ rest.0, rest.1) else (begun ∷ [], err c)
sha_line n (ok i) fault rest = ((text "SHA inode " ∷ decimal n ∷ text ": " ∷ []) ∷ [], fault)

-- The lines of `left` inodes from number `n` on.
abbrev pub sha_listed : (Buffer → ℕ → List ℕ) → Buffer → FileSystem → ℕ → ℕ → List Row × Result ℕ
sha_listed sha256 junk u zero n = ([], ok 0)
sha_listed sha256 junk u (suc left) n =
    sha_line n (inode_read u n) (utils_print_shafile sha256 junk u n)
      (sha_listed sha256 junk u left (n + 1))

module _ (sha256 : Buffer → ℕ → List ℕ) (junk : Buffer) (u : FileSystem) where
  next_lem :
      (n : ℕ) (rest : List Row × Result ℕ)
      → sha_next sha256 junk u n rest
        ≡ sha_line n (inode_read u n) (utils_print_shafile sha256 junk u n) rest
  unfolding filev6_open utils_print_shafile
  next_lem n rest = elim (Result-cases (inode_read u n)) [
    | inr (inl (c, e)) ↦
        let opens : filev6_open u n ≡ err c = rw (e, filev6_open) refl in
        let print : utils_print_shafile sha256 junk u n ≡ err c =
          rw (opens, utils_print_shafile) refl in
        let begun : sha_begun u n ≡ [] = rw (opens, sha_begun) refl in
        rw (print, begun, e, sha_next) refl
    | inr (inr e) ↦
        let opens : filev6_open u n ≡ fault = rw (e, filev6_open) refl in
        let print : utils_print_shafile sha256 junk u n ≡ fault =
          rw (opens, utils_print_shafile) refl in
        let begun : sha_begun u n ≡ [] = rw (opens, sha_begun) refl in
        rw (print, begun, e, sha_next) refl
    | inl (i, e) ↦
        let begun : sha_begun u n ≡ (text "SHA inode " ∷ decimal n ∷ text ": " ∷ []) ∷ [] =
          rw (e, filev6_open, sha_begun) refl in
        elim (Result-cases (utils_print_shafile sha256 junk u n)) [
          | inl (none, f) ↦ rw (f, e, sha_next) refl
          | inl (some sha, f) ↦ rw (f, e, sha_next) refl
          | inr (inl (c, f)) ↦ rw (f, begun, e, sha_next) refl
          | inr (inr f) ↦ rw (f, begun, e, sha_next) refl
        ]
  ]

  pass-listed : (left n : ℕ) → sha_pass sha256 junk u left n ≡ sha_listed sha256 junk u left n
  pass-listed zero n = refl
  pass-listed (suc left) n =
      ap (sha_next sha256 junk u n) (pass-listed left (n + 1))
      ∙ next_lem n (sha_listed sha256 junk u left (n + 1))

  module _ (few : u.s.s_isize ≤ 2 ^ 12) (fits : u.s.s_inode_start + u.s.s_isize < 2 ^ 16)
      (readable : (y : ℕ)
        → u.s.s_inode_start ≤ y
        → y < u.s.s_inode_start + u.s.s_isize
        → IsReadable u.f y) where
    -- If the inode table has at most 2 ^ 12 sectors, which end below sector 2 ^ 16 and can be
    -- read, then utils_print_sha_allfiles prints, after its first line, one line for each inode
    -- number from 1 to before 16 times the sectors, in order, that is allocated: the number and
    -- the word DIR if utils_print_shafile finds a directory, or the number and the hexadecimal
    -- hash that it computes; a number that is not allocated has no line; where it finds no hash
    -- because of an error there is only the number, and an error other than that of an
    -- unallocated inode ends the work and is returned.
    pub sha_allfiles-listed : utils_print_sha_allfiles sha256 junk u ≡ (
        let (rows, status) = sha_listed sha256 junk u (16 * u.s.s_isize - 1) 1 in
        ((text "Listing inodes SHA" ∷ []) ∷ rows, status))
    sha_allfiles-listed =
        sha_allfiles_lem sha256 junk u few fits readable
        ∙ ap (λ t. ((text "Listing inodes SHA" ∷ []) ∷ t.0, t.1))
            (pass-listed (16 * u.s.s_isize - 1) 1)
