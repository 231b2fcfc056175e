-- ===== src/Directory/Paths.antt =====
-- done/direntv6.c: direntv6_dirlookup, component by component.
use file_system_public_copy.Prelude.{
  ℕ, zero, suc, ◌+◌, ◌<◌, ◌≡◌, refl, ap, sym, arith, Bool, true, false, not, Option, none, some,
  List, [], ◌∷◌, ◌++◌, length, length-append, Result, ok, err, fault, ◌∙◌, ◌==◌, ◌&&◌,
}
use mathlib.Core.List.{append-nil, append_assoc}
use file_system_public_copy.Errors.{no_such_file}
use file_system_public_copy.Layout.{root_inumber}
use file_system_public_copy.FileSystem.{FileSystem}
use file_system_public_copy.Directory.{
  find_in_directory, bytes_eq, drop_slashes, first_part, after_part, direntv6_dirlookup_core,
  direntv6_dirlookup, slash,
}

abbrev pub no_slash : List ℕ → Bool
no_slash [] = true
no_slash (c ∷ cs) = not (c == slash) && no_slash cs

-- Names are not empty and have no slash.
abbrev pub are_names : List (List ℕ) → Bool
are_names [] = true
are_names ([] ∷ ns) = false
are_names ((c ∷ cs) ∷ ns) = no_slash (c ∷ cs) && are_names ns

-- The path of these components: each after a slash.
abbrev pub join : List (List ℕ) → List ℕ
join [] = []
join (n ∷ ns) = slash ∷ n ++ join ns

-- The end of a search in a directory, and what is done with the inode number found.
abbrev pub descend : (ℕ → Result ℕ) → Result (Option ℕ) → Result ℕ
descend next (err e) = err e
descend next fault = fault
descend next (ok none) = err no_such_file
descend next (ok (some child)) = next child

-- From an inode, the components one after the other.
abbrev pub walk : FileSystem → ℕ → List (List ℕ) → Result ℕ
walk u n [] = ok n
walk u n (name ∷ names) =
    descend (λ child. walk u child names) (find_in_directory (λ k. 0) u n name)

pub descend_ext :
    (next next' : ℕ → Result ℕ) (r : Result (Option ℕ))
    → ((child : ℕ) → next child ≡ next' child)
    → descend next r ≡ descend next' r
descend_ext next next' (err e) h = refl
descend_ext next next' fault h = refl
descend_ext next next' (ok none) h = refl
descend_ext next next' (ok (some child)) h = h child

pub split_first :
    (n : List ℕ) (ns : List (List ℕ))
    → no_slash n ≡ true
    → (first_part (n ++ join ns) ≡ n) × (after_part (n ++ join ns) ≡ join ns)
split_first [] [] h = (refl, refl)
split_first [] (m ∷ ms) h = (refl, refl)
split_first (c ∷ cs) ns h = ground (arith, h, split_first cs ns)

-- One call, on a path that starts with a slash and a name.
core_step :
    (calls : ℕ) (u : FileSystem) (n c : ℕ) (cs : List ℕ)
    → (c == slash) ≡ false
    → direntv6_dirlookup_core (suc calls) u n (slash ∷ c ∷ cs)
      ≡ descend
          (λ child. direntv6_dirlookup_core calls u child (after_part (c ∷ cs)))
          (find_in_directory (λ k. 0) u n (first_part (c ∷ cs)))
unfolding direntv6_dirlookup_core
core_step calls u n c cs h =
    let d : drop_slashes (slash ∷ c ∷ cs) ≡ c ∷ cs = ground (arith, h) in
    let some_path : (length (c ∷ cs) == 0) ≡ false = ground arith in
    let some_entry : (length (slash ∷ c ∷ cs) == 0) ≡ false = ground arith in
    let not_root : (n == root_inumber && bytes_eq (slash ∷ c ∷ cs) (slash ∷ [])) ≡ false =
      ground arith in
    rw (some_entry, not_root, d, some_path)
      (descend_ext
        (λ child.
          direntv6_dirlookup_core calls u child (after_part (drop_slashes (slash ∷ c ∷ cs))))
        (λ child. direntv6_dirlookup_core calls u child (after_part (c ∷ cs)))
        (find_in_directory (λ k. 0) u n (first_part (c ∷ cs)))
        λ child. ap (λ t. direntv6_dirlookup_core calls u child (after_part t)) d)

core_lem :
    (calls : ℕ) (u : FileSystem) (n : ℕ) (names : List (List ℕ))
    → are_names names ≡ true
    → length (join names) < calls
    → direntv6_dirlookup_core calls u n (join names) ≡ walk u n names
unfolding direntv6_dirlookup_core
core_lem zero u n names valid enough = absurd (omega (arith, enough))
core_lem (suc calls) u n [] valid enough = refl
core_lem (suc calls) u n ([] ∷ names) valid enough = absurd (ground (arith, valid))
core_lem (suc calls) u n ((c ∷ cs) ∷ names) valid enough =
    let first = split_first (c ∷ cs) names (ground (arith, valid)) in
    core_step calls u n c (cs ++ join names) (ground (arith, valid))
    ∙ rw (first.0, first.1)
        (descend_ext (λ child. direntv6_dirlookup_core calls u child (join names))
          (λ child. walk u child names) (find_in_directory (λ k. 0) u n (c ∷ cs))
          λ child.
            core_lem calls u child names (ground (arith, valid))
              (omega (arith, enough, length-append (c ∷ cs) (join names))))

-- For names that are not empty and have no slash: direntv6_dirlookup of the path that has each of
-- them after a slash is the walk that searches them one after the other, each in the directory
-- found before, and ends with ERR_NO_SUCH_FILE at the first that is not found.
pub dirlookup_lem :
    (u : FileSystem) (n : ℕ) (names : List (List ℕ))
    → are_names names ≡ true
    → direntv6_dirlookup u n (join names) ≡ walk u n names
unfolding direntv6_dirlookup
dirlookup_lem u n names valid = core_lem (length (join names) + 1) u n names valid (omega arith)

-- The last name of a path is searched where the others lead.
descend-ok :
    (next : ℕ → Result ℕ) (r : Result (Option ℕ)) (q : ℕ)
    → descend next r ≡ ok q
    → (c : ℕ) × (r ≡ ok (some c)) × (next c ≡ ok q)
descend-ok next (ok none) q h = cc
descend-ok next (ok (some c)) q h = (c, refl, h)
descend-ok next (err e) q h = cc
descend-ok next fault q h = cc

walk-append_one :
    (u : FileSystem) (m q : ℕ) (names : List (List ℕ)) (name : List ℕ)
    → walk u m names ≡ ok q
    → walk u m (names ++ name ∷ []) ≡ walk u q (name ∷ [])
walk-append_one u m q [] name h =
    let e : m ≡ q = ground (arith, h) in ap (λ x. walk u x (name ∷ [])) e
walk-append_one u m q (first ∷ names) name h =
    let (c, e, rest) =
      descend-ok (λ child. walk u child names) (find_in_directory (λ k. 0) u m first) q h in
    rw e (walk-append_one u c q names name rest)

are_names-append :
    (names : List (List ℕ)) (name : List ℕ)
    → are_names names ≡ true
    → are_names (name ∷ []) ≡ true
    → are_names (names ++ name ∷ []) ≡ true
are_names-append [] name h v = v
are_names-append ([] ∷ names) name h v = cc
are_names-append ((c ∷ cs) ∷ names) name h v = ground (arith, are_names-append names name)

join-append_one :
    (names : List (List ℕ)) (name : List ℕ) → join (names ++ name ∷ []) ≡ join names ++ slash ∷ name
join-append_one [] name = ap (λ t. slash ∷ t) (append-nil name)
join-append_one (first ∷ names) name =
    ap (λ t. slash ∷ first ++ t) (join-append_one names name)
    ∙ ap (λ t. slash ∷ t) (sym (append_assoc first (join names) (slash ∷ name)))

-- A path with one more name leads where that name leads from the end of the others.
pub dirlookup-append_one :
    (u : FileSystem) (m q n : ℕ) (names : List (List ℕ)) (name : List ℕ)
    → are_names names ≡ true
    → are_names (name ∷ []) ≡ true
    → direntv6_dirlookup u m (join names) ≡ ok q
    → direntv6_dirlookup u q (slash ∷ name) ≡ ok n
    → direntv6_dirlookup u m (join names ++ slash ∷ name) ≡ ok n
dirlookup-append_one u m q n names name valid one h below =
    ap (direntv6_dirlookup u m) (sym (join-append_one names name))
    ∙ dirlookup_lem u m (names ++ name ∷ []) (are_names-append names name valid one)
    ∙ walk-append_one u m q names name (sym (dirlookup_lem u m names valid) ∙ h)
    ∙ sym (dirlookup_lem u q (name ∷ []) one)
    ∙ ap (λ t. direntv6_dirlookup u q (slash ∷ t)) (append-nil name)
    ∙ below
