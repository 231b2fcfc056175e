-- ===== src/Directory/Splits.antt =====
-- done/direntv6.c: split_name_direntv6_create.
use file_system_public_copy.Prelude.{
  ℕ, ◌≤◌, ◌≡◌, refl, sym, ap, arith, Bool, true, false, not, ◌==◌, List, [], ◌∷◌, ◌++◌, length, ok,
  ◌∙◌, subst,
}
use mathlib.Core.List.{
  append-nil, append_assoc, reverse, reverse-cons, reverse-append, reverse-reverse,
}
use file_system_public_copy.Directory.{slash, drop_slashes, first_part, after_part}
use file_system_public_copy.Directory.Create.{split_name_direntv6_create}
use file_system_public_copy.Directory.Paths.{no_slash, are_names, join}

no_slash-append :
    (xs ys : List ℕ) → no_slash xs ≡ true → no_slash ys ≡ true → no_slash (xs ++ ys) ≡ true
no_slash-append [] ys h k = k
no_slash-append (x ∷ xs) ys h k = ground (arith, h, no_slash-append xs ys (ground (arith, h)) k)

no_slash-reverse : (xs : List ℕ) → no_slash xs ≡ true → no_slash (reverse xs) ≡ true
no_slash-reverse [] h = refl
no_slash-reverse (x ∷ xs) h = rw (reverse-cons x xs) (
    no_slash-append (reverse xs) (x ∷ []) (no_slash-reverse xs (ground (arith, h)))
      (ground (arith, h)))

-- The part before the first slash, and the rest.
parts :
    (xs ys : List ℕ)
    → no_slash xs ≡ true
    → (first_part (xs ++ slash ∷ ys) ≡ xs) × (after_part (xs ++ slash ∷ ys) ≡ slash ∷ ys)
parts [] ys h = (refl, refl)
parts (x ∷ xs) ys h = ground (arith, h, parts xs ys)

-- The list starts with a byte that is no slash.
abbrev starts : List ℕ → Bool
starts [] = false
starts (c ∷ cs) = not (c == slash)

starts-append : (xs ys : List ℕ) → starts xs ≡ true → starts (xs ++ ys) ≡ true
starts-append [] ys h = cc
starts-append (x ∷ xs) ys h = h

starts-drop : (xs : List ℕ) → starts xs ≡ true → drop_slashes xs ≡ xs
starts-drop [] h = refl
starts-drop (x ∷ xs) h = ground (arith, h)

starts-snoc :
    (xs : List ℕ) (c : ℕ)
    → no_slash xs ≡ true
    → not (c == slash) ≡ true
    → starts (xs ++ c ∷ []) ≡ true
starts-snoc [] c h k = k
starts-snoc (x ∷ xs) c h k = ground (arith, h)

-- A path that names make does not end with a slash.
starts-reverse-join :
    (n : List ℕ) (ns : List (List ℕ))
    → are_names (n ∷ ns) ≡ true
    → starts (reverse (join (n ∷ ns))) ≡ true
starts-reverse-join [] ns h = cc
starts-reverse-join (c ∷ cs) [] h =
    subst (λ t. starts (reverse (slash ∷ t)) ≡ true) (sym (append-nil (c ∷ cs)))
      (rw (reverse-cons slash (c ∷ cs), reverse-cons c cs)
        (starts-append (reverse cs ++ c ∷ []) (slash ∷ []) (
          starts-snoc (reverse cs) c (no_slash-reverse cs (ground (arith, h)))
            (ground (arith, h)))))
starts-reverse-join (c ∷ cs) (m ∷ ms) h = rw (reverse-append (slash ∷ c ∷ cs) (join (m ∷ ms))) (
    starts-append (reverse (join (m ∷ ms))) (reverse (slash ∷ c ∷ cs))
      (starts-reverse-join m ms (ground (arith, h))))

drop-reverse-join :
    (ns : List (List ℕ))
    → are_names ns ≡ true
    → drop_slashes (reverse (join ns)) ≡ reverse (join ns)
drop-reverse-join [] h = refl
drop-reverse-join (n ∷ ns) h = starts-drop (reverse (join (n ∷ ns))) (starts-reverse-join n ns h)

-- For names that are not empty and have no slash, and one more name without a slash of at most 14
-- bytes: split_name_direntv6_create of the path that has each of them after a slash returns the
-- last name and the path of the others.
pub split-join :
    (ns : List (List ℕ)) (name : List ℕ)
    → are_names ns ≡ true
    → no_slash name ≡ true
    → length name ≤ 14
    → split_name_direntv6_create (join ns ++ slash ∷ name) ≡ ok (name, join ns)
unfolding split_name_direntv6_create
split-join ns name names plain short = ground (arith, relative, absolute, short)
  where
    reversed : reverse (join ns ++ slash ∷ name) ≡ reverse name ++ slash ∷ reverse (join ns)
    reversed =
        reverse-append (join ns) (slash ∷ name)
        ∙ ap (λ t. t ++ reverse (join ns)) (reverse-cons slash name)
        ∙ append_assoc (reverse name) (slash ∷ []) (reverse (join ns))

    split :
        (first_part (reverse name ++ slash ∷ reverse (join ns)) ≡ reverse name)
        × (after_part (reverse name ++ slash ∷ reverse (join ns)) ≡ slash ∷ reverse (join ns))
    split = parts (reverse name) (reverse (join ns)) (no_slash-reverse name plain)

    relative : reverse (first_part (reverse (join ns ++ slash ∷ name))) ≡ name
    relative = ap (λ t. reverse (first_part t)) reversed ∙ ap reverse split.0 ∙ reverse-reverse name

    absolute : reverse (drop_slashes (after_part (reverse (join ns ++ slash ∷ name)))) ≡ join ns
    absolute =
        ap (λ t. reverse (drop_slashes (after_part t))) reversed
        ∙ ap (λ t. reverse (drop_slashes t)) split.1
        ∙ ap reverse (drop-reverse-join ns names)
        ∙ reverse-reverse (join ns)
