-- ===== src/Inode/Scan.antt =====
-- done/inode.c: inode_scan_print, as one pass over the inode numbers.
use file_system_public_copy.Prelude.{
  ℕ, zero, suc, ◌+◌, ◌-◌, ◌*◌, ◌^◌, ◌≤◌, ◌<◌, ◌≡◌, refl, ap, arith, if◌then◌else◌, ◌==◌, List, [],
  ◌∷◌, ◌++◌, Result, ok, err, fault, ◌∙◌, Bool-cases, inl, inr, Result-cases,
}
use file_system_public_copy.Errors.{unallocated_inode}
use file_system_public_copy.Layout.{Inode}
use file_system_public_copy.FileSystem.{FileSystem}
use file_system_public_copy.Inode.{
  Line, line_of, inode_read, scanned_inr, scanned_rows, scan_slots, scan_rows, inode_scan_print,
}

-- What number `n` adds, by what `inode_read` of it gave, to what the later ones print and return.
abbrev pub scan_next : ℕ → Result Inode → List Line × Result ℕ → List Line × Result ℕ
scan_next n (ok i) rest = (line_of n i ∷ rest.0, rest.1)
scan_next n (err c) rest = if c == unallocated_inode then rest else ([], err c)
scan_next n fault rest = ([], fault)

-- The lines of `left` inodes from number `n` on: one that is not allocated is passed over, and any
-- other error ends the work.
abbrev pub scan_pass : FileSystem → ℕ → ℕ → List Line × Result ℕ
scan_pass u zero n = ([], ok 0)
scan_pass u (suc left) n = scan_next n (inode_read u n) (scan_pass u left (n + 1))

-- One part of the work and then the next.
abbrev scan_then : List Line × Result ℕ → List Line × Result ℕ → List Line × Result ℕ
scan_then (lines, ok n) rest = (lines ++ rest.0, rest.1)
scan_then (lines, err n) rest = (lines, err n)
scan_then (lines, fault) rest = (lines, fault)

scan_then-scan_next :
    (n : ℕ) (r : Result Inode) (s t : List Line × Result ℕ)
    → scan_then (scan_next n r s) t ≡ scan_next n r (scan_then s t)
scan_then-scan_next n (ok i) (lines, ok k) t = refl
scan_then-scan_next n (ok i) (lines, err k) t = refl
scan_then-scan_next n (ok i) (lines, fault) t = refl
scan_then-scan_next n (err c) s t = elim (Bool-cases (c == unallocated_inode)) [
  | inl same ↦ rw same refl
  | inr other ↦ rw other refl
]
scan_then-scan_next n fault s t = refl

module _ (u : FileSystem) where
  scan_pass-add :
      (a b n : ℕ) → scan_then (scan_pass u a n) (scan_pass u b (n + a)) ≡ scan_pass u (a + b) n
  scan_pass-add zero b n =
      let e : b ≡ zero + b = omega arith in
      let f : n + zero ≡ n = omega arith in (λ i. scan_pass u (e i) (f i))
  scan_pass-add (suc a) b n =
      let e : suc a + b ≡ suc (a + b) = omega arith in
      let f : n + suc a ≡ n + 1 + a = omega arith in
      rw (e, f)
        (scan_then-scan_next n (inode_read u n) (scan_pass u a (n + 1)) (scan_pass u b (n + 1 + a))
          ∙ ap (scan_next n (inode_read u n)) (scan_pass-add a b (n + 1)))

  scan_slots_next :
      (row left j : ℕ)
      → scan_slots u row (suc left) j
        ≡ scan_next
            (scanned_inr row j)
            (inode_read u (scanned_inr row j))
            (scan_slots u row left (j + 1))
  unfolding scan_slots
  scan_slots_next row left j = elim (Result-cases (inode_read u (scanned_inr row j))) [
    | inl (i, e) ↦ rw (e, scan_slots) refl
    | inr (inl (c, e)) ↦ rw (e, scan_slots) refl
    | inr (inr e) ↦ rw (e, scan_slots) refl
  ]

  scan_slots_lem :
      (row left j : ℕ)
      → 16 * row + j + left < 2 ^ 16
      → scan_slots u row left j ≡ scan_pass u left (16 * row + j + 1)
  unfolding scan_slots
  scan_slots_lem row zero j small = refl
  scan_slots_lem row (suc left) j small =
      let e : scanned_inr row j ≡ 16 * row + j + 1 = omega (arith, small) in
      let f : 16 * row + (j + 1) + 1 ≡ 16 * row + j + 1 + 1 = omega arith in
      scan_slots_next row left j ∙ (λ i.
        scan_next (e i) (inode_read u (e i))
          ((scan_slots_lem row left (j + 1) (omega (arith, small)) ∙ ap (scan_pass u left) f) i))

  scan_rows_next :
      (left row : ℕ)
      → scan_rows u (suc left) row ≡ scan_then (scan_slots u row 16 0) (scan_rows u left (row + 1))
  unfolding scan_rows
  scan_rows_next left row = elim (Result-cases (scan_slots u row 16 0).1) [
    | inl (n, e) ↦ rw (e, scan_rows) refl
    | inr (inl (n, e)) ↦ rw (e, scan_rows) refl
    | inr (inr e) ↦ rw (e, scan_rows) refl
  ]

  scan_rows_lem :
      (left row : ℕ)
      → 16 * (row + left) < 2 ^ 16
      → scan_rows u left row ≡ scan_pass u (16 * left) (16 * row + 1)
  unfolding scan_rows
  scan_rows_lem zero row small =
      let e : 0 ≡ 16 * zero = omega arith in ap (λ t. scan_pass u t (16 * row + 1)) e
  scan_rows_lem (suc left) row small =
      let e : 16 * row + 0 + 1 ≡ 16 * row + 1 = omega arith in
      let f : 16 * (row + 1) + 1 ≡ 16 * row + 1 + 16 = omega arith in
      let g : 16 + 16 * left ≡ 16 * suc left = omega arith in
      scan_rows_next left row
      ∙ (λ i.
          scan_then ((scan_slots_lem row 16 0 (omega (arith, small)) ∙ ap (scan_pass u 16) e) i) (
            (scan_rows_lem left (row + 1) (omega (arith, small)) ∙ ap (scan_pass u (16 * left)) f)
              i))
      ∙ scan_pass-add 16 (16 * left) (16 * row + 1)
      ∙ ap (λ t. scan_pass u t (16 * row + 1)) g

  -- If the inode table has from 1 to 2 ^ 12 - 1 sectors and starts below 2 ^ 16, then the two
  -- nested loops of inode_scan_print do what one pass over the inode numbers from 1 to 16 times
  -- those sectors less one does: it prints the line of each inode that inode_read gives, passes
  -- over those that are not allocated, and ends at any other error, which is returned, without a
  -- line.
  pub inode_scan_print_lem :
      1 ≤ u.s.s_isize
      → u.s.s_isize < 2 ^ 12
      → u.s.s_inode_start < 2 ^ 16
      → inode_scan_print u ≡ scan_pass u (16 * (u.s.s_isize - 1)) 1
  unfolding inode_scan_print
  inode_scan_print_lem some' few start =
      let e : scanned_rows u.s ≡ u.s.s_isize - 1 = omega (arith, some', few, start) in
      let f : 16 * 0 + 1 ≡ 1 = omega arith in
      scan_rows_lem (scanned_rows u.s) 0 (omega (arith, e, few))
      ∙ (λ i. scan_pass u (16 * e i) (f i))
