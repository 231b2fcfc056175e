-- ===== src/Utils/Print/AllFiles.antt =====
-- done/u6fs_utils.c: utils_print_sha_allfiles, as one pass over the inode numbers.
use file_system_public_copy.Prelude.{
  ℕ, zero, suc, ◌+◌, ◌-◌, ◌*◌, ◌^◌, ◌≤◌, ◌<◌, ◌≡◌, refl, sym, ap, arith, if◌then◌else◌, ltb, ◌==◌,
  true, false, List, [], ◌∷◌, ◌++◌, Result, ok, err, fault, u16, ◌∙◌, Bool-cases, inl, inr,
  Result-cases,
}
use mathlib.Core.List.{append_assoc}
use file_system_public_copy.Errors.{unallocated_inode}
use file_system_public_copy.Stdio.{Buffer}
use file_system_public_copy.Printed.{Row, and_then, text}
use file_system_public_copy.Sector.Laws.{IsReadable, sector_read_lem}
use file_system_public_copy.FileSystem.{FileSystem}
use file_system_public_copy.Utils.{utils_print_shafile}
use file_system_public_copy.Utils.Print.{
  sha_next, sha_slots, sha_sectors, sha_row, sha_begun, utils_print_sha_allfiles,
}

-- The hashes of `left` inodes from number `n` on: one that is not allocated is passed over, and any
-- other error ends the work.
abbrev pub sha_pass : (Buffer → ℕ → List ℕ) → Buffer → FileSystem → ℕ → ℕ → List Row × Result ℕ
sha_pass sha256 junk u zero n = ([], ok 0)
sha_pass sha256 junk u (suc left) n = sha_next sha256 junk u n (sha_pass sha256 junk u left (n + 1))

-- Rows before the first part are rows before the whole.
and_then-rows :
    (xs : List Row) (r s : List Row × Result ℕ)
    → and_then (xs ++ r.0, r.1) s ≡ (xs ++ (and_then r s).0, (and_then r s).1)
and_then-rows xs (rows, ok n) s = ap (λ t. (t, s.1)) (append_assoc xs rows s.0)
and_then-rows xs (rows, err n) s = refl
and_then-rows xs (rows, fault) s = refl

module _ (sha256 : Buffer → ℕ → List ℕ) (junk : Buffer) (u : FileSystem) where
  and_then-sha_next :
      (n : ℕ) (r s : List Row × Result ℕ)
      → and_then (sha_next sha256 junk u n r) s ≡ sha_next sha256 junk u n (and_then r s)
  and_then-sha_next n r s = elim (Result-cases (utils_print_shafile sha256 junk u n)) [
    | inl (printed, e) ↦ before (sha_row n printed ∷ []) (λ t. rw (e, sha_next) refl)
    | inr (inl (c, e)) ↦ elim (Bool-cases (c == unallocated_inode)) [
      | inl same ↦ before (sha_begun u n) (λ t. rw (e, sha_next) (rw same refl))
      | inr other ↦ ends (sha_begun u n, err c) (λ t. rw (e, sha_next) (rw other refl)) refl
    ]
    | inr (inr e) ↦ ends (sha_begun u n, fault) (λ t. rw (e, sha_next) refl) refl
  ]
    where
      before :
          (xs : List Row)
          → ((t : List Row × Result ℕ) → sha_next sha256 junk u n t ≡ (xs ++ t.0, t.1))
          → and_then (sha_next sha256 junk u n r) s ≡ sha_next sha256 junk u n (and_then r s)
      before xs f = ap (λ t. and_then t s) (f r) ∙ and_then-rows xs r s ∙ sym (f (and_then r s))

      ends :
          (last : List Row × Result ℕ)
          → ((t : List Row × Result ℕ) → sha_next sha256 junk u n t ≡ last)
          → and_then last s ≡ last
          → and_then (sha_next sha256 junk u n r) s ≡ sha_next sha256 junk u n (and_then r s)
      ends last f stays = ap (λ t. and_then t s) (f r) ∙ stays ∙ sym (f (and_then r s))

  sha_pass-add :
      (a b n : ℕ)
      → and_then (sha_pass sha256 junk u a n) (sha_pass sha256 junk u b (n + a))
        ≡ sha_pass sha256 junk u (a + b) n
  sha_pass-add zero b n =
      ap (λ t. sha_pass sha256 junk u b t) (omega arith)
      ∙ ap (λ t. sha_pass sha256 junk u t n) (omega arith)
  sha_pass-add (suc a) b n =
      let e : suc a + b ≡ suc (a + b) = omega arith in
      let f : n + suc a ≡ n + 1 + a = omega arith in
      rw (e, f)
        (and_then-sha_next n (sha_pass sha256 junk u a (n + 1))
            (sha_pass sha256 junk u b (n + 1 + a))
          ∙ ap (sha_next sha256 junk u n) (sha_pass-add a b (n + 1)))

  sha_slots_lem :
      (rel left index : ℕ)
      → index + left ≤ 16
      → rel < 2 ^ 12
      → sha_slots sha256 junk u rel left index ≡ sha_pass sha256 junk u left (index + rel * 16)
  unfolding sha_slots
  sha_slots_lem rel zero index h small = refl
  sha_slots_lem rel (suc left) index h small =
      let e : u16 (index + rel * 16) ≡ index + rel * 16 = omega (arith, h, small) in
      let f : index + 1 + rel * 16 ≡ index + rel * 16 + 1 = omega arith in
      ap (λ t. sha_next sha256 junk u t (sha_slots sha256 junk u rel left (index + 1))) e
      ∙ ap (sha_next sha256 junk u (index + rel * 16)) (
          sha_slots_lem rel left (index + 1) (omega (arith, h)) small
          ∙ ap (sha_pass sha256 junk u left) f)

  -- One round of the outer loop.
  sha_round :
      (rounds y first rel next : ℕ)
      → y < u.s.s_isize + u.s.s_inode_start
      → IsReadable u.f y
      → (if y == u.s.s_inode_start then 1 else 0) ≡ first
      → u16 (y + 2 ^ 16 - u.s.s_inode_start) ≡ rel
      → u16 (y + 1) ≡ next
      → sha_sectors sha256 junk u (suc rounds) y
        ≡ and_then
            (sha_slots sha256 junk u rel (16 - first) first)
            (sha_sectors sha256 junk u rounds next)
  unfolding sha_sectors
  sha_round rounds y first rel next inside readable f r n =
      let more : ltb y (u.s.s_isize + u.s.s_inode_start) ≡ true = ground (arith, inside) in
      rw (more, sector_read_lem u.f y readable)
        (λ i.
          and_then (sha_slots sha256 junk u (r i) (16 - f i) (f i))
            (sha_sectors sha256 junk u rounds (n i)))

  -- The slots from `first` on of one sector, and the later sectors.
  slots_then :
      (rel first count : ℕ) (later : List Row × Result ℕ)
      → first ≤ 16
      → rel < 2 ^ 12
      → later ≡ sha_pass sha256 junk u count ((rel + 1) * 16)
      → and_then (sha_slots sha256 junk u rel (16 - first) first) later
        ≡ sha_pass sha256 junk u (16 - first + count) (first + rel * 16)
  slots_then rel first count later h small e =
      let from : (rel + 1) * 16 ≡ first + rel * 16 + (16 - first) = omega (arith, h) in
      (λ i.
        and_then (sha_slots_lem rel (16 - first) first (omega (arith, h)) small i)
          ((e ∙ ap (sha_pass sha256 junk u count) from) i))
      ∙ sha_pass-add (16 - first) count (first + rel * 16)

  module _ (few : u.s.s_isize ≤ 2 ^ 12) (fits : u.s.s_inode_start + u.s.s_isize < 2 ^ 16)
      (readable : (y : ℕ)
        → u.s.s_inode_start ≤ y
        → y < u.s.s_inode_start + u.s.s_isize
        → IsReadable u.f y) where
    -- The sectors after the first, `left` of them.
    later_sectors :
        (left done : ℕ)
        → done + left ≡ u.s.s_isize
        → 1 ≤ done
        → sha_sectors sha256 junk u (suc left) (u.s.s_inode_start + done)
          ≡ sha_pass sha256 junk u (left * 16) (done * 16)
    unfolding sha_sectors
    later_sectors zero done total some' =
        let stop : ltb (u.s.s_inode_start + done) (u.s.s_isize + u.s.s_inode_start) ≡ false =
          ground (arith, total) in
        let none_left : 0 ≡ zero * 16 = omega arith in
        rw stop (ap (λ t. sha_pass sha256 junk u t (done * 16)) none_left)
    later_sectors (suc left) done total some' =
        let y = u.s.s_inode_start + done in
        let all : 16 - 0 + left * 16 ≡ suc left * 16 = omega arith in
        let from : 0 + done * 16 ≡ done * 16 = omega arith in
        sha_round (suc left) y 0 done (u.s.s_inode_start + (done + 1)) (omega (arith, total))
          (readable y (omega arith) (omega (arith, total))) (ground (arith, some'))
          (omega (arith, total, few)) (omega (arith, total, fits))
        ∙ slots_then done 0 (left * 16) _ (omega arith) (omega (arith, total, few))
            (later_sectors left (done + 1) (omega (arith, total)) (omega arith))
        ∙ (λ i. sha_pass sha256 junk u (all i) (from i))

    all_sectors :
        (n : ℕ)
        → n ≡ u.s.s_isize
        → sha_sectors sha256 junk u (n + 1) u.s.s_inode_start
          ≡ sha_pass sha256 junk u (16 * n - 1) 1
    unfolding sha_sectors
    all_sectors zero e =
        let stop : ltb u.s.s_inode_start (u.s.s_isize + u.s.s_inode_start) ≡ false =
          ground (arith, e) in
        let one : zero + 1 ≡ suc zero = omega arith in
        ap (λ t. sha_sectors sha256 junk u t u.s.s_inode_start) one ∙ rw stop
    all_sectors (suc left) e =
        let y = u.s.s_inode_start in
        let rounds : suc left + 1 ≡ suc (suc left) = omega arith in
        let count : 16 - 1 + left * 16 ≡ 16 * suc left - 1 = omega arith in
        let from : 1 + 0 * 16 ≡ 1 = omega arith in
        let second : 0 + 1 ≡ 1 = omega arith in
        ap (λ t. sha_sectors sha256 junk u t y) rounds
        ∙ sha_round (suc left) y 1 0 (y + 1) (omega (arith, e))
            (readable y (omega arith) (omega (arith, e))) (ground arith) (omega arith)
            (omega (arith, e, fits))
        ∙ slots_then 0 1 (left * 16) _ (omega arith) (omega arith)
            (later_sectors left 1 (omega (arith, e)) (omega arith))
        ∙ (λ i. sha_pass sha256 junk u (count i) (from i))

    -- If the inode table has at most 2 ^ 12 sectors, which end below sector 2 ^ 16 and can be
    -- read, then the two nested loops of utils_print_sha_allfiles do what one pass over the inode
    -- numbers from 1 to before 16 times the sectors does, after the same first line: it prints
    -- the hash line of each, passes over those that are not allocated, and ends at any other
    -- error, which is returned.
    pub sha_allfiles_lem : utils_print_sha_allfiles sha256 junk u ≡ (
        let (rows, status) = sha_pass sha256 junk u (16 * u.s.s_isize - 1) 1 in
        ((text "Listing inodes SHA" ∷ []) ∷ rows, status))
    unfolding utils_print_sha_allfiles
    sha_allfiles_lem =
        ap (λ t. ((text "Listing inodes SHA" ∷ []) ∷ t.0, t.1)) (all_sectors u.s.s_isize refl)
