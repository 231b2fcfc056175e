-- ===== src/Bitmap/Find.antt =====
-- done/bmblock.c: bm_find_next.
use file_system_public_copy.Prelude.{
  ℕ, suc, List, sym, ◌∙◌, ◌+◌, ◌-◌, ◌%◌, ◌^◌, ◌<◌, ◌≡◌, ◌≢◌, ◌⊎◌, inl, inr, arith, true, false,
  ◌==◌, Option-cases, get_or, dec_le, Option, none, some, ok, err, subst, ap,
}
use file_system_public_copy.Prelude.Bits.{digit-le}
use native.Mathlib.Nat.{mod-eq_of_lt}
use file_system_public_copy.Errors.{bitmap_full}
use file_system_public_copy.Bitmap.{
  Bitmap, bm_get, bm_set, scan_bits, scan_words, found, bm_find_next, word_index, bit_index,
}
use file_system_public_copy.Bitmap.Bits.{
  IsValid, InRange, InRange-cases, bm_get_lem, bm_get-bad, bm_set-IsValid, bm_get-bm_set,
}
use file_system_public_copy.Bitmap.Search.{
  free, number, word_at, Scanned, scan_words-Scanned, scan_words_stay, cursor-IsValid,
}

free-InRange : (b : Bitmap) (x : ℕ) → free b x ≡ true → InRange b x × (bm_get b x ≡ ok 0)
free-InRange b x h = elim (InRange-cases b x) [
  | inl r ↦ (r, ground (arith, bm_get_lem b x r))
  | inr n ↦ ground (arith, bm_get-bad b x n)
]

taken : (b : Bitmap) (x : ℕ) → InRange b x → free b x ≡ false → bm_get b x ≡ ok 1
taken b x r h =
    ground (arith, bm_get_lem b x r, digit-le (get_or b.bm (word_index b x) 0) (bit_index b x))

-- Some round of the outer loop looks at the word of a number in range.
round_of :
    (b : Bitmap) (x : ℕ)
    → IsValid b
    → InRange b x
    → (k : ℕ) × (k < b.length) × (number b (word_at b b.cursor k) (bit_index b x) ≡ x)
round_of b x v r = elim (dec_le b.cursor (word_index b x)) [
  | yes p ↦
      let k : ℕ = word_index b x - b.cursor in
      let k-lt : k < b.length = omega arith in
      let w : (b.cursor + k) % 2 ^ 64 ≡ word_index b x = omega arith in
      let at : word_at b b.cursor k ≡ word_index b x = rw w (mod-eq_of_lt (omega arith)) in
      (k, k-lt, rw at (omega arith))
  | no p ↦
      let k : ℕ = word_index b x + b.length - b.cursor in
      let k-lt : k < b.length = omega arith in
      let w : (b.cursor + k) % 2 ^ 64 ≡ word_index b x + b.length = omega arith in
      let at : word_at b b.cursor k ≡ word_index b x = rw w (grind (arith)) in
      (k, k-lt, rw at (omega arith))
]

-- The vector with another cursor.
abbrev pub Moved : Bitmap → Bitmap → Type 0
Moved b b' = b' ≡ record b { cursor = b'.cursor }

found_lem :
    (b b' : Bitmap) (x : ℕ) → Moved b b' → InRange b x → b.max < 2 ^ 31 → found b' (some x) ≡ ok x
found_lem b b' x m r h = ground (arith, ap (λ (c : Bitmap). c.min) m, ap (λ (c : Bitmap). c.max) m)

-- On a valid vector whose largest number is below 2 ^ 31, bm_find_next leaves the vector valid
-- and moves only the cursor; it returns a number of the range whose bit is 0, or else
-- ERR_BITMAP_FULL, and then every number of the range has bit 1.
pub bm_find_next_lem :
    (b : Bitmap)
    → IsValid b
    → b.max < 2 ^ 31
    → let (r, b') = bm_find_next b in
      IsValid b'
      × Moved b b'
      × (((x : ℕ) × (r ≡ ok x) × InRange b x × (bm_get b x ≡ ok 0))
          ⊎ ((r ≡ err bitmap_full) × ((x : ℕ) → InRange b x → bm_get b x ≡ ok 1)))
unfolding bm_find_next
bm_find_next_lem b v small = (valid, s.moved, outcome)
  where
    s : Scanned b b.cursor b.length 0 (scan_words b b.cursor b.length 0)
    s = scan_words-Scanned b b.cursor b.length 0 v

    r : Option ℕ
    r = (scan_words b b.cursor b.length 0).0

    b' : Bitmap
    b' = (scan_words b b.cursor b.length 0).1

    valid : IsValid b'
    valid = rw s.moved (cursor-IsValid v s.on_word)

    outcome :
        ((x : ℕ) × (found b' r ≡ ok x) × InRange b x × (bm_get b x ≡ ok 0))
        ⊎ ((found b' r ≡ err bitmap_full) × ((x : ℕ) → InRange b x → bm_get b x ≡ ok 1))
    outcome = elim (Option-cases r) [
      | inl e ↦ inr (
        rw e,
        λ x q.
            let (k, below, at) = round_of b x v q in
            taken b x q (
              subst (λ y. free b y ≡ false) at
                (s.miss e k (bit_index b x) (omega arith) (omega arith) (omega arith))),
      )
      | inr (x, e) ↦
          let f = free-InRange b x (s.hit x e) in
          inl (x, rw e (found_lem b b' x s.moved f.0 small), f.0, f.1)
    ]

pub find-ok :
    (b : Bitmap) (x : ℕ)
    → IsValid b
    → b.max < 2 ^ 31
    → (bm_find_next b).0 ≡ ok x
    → InRange b x × (bm_get b x ≡ ok 0)
find-ok b x v small h = elim (bm_find_next_lem b v small).2 [
  | inl (y, e, r, z) ↦ let same : x ≡ y = ground (arith, h, e) in rw same (r, z)
  | inr (e, _) ↦ absurd (ground (arith, h, e))
]

pub max-bm_set : (b : Bitmap) (x : ℕ) → (bm_set b x).max ≡ b.max
unfolding bm_set
max-bm_set b x = ground arith

-- On a valid vector whose largest number is below 2 ^ 31: if bm_find_next gives a number, which
-- is then set, and a second bm_find_next gives a number, the two numbers differ.
pub bm_find_next_distinct :
    (b : Bitmap) {x y : ℕ}
    → IsValid b
    → b.max < 2 ^ 31
    → (bm_find_next b).0 ≡ ok x
    → (bm_find_next (bm_set (bm_find_next b).1 x)).0 ≡ ok y
    → x ≢ y
bm_find_next_distinct b {x} {y} v small hx hy = λ same. ground (
  arith,
  bm_get-bm_set found_b x y (bm_find_next_lem b v small).0 x-in,
  find-ok (bm_set found_b x) y (bm_set-IsValid x (bm_find_next_lem b v small).0) set_small hy,
  same,
)
  where
    found_b : Bitmap
    found_b = (bm_find_next b).1

    moved : Moved b found_b
    moved = (bm_find_next_lem b v small).1

    x-in : InRange found_b x
    x-in =
        rw moved (let r = find-ok b x v small hx in record { above = r.0.above; below = r.0.below })

    set_small : (bm_set found_b x).max < 2 ^ 31
    set_small = rw (max-bm_set found_b x, ap (λ (c : Bitmap). c.max) moved) small

-- A search that finds a number in the word where it starts.
find_here :
    (b : Bitmap) (y : ℕ)
    → IsValid b
    → (get_or b.bm b.cursor 0 == 2 ^ 64 - 1) ≡ false
    → scan_bits b b.cursor 64 0 ≡ some y
    → bm_find_next b ≡ (found b (some y), b)
unfolding bm_find_next
find_here b y v part e =
    let len : suc (b.length - 1) ≡ b.length = omega (arith, v.on_word) in
    let scan : scan_words b b.cursor b.length 0 ≡ (some y, b) =
      subst (λ n. scan_words b b.cursor n 0 ≡ (some y, b)) len
        (scan_words_stay b (b.length - 1) y v part e) in
    ap (λ (t : Option ℕ × Bitmap). (found t.1 t.0, t.1)) scan

-- On a valid vector whose largest number is below 2 ^ 31: if bm_find_next gives a number, a
-- second bm_find_next with no bm_set between them gives the same number and leaves the vector as
-- it is.
pub bm_find_next_again :
    (b : Bitmap) (x : ℕ)
    → IsValid b
    → b.max < 2 ^ 31
    → (bm_find_next b).0 ≡ ok x
    → bm_find_next (bm_find_next b).1 ≡ (ok x, (bm_find_next b).1)
unfolding bm_find_next
bm_find_next_again b x v small h = elim (Option-cases r) [
  | inl e ↦
      let none_found : found b' none ≡ ok x = ap (found b') (sym e) ∙ h in absurd (ground arith)
  | inr (y, e) ↦
      let l = s.landed y e in
      let part =
        subst (λ (ws : List ℕ). (get_or ws b'.cursor 0 == 2 ^ 64 - 1) ≡ false)
          (sym (ap (λ (c : Bitmap). c.bm) s.moved)) l.0 in
      find_here b' y valid part l.1 ∙ ap (λ t. (t, b')) (ap (found b') (sym e) ∙ h)
]
  where
    s : Scanned b b.cursor b.length 0 (scan_words b b.cursor b.length 0)
    s = scan_words-Scanned b b.cursor b.length 0 v

    r : Option ℕ
    r = (scan_words b b.cursor b.length 0).0

    b' : Bitmap
    b' = (scan_words b b.cursor b.length 0).1

    valid : IsValid b'
    valid = rw s.moved (cursor-IsValid v s.on_word)

-- A number that was found is in the range of the vector that the search leaves.
pub InRange-find :
    (b : Bitmap) (x : ℕ)
    → IsValid b
    → b.max < 2 ^ 31
    → (bm_find_next b).0 ≡ ok x
    → InRange (bm_find_next b).1 x
InRange-find b x v small h =
    rw (bm_find_next_lem b v small).1
      (record { above = (find-ok b x v small h).0.above; below = (find-ok b x v small h).0.below })
