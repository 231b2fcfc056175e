-- ===== src/Bitmap/Search.antt =====
-- done/bmblock.c: the two loops of bm_find_next.
use file_system_public_copy.Prelude.{
  ℕ, zero, suc, ◌+◌, ◌-◌, ◌*◌, ◌%◌, ◌^◌, ◌≤◌, ◌<◌, ◌≡◌, inl, inr, refl, arith, ap, Bool, true,
  false, ◌==◌, ==_iff, Bool-cases, dec_lt, Option-cases, get_or, Option, none, some, u64, ◌∙◌,
}
use native.Mathlib.Nat.{mod-eq_of_lt}
use file_system_public_copy.Prelude.Bits.{digit_ones}
use file_system_public_copy.Bitmap.{
  Bitmap, bm_get, is_free, scan_bits, scan_words, word_index, bit_index,
}
use file_system_public_copy.Bitmap.Bits.{IsValid, InRange-cases, bm_get_lem, bm_get-bad}

abbrev pub free : Bitmap → ℕ → Bool
free b x = is_free (bm_get b x)

-- The number that the loops try at bit `m` of word `w`.
abbrev pub number : Bitmap → ℕ → ℕ → ℕ
number b w m = u64 (w * 64 + m + b.min)

scan_bits_hit : (b : Bitmap) (w left j x : ℕ) → scan_bits b w left j ≡ some x → free b x ≡ true
unfolding scan_bits
scan_bits_hit b w zero j x h = absurd (ground arith)
scan_bits_hit b w (suc left) j x h = ground (arith, scan_bits_hit b w left (j + 1) x)

scan_bits_miss :
    (b : Bitmap) (w left j m : ℕ)
    → scan_bits b w left j ≡ none
    → j ≤ m
    → m < j + left
    → free b (number b w m) ≡ false
unfolding scan_bits
scan_bits_miss b w zero j m h p q = absurd (omega arith)
scan_bits_miss b w (suc left) j m h p q = elim (dec_lt j m) [
  | yes l ↦ ground (arith, scan_bits_miss b w left (j + 1) m)
  | no l ↦ let e : m ≡ j = omega arith in rw e (ground arith)
]

-- A word of ones has no free number.
full_word :
    (b : Bitmap) (w m : ℕ)
    → IsValid b
    → get_or b.bm w 0 ≡ 2 ^ 64 - 1
    → w < b.length
    → m < 64
    → free b (number b w m) ≡ false
full_word b w m v e hw hm = elim (InRange-cases b (number b w m)) [
  | inl r ↦
      let word : word_index b (number b w m) ≡ w = omega arith in
      let bit : bit_index b (number b w m) ≡ m = omega arith in
      rw (bm_get_lem b (number b w m) r, word, bit, e, digit_ones 64 m hm) refl
  | inr n ↦ rw (bm_get-bad b (number b w m) n)
]

-- The word that round `i` looks at.
abbrev pub word_at : Bitmap → ℕ → ℕ → ℕ
word_at b start i = u64 (start + i) % b.length

-- What the outer loop has found, from round `i` with `left` rounds left.
pub record Scanned (b : Bitmap) (start left i : ℕ) (result : Option ℕ × Bitmap) : Type 0 where
  pub moved : result.1 ≡ record b { cursor = result.1.cursor }
  pub on_word : result.1.cursor < b.length
  pub hit : (x : ℕ) → result.0 ≡ some x → free b x ≡ true
  pub landed :
      (x : ℕ)
      → result.0 ≡ some x
      → ((get_or b.bm result.1.cursor 0 == 2 ^ 64 - 1) ≡ false)
        × (scan_bits result.1 result.1.cursor 64 0 ≡ some x)
  pub miss :
      result.0 ≡ none
      → (k m : ℕ) → i ≤ k
      → k < i + left
      → m < 64
      → free b (number b (word_at b start k) m) ≡ false

-- No bit depends on the cursor.
pub free_cursor : (b : Bitmap) (c x : ℕ) → free (record b { cursor = c }) x ≡ free b x
unfolding bm_get
free_cursor b c x = refl

pub cursor-IsValid :
    {b : Bitmap} {c : ℕ} → IsValid b → c < b.length → IsValid (record b { cursor = c })
cursor-IsValid v h = omega arith

-- A round that finds nothing, and the rounds after it.
Scanned-skip :
    {b : Bitmap} {start left i : ℕ} {result : Option ℕ × Bitmap}
    → ((m : ℕ) → m < 64 → free b (number b (word_at b start i) m) ≡ false)
    → Scanned (record b { cursor = word_at b start i }) start left (i + 1) result
    → Scanned b start (suc left) i result
unfolding bm_get
Scanned-skip {b} {start} {left} {i} none_here s = record {
  moved = s.moved;
  on_word = s.on_word;
  hit = s.hit;
  landed = s.landed;
  miss = λ e k m p q r. elim (dec_lt i k) [
    | yes l ↦ s.miss e k m (omega arith) (omega arith) r
    | no l ↦ let same : k ≡ i = omega arith in rw same (none_here m r)
  ];
}

-- One round, from what the rounds after it find.
scan_words_round :
    (b : Bitmap) (start left i : ℕ)
    → IsValid b
    → (let b' = record b { cursor = word_at b start i } in
        Scanned b' start left (i + 1) (scan_words b' start left (i + 1)))
    → Scanned b start (suc left) i (scan_words b start (suc left) i)
unfolding scan_words bm_get
scan_words_round b start left i v rest = elim (Bool-cases (get_or b.bm c 0 == 2 ^ 64 - 1)) [
  | inl full ↦ rw full (Scanned-skip (λ m r. full_word b c m v ((==_iff _ _).0 full) c-lt r) rest)
  | inr part ↦ elim (Option-cases (scan_bits b' c 64 0)) [
    | inl e ↦
        rw (part, e)
          (Scanned-skip (λ m r. scan_bits_miss b' c 64 0 m e (omega arith) (omega arith)) rest)
    | inr (x, e) ↦
        rw (part, e)
          (record {
            moved = refl;
            on_word = c-lt;
            hit = λ y p. scan_bits_hit b' c 64 0 y (e ∙ p);
            landed = λ y p. (part, e ∙ p);
            miss = λ p. absurd (ground arith);
          })
  ]
]
  where
    c : ℕ
    c = word_at b start i

    c-lt : c < b.length
    c-lt = omega arith

    b' : Bitmap
    b' = record b { cursor = c }

pub scan_words-Scanned :
    (b : Bitmap) (start left i : ℕ) → IsValid b → Scanned b start left i (scan_words b start left i)
unfolding scan_words
scan_words-Scanned b start zero i v = record {
  moved = refl;
  on_word = v.on_word;
  hit = λ x e. absurd (ground arith);
  landed = λ x e. absurd (ground arith);
  miss = λ e k m p q r. absurd (omega arith);
}
scan_words-Scanned b start (suc left) i v =
    let b' = record b { cursor = word_at b start i } in
    scan_words_round b start left i v
      (scan_words-Scanned b' start left (i + 1) (cursor-IsValid v (omega arith)))

-- A search that starts at a word with a free number finds it there, and stays there.
pub scan_words_stay :
    (b : Bitmap) (left x : ℕ)
    → IsValid b
    → (get_or b.bm b.cursor 0 == 2 ^ 64 - 1) ≡ false
    → scan_bits b b.cursor 64 0 ≡ some x
    → scan_words b b.cursor (suc left) 0 ≡ (some x, b)
unfolding scan_words
scan_words_stay b left x v part e =
    let w : u64 (b.cursor + 0) ≡ b.cursor = omega arith in
    let c : word_at b b.cursor 0 ≡ b.cursor = rw w (mod-eq_of_lt v.on_word) in
    rw (c, part, e) (ap (λ k. (some x, record b { cursor = k })) c)
