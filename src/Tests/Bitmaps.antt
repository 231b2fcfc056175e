-- ===== src/Tests/Bitmaps.antt =====
-- Bitmaps: runs, and the theorems at inputs.
use file_system_public_copy.Prelude.{
  ℕ, ◌≡◌, ◌≢◌, ◌⊎◌, ◌≤◌, refl, arith, true, some, [], ◌∷◌, ok, err,
}
use file_system_public_copy.Errors.{bitmap_full, bad_parameter}
use file_system_public_copy.Bitmap.{Bitmap, bm_alloc, bm_get, bm_set, bm_clear, bm_find_next}
use file_system_public_copy.Bitmap.Bits.{
  IsValid, InRange, bm_alloc-IsValid, bm_get-bm_set, bm_get-bm_clear,
}
use file_system_public_copy.Bitmap.Find.{
  Moved, bm_find_next_lem, bm_find_next_distinct, bm_find_next_again,
}
use file_system_public_copy.Tests.Disk.{fbm}

-- Seventy numbers, in two words; the first word is full.
abbrev seventy : Bitmap
seventy = record { cursor = 0; min = 10; max = 79; length = 2; bm = 0xffff_ffff_ffff_ffff ∷ 1 ∷ [] }

abbrev all_used : Bitmap
all_used = record { cursor = 0; min = 10; max = 13; length = 1; bm = 0xf ∷ [] }

finds_75 : (bm_find_next seventy).0 ≡ ok 75
unfolding bm_find_next
finds_75 = refl

is_full : (bm_find_next all_used).0 ≡ err bitmap_full
unfolding bm_find_next
is_full = refl

sets_and_clears :
    (bm_get (bm_set fbm 9) 9 ≡ ok 1)
    × (bm_get (bm_clear fbm 5) 5 ≡ ok 0)
    × (bm_get fbm 20 ≡ err bad_parameter)
unfolding bm_get bm_set bm_clear
sets_and_clears = (refl, refl, refl)

seventy-IsValid : IsValid seventy
seventy-IsValid = omega arith

abbrev fresh : Bitmap
fresh = record { cursor = 0; min = 4; max = 80; length = 2; bm = 0 ∷ 0 ∷ [] }

fresh_alloc : bm_alloc (λ n. true) 4 80 ≡ some fresh
unfolding bm_alloc
fresh_alloc = refl

allocs_IsValid :
    IsValid fresh
    × (fresh.min ≡ 4)
    × (fresh.max ≡ 80)
    × ((x : ℕ) → 4 ≤ x → x ≤ 80 → bm_get fresh x ≡ ok 0)
allocs_IsValid = bm_alloc-IsValid (λ n. true) 4 80 (omega arith) fresh_alloc

set_seventy : bm_get (bm_set seventy 77) 77 ≡ ok 1
set_seventy = bm_get-bm_set seventy 77 77 seventy-IsValid (omega arith)

clears_12 : bm_get (bm_clear seventy 12) 13 ≡ bm_get seventy 13
clears_12 = bm_get-bm_clear seventy 12 13 seventy-IsValid (omega arith)

bm_find_next_lem_example :
    IsValid (bm_find_next seventy).1
    × Moved seventy (bm_find_next seventy).1
    × (((x : ℕ) × ((bm_find_next seventy).0 ≡ ok x) × InRange seventy x × (bm_get seventy x ≡ ok 0))
        ⊎ (((bm_find_next seventy).0 ≡ err bitmap_full)
            × ((x : ℕ) → InRange seventy x → bm_get seventy x ≡ ok 1)))
bm_find_next_lem_example = bm_find_next_lem seventy seventy-IsValid (omega arith)

finds_76 : (bm_find_next (bm_set (bm_find_next seventy).1 75)).0 ≡ ok 76
unfolding bm_find_next bm_set
finds_76 = refl

finds_76_next : ◌≢◌ {A = ℕ} 75 76
finds_76_next = bm_find_next_distinct seventy seventy-IsValid (omega arith) finds_75 finds_76

finds_75_again : bm_find_next (bm_find_next seventy).1 ≡ (ok 75, (bm_find_next seventy).1)
finds_75_again = bm_find_next_again seventy 75 seventy-IsValid (omega arith) finds_75
