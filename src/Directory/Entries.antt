-- ===== src/Directory/Entries.antt =====
-- done/direntv6.c: the bytes of a new entry, and the search in a directory that has one more.
use file_system_public_copy.Prelude.{
  ℕ, zero, suc, ◌+◌, ◌*◌, ◌^◌, ◌≤◌, ◌<◌, ◌≡◌, refl, ap, arith, Bool, true, ◌&&◌, not, ◌==◌,
  if◌then◌else◌, Option, none, some, List, [], ◌∷◌, ◌++◌, length, get_or, take, replicate, slice,
  ◌∙◌, Bool-cases, inl, inr,
}
use file_system_public_copy.Stdio.{Buffer}
use file_system_public_copy.Layout.{u16_at}
use file_system_public_copy.Directory.{c_string, bytes_eq}
use file_system_public_copy.Directory.Create.{dirent_bytes}
use file_system_public_copy.Directory.Reader.{entry_at, entry_ext}
use file_system_public_copy.Directory.Find.{first_named}

abbrev pub no_nul : List ℕ → Bool
no_nul [] = true
no_nul (c ∷ cs) = not (c == 0) && no_nul cs

c_string-slice :
    (f : Buffer) (i n : ℕ) (name : List ℕ)
    → no_nul name ≡ true
    → length name < n
    → ((k : ℕ) → k ≤ length name → f (i + k) ≡ get_or name k 0)
    → c_string (slice f i n) ≡ name
c_string-slice f i zero name valid short h = absurd (omega (arith, short))
c_string-slice f i (suc n) [] valid short h = ground (arith, h 0)
c_string-slice f i (suc n) (c ∷ cs) valid short h = ground (
  arith,
  h 0,
  valid,
  c_string-slice f (i + 1) n cs (ground (arith, valid)) (omega (arith, short))
      λ k p. ap f (omega arith) ∙ h (suc k) (omega (arith, p)),
)

get_or-take : (n : ℕ) (xs : List ℕ) (k : ℕ) → k < n → get_or (take n xs) k 0 ≡ get_or xs k 0
get_or-take zero xs k h = absurd (omega (arith, h))
get_or-take (suc n) [] k h = refl
get_or-take (suc n) (x ∷ xs) zero h = refl
get_or-take (suc n) (x ∷ xs) (suc k) h = get_or-take n xs k (omega (arith, h))

get_or-padded : (xs : List ℕ) (n k : ℕ) → get_or (xs ++ replicate n 0) k 0 ≡ get_or xs k 0
get_or-padded [] zero k = refl
get_or-padded [] (suc n) zero = refl
get_or-padded [] (suc n) (suc k) = get_or-padded [] n k
get_or-padded (x ∷ xs) n zero = refl
get_or-padded (x ∷ xs) n (suc k) = get_or-padded xs n k

get_or-length : (xs : List ℕ) (k : ℕ) → length xs ≤ k → get_or xs k 0 ≡ 0
get_or-length [] k h = refl
get_or-length (x ∷ xs) zero h = absurd (omega (arith, h))
get_or-length (x ∷ xs) (suc k) h = get_or-length xs k (omega (arith, h))

dirent-name :
    (n : ℕ) (name : List ℕ) (k : ℕ) → k < 14 → dirent_bytes n name (suc (suc k)) ≡ get_or name k 0
unfolding dirent_bytes
dirent-name n name k h = get_or-take 14 (name ++ replicate 14 0) k h ∙ get_or-padded name 14 k

dirent-number : (n : ℕ) (name : List ℕ) → n < 2 ^ 16 → u16_at (dirent_bytes n name) 0 ≡ n
unfolding dirent_bytes
dirent-number n name h = omega (arith, h)

-- Where a directory has the bytes of a new entry, it has that entry.
pub entry_at-dirent :
    (g : Buffer) (k n : ℕ) (name : List ℕ)
    → no_nul name ≡ true
    → length name < 14
    → n < 2 ^ 16
    → ((j : ℕ) → j < 16 → g (k * 16 + j) ≡ dirent_bytes n name j)
    → entry_at g k ≡ record { name = name; child_inr = n }
entry_at-dirent g k n name valid short small h =
    entry_ext g (dirent_bytes n name) k 0 (λ j q. h j q ∙ ap (dirent_bytes n name) (omega arith))
    ∙ (λ i. record { name = named i; child_inr = dirent-number n name small i })
  where
    named : c_string (slice (dirent_bytes n name) 2 14) ≡ name
    named = c_string-slice (dirent_bytes n name) 2 14 name valid short λ k p.
        ap (dirent_bytes n name) (omega arith) ∙ dirent-name n name k (omega (arith, p, short))

pub bytes_eq_self : (xs : List ℕ) → bytes_eq xs xs ≡ true
bytes_eq_self [] = refl
bytes_eq_self (x ∷ xs) = ground (arith, bytes_eq_self xs)

pub bytes_eq_sound : (xs ys : List ℕ) → bytes_eq xs ys ≡ true → xs ≡ ys
bytes_eq_sound [] [] h = refl
bytes_eq_sound [] (y ∷ ys) h = cc
bytes_eq_sound (x ∷ xs) [] h = cc
bytes_eq_sound (x ∷ xs) (y ∷ ys) h = ground (arith, h, bytes_eq_sound xs ys)

-- The search sees the bytes of the entries only.
pub first_named_ext :
    (g g' : Buffer) (sought : List ℕ) (left k : ℕ)
    → ((p : ℕ) → p < (k + left) * 16 → g p ≡ g' p)
    → first_named g sought left k ≡ first_named g' sought left k
first_named_ext g g' sought zero k h = refl
first_named_ext g g' sought (suc left) k h =
    let e : entry_at g k ≡ entry_at g' k =
      entry_ext g g' k k λ p q. h (k * 16 + p) (omega (arith, q)) in
    let rest = first_named_ext g g' sought left (k + 1) λ p q. h p (omega (arith, q)) in
    λ i. if bytes_eq sought (e i).name then some (e i).child_inr else rest i

-- What a search found before entry `k`, or else that entry if it has the name.
abbrev pub or_entry : Buffer → List ℕ → ℕ → Option ℕ → Option ℕ
or_entry g sought k (some n) = some n
or_entry g sought k none =
    if bytes_eq sought (entry_at g k).name then some (entry_at g k).child_inr else none

-- One entry more.
pub first_named-snoc :
    (g : Buffer) (sought : List ℕ) (left k : ℕ)
    → first_named g sought (left + 1) k ≡ or_entry g sought (k + left) (first_named g sought left k)
first_named-snoc g sought zero k =
    let e : 0 + 1 ≡ suc zero = omega arith in
    let f : k ≡ k + 0 = omega arith in
    ap (λ t. first_named g sought t k) e ∙ ap (λ t. or_entry g sought t none) f
first_named-snoc g sought (suc left) k =
    let e : suc left + 1 ≡ suc (left + 1) = omega arith in
    ap (λ t. first_named g sought t k) e ∙ elim (Bool-cases (bytes_eq sought (entry_at g k).name)) [
      | inl same ↦ rw same
      | inr other ↦
          let f : k + 1 + left ≡ k + suc left = omega arith in
          rw other (
            first_named-snoc g sought left (k + 1)
            ∙ ap (λ t. or_entry g sought t (first_named g sought left (k + 1))) f)
    ]
