-- ===== src/Stdio.antt =====
-- The C library's streams as the program uses them: a `FILE` opened for update on a regular file
-- or a device. `seekable` is whether `fseek` to a non-negative offset succeeds, and `damaged k`
-- that a transfer which starts at byte k fails. Buffering is not modelled: a write is seen at once.
use file_system_public_copy.Prelude.{
  ℕ, ◌+◌, ◌-◌, ◌≤◌, ◌<◌, min, Bool, ◌&&◌, if◌then◌else◌, ltb, leb, ◌≡◌, ◌⊎◌, arith,
}

-- An array of bytes by index.
abbrev pub Buffer : Type 0
Buffer = ℕ → ℕ

pub record File : Type 0 where
  pub size : ℕ
  pub byte : Buffer
  pub seekable : Bool
  pub damaged : ℕ → Bool

-- `memcpy(&dest[at], src, n)`.
unfoldable pub memcpy : Buffer → ℕ → ℕ → Buffer → Buffer
memcpy dest at n src k = if leb at k && ltb k (at + n) then src (k - at) else dest k

-- `fread(data, 1, n, f)` at an offset: how many bytes were read.
unfoldable pub fread_count : File → ℕ → ℕ → ℕ
fread_count f offset n = if f.damaged offset then 0 else min n (f.size - offset)

-- The file after `fwrite` of `n` bytes at an offset. A write past the end leaves zeros in the gap.
unfoldable pub fwrite : File → ℕ → ℕ → Buffer → File
unfolding memcpy
fwrite f offset n src = if f.damaged offset then f else record f {
  size = if leb (offset + n) f.size then f.size else offset + n;
  byte = memcpy (λ k. if ltb k f.size then f.byte k else 0) offset n src;
}

pub memcpy_inside : (dest src : Buffer) (at n k : ℕ) → k < n → memcpy dest at n src (at + k) ≡ src k
unfolding memcpy
memcpy_inside dest src at n k h = let e : at + k - at ≡ k = omega arith in rw e (ground arith)

pub memcpy_outside :
    (dest src : Buffer) (at n j : ℕ) → (j < at) ⊎ (at + n ≤ j) → memcpy dest at n src j ≡ dest j
unfolding memcpy
memcpy_outside dest src at n j h = ground arith
