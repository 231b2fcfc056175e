-- ===== src/Inode/Alloc.antt =====
-- done/inode.c: inode_alloc.
use file_system_public_copy.Prelude.{
  ℕ, ◌^◌, ◌<◌, ◌≡◌, ◌⊎◌, inl, inr, refl, ap, Result, ok, err, ◌∙◌, if◌then◌else◌, ◌==◌,
}
use file_system_public_copy.Errors.{bitmap_full}
use file_system_public_copy.Bitmap.{Bitmap, bm_get, bm_find_next}
use file_system_public_copy.Bitmap.Bits.{IsValid, InRange, bm_get-bm_set, bm_set-IsValid}
use file_system_public_copy.Bitmap.Find.{Moved, bm_find_next_lem, InRange-find}
use file_system_public_copy.FileSystem.{FileSystem}
use file_system_public_copy.Inode.{inode_alloc}

-- A search that only moved the cursor leaves every bit.
bm_get-Moved : (b b' : Bitmap) (x : ℕ) → Moved b b' → bm_get b' x ≡ bm_get b x
unfolding bm_get
bm_get-Moved b b' x m = ap (λ (c : Bitmap). bm_get c x) m

-- What `inode_alloc` returns: a number of the range that was free and is set now, all other bits
-- being as before, or ERR_BITMAP_FULL when all are set; only the inode bitmap changes.
abbrev pub IsAllocated : FileSystem → Result ℕ × FileSystem → Type 0
IsAllocated u (status, u') =
    IsValid u'.ibm
    × (u' ≡ record u { ibm = u'.ibm })
    × (((n : ℕ) × (status ≡ ok n)
          × InRange u.ibm n
          × (bm_get u.ibm n ≡ ok 0)
          × ((x : ℕ) → bm_get u'.ibm x ≡ (if n == x then ok 1 else bm_get u.ibm x)))
        ⊎ ((status ≡ err bitmap_full) × ((x : ℕ) → InRange u.ibm x → bm_get u.ibm x ≡ ok 1)))

-- On a file system whose inode bitmap is valid and has numbers below 2 ^ 31, inode_alloc changes
-- only that bitmap and leaves it valid; either it returns a number of the range whose bit was 0
-- and is 1 then, all other bits being as before, or it returns ERR_BITMAP_FULL and every number
-- of the range has bit 1.
pub inode_alloc_lem :
    (u : FileSystem) → IsValid u.ibm → u.ibm.max < 2 ^ 31 → IsAllocated u (inode_alloc u)
unfolding inode_alloc
inode_alloc_lem u v small =
    let (valid, moved, outcome) = bm_find_next_lem u.ibm v small in
    elim outcome [
      | inl (n, e, r, free) ↦
          let b = (bm_find_next u.ibm).1 in
          rw (e, inode_alloc)
            (
              bm_set-IsValid n valid,
              refl,
              inl (
                n,
                refl,
                r,
                free,
                λ x.
                    bm_get-bm_set b n x valid (InRange-find u.ibm n v small e)
                    ∙ ap (λ old. if n == x then ok 1 else old) (bm_get-Moved u.ibm b x moved),
              ),
            )
      | inr (e, full) ↦ rw (e, inode_alloc) (valid, refl, inr (refl, full))
    ]
