-- ===== src/Sector/Laws.antt =====
-- done/sector.c: sector_read and sector_write.
use file_system_public_copy.Prelude.{
  ℕ, ◌+◌, ◌*◌, ◌^◌, ◌≤◌, ◌<◌, ◌≡◌, arith, true, false, if◌then◌else◌, ◌==◌, ltb, ok, ℕ_discrete,
  ◌∙◌,
}
use file_system_public_copy.Stdio.{Buffer, File, memcpy_inside, memcpy_outside}
use file_system_public_copy.Sector.{sector_offset, sector_read, sector_write}

-- Sector `n` lies inside the file, and its transfers succeed.
pub record IsReadable (f : File) (n : ℕ) : Type 0 where
  pub seeks : f.seekable ≡ true
  pub sound : f.damaged (n * 512) ≡ false
  pub inside : n * 512 + 512 ≤ f.size
  pub small : n < 2 ^ 23

-- A readable sector reads as its 512 bytes of the file.
pub sector_read_lem :
    (f : File) (n : ℕ) → IsReadable f n → sector_read f n ≡ ok (λ k. f.byte (n * 512 + k))
unfolding sector_read
sector_read_lem f n r = let e : sector_offset n ≡ n * 512 = omega arith in ground (arith, e)

abbrev within : File → Buffer
within f k = if ltb k f.size then f.byte k else 0

-- Every byte after a sector was written: the new ones in that sector, the old ones elsewhere.
pub byte-sector_write :
    (f : File) (n m k : ℕ) (d : Buffer)
    → IsReadable f n
    → IsReadable f m
    → k < 512
    → (sector_write f n d).1.byte (m * 512 + k) ≡ (if m == n then d k else f.byte (m * 512 + k))
unfolding sector_write
byte-sector_write f n m k d rn rm hk =
    let e : sector_offset n ≡ n * 512 = omega arith in
    rw (e, rn.seeks, rn.sound)
      (elim (ℕ_discrete m n) [
        | yes same ↦ rw same (memcpy_inside (within f) d (n * 512) 512 k hk ∙ ground arith)
        | no other ↦
            memcpy_outside (within f) d (n * 512) 512 (m * 512 + k) (ground arith) ∙ ground arith
      ])

-- A write reports success, and leaves every readable sector readable.
pub sector_write-IsReadable :
    (f : File) (n m : ℕ) (d : Buffer)
    → IsReadable f n
    → IsReadable f m
    → ((sector_write f n d).0 ≡ ok 0) × IsReadable (sector_write f n d).1 m
unfolding sector_write
sector_write-IsReadable f n m d rn rm =
    let e : sector_offset n ≡ n * 512 = omega arith in ground (arith, e)

-- For two readable sectors: after sector_write of the first, sector_read of the second succeeds,
-- and gives the new bytes if the sectors are the same, and its old bytes if they are not.
pub sector_read-sector_write :
    (f : File) (n m : ℕ) (d : Buffer)
    → IsReadable f n
    → IsReadable f m
    → (b : Buffer) × (sector_read (sector_write f n d).1 m ≡ ok b)
      × ((k : ℕ) → k < 512 → b k ≡ (if m == n then d k else f.byte (m * 512 + k)))
sector_read-sector_write f n m d rn rm = (
  λ k. (sector_write f n d).1.byte (m * 512 + k),
  sector_read_lem (sector_write f n d).1 m (sector_write-IsReadable f n m d rn rm).1,
  λ k h. byte-sector_write f n m k d rn rm h,
)
