-- ===== src/Steps/Writes.antt =====
-- done/filev6.c: what filev6_create and the writes to a file keep, whatever they return.
use file_system_public_copy.Prelude.{
  ℕ, ◌+◌, ◌-◌, ◌/◌, ◌%◌, ◌^◌, ◌≡◌, sym, arith, ok, inl, inr, Bool-cases, Result-cases, Option-cases,
  u32, u16, leb, ltb, subst, set, bit_or,
}
use file_system_public_copy.Stdio.{Buffer, memcpy}
use file_system_public_copy.Layout.{inode_getsize, ialloc}
use file_system_public_copy.Sector.{sector_size, sector_read, sector_write}
use file_system_public_copy.Bitmap.{scan_words, bm_find_next}
use file_system_public_copy.Bitmap.Search.{Scanned, scan_words-Scanned}
use file_system_public_copy.FileSystem.{FileSystem}
use file_system_public_copy.Inode.{inode_alloc, inode_findsector, inode_setsize}
use file_system_public_copy.Mount.Fill.{IsValidBoth}
use file_system_public_copy.File.{
  Filev6, filev6_create, link_sector, filev6_writesector, store_size, filev6_writesector_residual,
}
use file_system_public_copy.Steps.Follows.{
  Follows, MayGrow, Follows-refl, Follows-trans, MayGrow-Follows, Follows-sector_write,
  Follows-inode_write, Follows-inode_alloc, searched,
}

-- A write keeps the number of the open file, whatever it returns.
pub number-writesector :
    (junk : Buffer) (u : FileSystem) (fv6 : Filev6) (buf : Buffer) (len size : ℕ)
    → (filev6_writesector junk u fv6 buf len size).1.i_number ≡ fv6.i_number
unfolding filev6_writesector link_sector
number-writesector junk u fv6 buf len size = ground arith

pub number-residual :
    (u : FileSystem) (fv6 : Filev6) (buf : Buffer) (len sectors residual size : ℕ)
    → (filev6_writesector_residual u fv6 buf len sectors residual size).1.i_number ≡ fv6.i_number
unfolding filev6_writesector_residual store_size
number-residual u fv6 buf len sectors residual size = ground arith

module _ {may own : ℕ → Type 0} where
  pub Follows-create :
      (u : FileSystem) (mode : ℕ) (fv6 : Filev6)
      → IsValidBoth u
      → MayGrow may own u
      → ((n : ℕ) → own n)
      → Follows may u (filev6_create u mode fv6).2
  unfolding filev6_create
  Follows-create u mode fv6 v m all =
      let u' : FileSystem = (inode_alloc u).1 in
      let a : Follows may u u' = Follows-inode_alloc u v in
      elim (Result-cases (inode_alloc u).0) [
        | inl (n, e) ↦
            rw (e, filev6_create)
              (Follows-trans a (
                Follows-inode_write u' (u16 n) (record fv6.i_node { i_mode = bit_or mode ialloc })
                  a.valid (MayGrow-Follows a m) (all (u16 n))))
        | inr (inl (n, e)) ↦ rw (e, filev6_create) a
        | inr (inr e) ↦ rw (e, filev6_create) a
      ]

  Follows-link_sector :
      (u : FileSystem) (fv6 : Filev6) (x : ℕ)
      → IsValidBoth u
      → MayGrow may own u
      → own fv6.i_number
      → Follows may u (link_sector u fv6 x).2
  unfolding link_sector
  Follows-link_sector u fv6 x v m o =
      let index = inode_getsize fv6.i_node / sector_size in
      elim (Bool-cases (leb 8 index)) [
        | inl e ↦ rw e (Follows-refl u v)
        | inr e ↦ rw e (
            Follows-inode_write u fv6.i_number
              (record fv6.i_node { i_addr = set fv6.i_node.i_addr index (u16 x) }) v m o)
      ]

  -- What the search of the data bitmap finds may be written.
  find_may :
      (u : FileSystem) (x : ℕ)
      → IsValidBoth u
      → MayGrow may own u
      → (bm_find_next u.fbm).0 ≡ ok x
      → may (x % 2 ^ 23)
  unfolding bm_find_next
  find_may u x v m h =
      let b = u.fbm in
      let s : Scanned b b.cursor b.length 0 (scan_words b b.cursor b.length 0) =
        scan_words-Scanned b b.cursor b.length 0 v.sectors in
      elim (Option-cases (scan_words b b.cursor b.length 0).0) [
        | inl e ↦ absurd (ground (arith, h, e))
        | inr (y, e) ↦
            let low : x % 2 ^ 23 ≡ y % 2 ^ 23 = ground (arith, h, e) in
            subst may (sym low) (m.free y (ground (arith, s.hit y e)))
      ]

  pub Follows-writesector :
      (junk : Buffer) (u : FileSystem) (fv6 : Filev6) (buf : Buffer) (len size : ℕ)
      → IsValidBoth u
      → MayGrow may own u
      → own fv6.i_number
      → Follows may u (filev6_writesector junk u fv6 buf len size).2
  unfolding filev6_writesector
  Follows-writesector junk u fv6 buf len size v m o =
      let u' : FileSystem = record u { fbm = (bm_find_next u.fbm).1 } in
      let a : Follows may u u' = searched u v in
      elim (Result-cases (bm_find_next u.fbm).0) [
        | inr (inl (n, e)) ↦ rw (e, filev6_writesector) a
        | inr (inr e) ↦ rw (e, filev6_writesector) a
        | inl (x, e) ↦
            let d = memcpy junk 0 len buf in
            let u'' : FileSystem = record u' { f = (sector_write u.f x d).1 } in
            let b : Follows may u u'' =
              Follows-trans a (Follows-sector_write u' x d a.valid (find_may u x v m e)) in
            elim (Bool-cases (ltb 512 len)) [
              | inl long ↦ rw (e, filev6_writesector) (rw (long, filev6_writesector) a)
              | inr short ↦ elim (Result-cases (sector_write u.f x d).0) [
                | inr (inl (n, e')) ↦
                    rw (e, filev6_writesector) (rw (short, e', filev6_writesector) b)
                | inr (inr e') ↦ rw (e, filev6_writesector) (rw (short, e', filev6_writesector) b)
                | inl (_, e') ↦
                    let node = (inode_setsize fv6.i_node (u32 (size + len))).1 in
                    elim (Result-cases (inode_setsize fv6.i_node (u32 (size + len))).0) [
                      | inr (inl (n, s)) ↦
                          rw (e, filev6_writesector) (rw (short, e', s, filev6_writesector) b)
                      | inr (inr s) ↦
                          rw (e, filev6_writesector) (rw (short, e', s, filev6_writesector) b)
                      | inl (_, s) ↦
                          rw (e, filev6_writesector)
                            (rw (short, e', s, filev6_writesector)
                              (Follows-trans b (
                                Follows-link_sector u'' (record fv6 { i_node = node }) x b.valid
                                  (MayGrow-Follows b m) o)))
                    ]
              ]
            ]
      ]

  pub Follows-residual :
      (u : FileSystem) (fv6 : Filev6) (buf : Buffer) (len sectors residual size : ℕ)
      → IsValidBoth u
      → MayGrow may own u
      → own fv6.i_number
      → ((y : ℕ) → inode_findsector u fv6.i_node (u32 (sectors - 1)) ≡ ok y → may (y % 2 ^ 23))
      → Follows may u (filev6_writesector_residual u fv6 buf len sectors residual size).2
  unfolding filev6_writesector_residual
  Follows-residual u fv6 buf len sectors residual size v m o last =
      elim (Result-cases (inode_findsector u fv6.i_node (u32 (sectors - 1)))) [
        | inr (inl (n, e)) ↦ rw (e, filev6_writesector_residual) (Follows-refl u v)
        | inr (inr e) ↦ rw (e, filev6_writesector_residual) (Follows-refl u v)
        | inl (y, e) ↦ elim (Result-cases (sector_read u.f y)) [
          | inr (inl (n, e')) ↦
              rw (e, filev6_writesector_residual)
                (rw (e', filev6_writesector_residual) (Follows-refl u v))
          | inr (inr e') ↦
              rw (e, filev6_writesector_residual)
                (rw (e', filev6_writesector_residual) (Follows-refl u v))
          | inl (b, e') ↦
              let d = memcpy b residual len buf in
              let u' : FileSystem = record u { f = (sector_write u.f y d).1 } in
              let a : Follows may u u' = Follows-sector_write u y d v (last y e) in
              let node = (inode_setsize fv6.i_node (u32 (size + len))).1 in
              elim (Result-cases (sector_write u.f y d).0) [
                | inr (inl (n, w)) ↦
                    rw (e, filev6_writesector_residual)
                      (rw (e', filev6_writesector_residual) (rw (w, filev6_writesector_residual) a))
                | inr (inr w) ↦
                    rw (e, filev6_writesector_residual)
                      (rw (e', filev6_writesector_residual) (rw (w, filev6_writesector_residual) a))
                | inl (_, w) ↦
                    rw (e, filev6_writesector_residual)
                      (rw (e', filev6_writesector_residual)
                        (rw (w, filev6_writesector_residual)
                          (Follows-trans a (
                            Follows-inode_write u' fv6.i_number node a.valid (MayGrow-Follows a m)
                              o))))
              ]
        ]
      ]
