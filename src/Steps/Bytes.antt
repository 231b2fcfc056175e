-- ===== src/Steps/Bytes.antt =====
-- done/filev6.c: what filev6_writebytes keeps, whatever it returns.
use file_system_public_copy.Prelude.{
  ℕ, zero, suc, ◌+◌, ◌-◌, ◌/◌, ◌%◌, ◌^◌, ◌<◌, ◌≡◌, sym, ap, arith, ok, ◌∙◌, inl, inr, Bool-cases,
  Result-cases, ltb, u32, subst, ◌==◌, if◌then◌else◌,
}
use file_system_public_copy.Stdio.{Buffer}
use file_system_public_copy.Layout.{inode_getsize}
use file_system_public_copy.Sector.{sector_size}
use file_system_public_copy.FileSystem.{FileSystem}
use file_system_public_copy.Inode.{inode_findsector, medium_filesys_size}
use file_system_public_copy.Mount.Fill.{IsValidBoth}
use file_system_public_copy.File.{
  Filev6, filev6_writesector, filev6_writesector_residual, write_loop, int_len, filev6_writebytes,
}
use file_system_public_copy.Steps.Writes.{
  Follows-writesector, Follows-residual, number-writesector, number-residual,
}
use file_system_public_copy.Steps.Follows.{
  Follows, MayGrow, Follows-refl, Follows-trans, MayGrow-Follows,
}

module _ {may own : ℕ → Type 0} where
  Follows-write_loop :
      (rounds : ℕ) (junk : Buffer) (u : FileSystem) (fv6 : Filev6) (buf : Buffer)
      (size written total : ℕ)
      → IsValidBoth u
      → MayGrow may own u
      → own fv6.i_number
      → Follows may u (write_loop rounds junk u fv6 buf size written total).2
  unfolding write_loop
  Follows-write_loop zero junk u fv6 buf size written total v m o = Follows-refl u v
  Follows-write_loop (suc rounds) junk u fv6 buf size written total v m o =
      let len = if ltb sector_size total then sector_size else total in
      let out = filev6_writesector junk u fv6 (λ k. buf (written + k)) len (size + written) in
      let a : Follows may u out.2 =
        Follows-writesector junk u fv6 (λ k. buf (written + k)) len (size + written) v m o in
      elim (Bool-cases (total == 0)) [
        | inl e ↦ rw e (Follows-refl u v)
        | inr e ↦ elim (Result-cases out.0) [
          | inl (_, e') ↦
              rw (e, e')
                (Follows-trans a (
                  Follows-write_loop rounds junk out.2 out.1 buf size (written + len) (total - len)
                    a.valid (MayGrow-Follows a m)
                    (subst own
                      (sym (
                        number-writesector junk u fv6 (λ k. buf (written + k)) len
                          (size + written)))
                      o)))
          | inr (inl (n, e')) ↦ rw (e, e') a
          | inr (inr e') ↦ rw (e, e') a
        ]
      ]

  pub Follows-writebytes :
      (junk : Buffer) (u : FileSystem) (fv6 : Filev6) (buf : Buffer) (len : ℕ)
      → IsValidBoth u
      → MayGrow may own u
      → own fv6.i_number
      → (0 < inode_getsize fv6.i_node % 512
          → (y : ℕ) → inode_findsector u fv6.i_node (u32 (inode_getsize fv6.i_node / 512)) ≡ ok y
          → may (y % 2 ^ 23))
      → Follows may u (filev6_writebytes junk u fv6 buf len).2
  unfolding filev6_writebytes
  Follows-writebytes junk u fv6 buf len v m o last =
      let size = inode_getsize fv6.i_node in
      let sectors = size / sector_size + 1 in
      let residual = size % sector_size in
      let small = if ltb len (sector_size - residual) then len else sector_size - residual in
      let total = int_len len in
      let first = filev6_writesector_residual u fv6 buf small sectors residual size in
      elim (Bool-cases (ltb medium_filesys_size sectors)) [
        | inl e ↦ rw e (Follows-refl u v)
        | inr e ↦ elim (Bool-cases (residual == 0)) [
          | inl r ↦
              rw (e, r)
                (Follows-write_loop (total / sector_size + 1) junk u fv6 buf size 0 total v m o)
          | inr r ↦
              let at : sectors - 1 ≡ size / 512 = omega arith in
              let a : Follows may u first.2 =
                Follows-residual u fv6 buf small sectors residual size v m o (λ y h.
                  last (ground (arith, r)) y
                    (ap (λ k. inode_findsector u fv6.i_node (u32 k)) (sym at) ∙ h)) in
              let b : Follows may u
                  (write_loop (total / sector_size + 1) junk first.2 first.1 buf size small
                    (total - small)).2 =
                Follows-trans a (
                  Follows-write_loop (total / sector_size + 1) junk first.2 first.1 buf size small
                    (total - small) a.valid (MayGrow-Follows a m)
                    (subst own (sym (number-residual u fv6 buf small sectors residual size)) o)) in
              elim (Result-cases first.0) [
                | inl (n, f) ↦ rw (e, r, f) b
                | inr (inl (n, f)) ↦ rw (e, r, f) b
                | inr (inr f) ↦ rw (e, r, f) a
              ]
        ]
      ]
