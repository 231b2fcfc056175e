-- ===== src/File/Bytes.antt =====
-- done/filev6.c: filev6_writebytes of bytes that fit in the last block.
use file_system_public_copy.Prelude.{
  ℕ, zero, suc, ◌+◌, ◌-◌, ◌*◌, ◌/◌, ◌%◌, ◌≤◌, ◌<◌, ◌≡◌, refl, sym, ap, arith, ok, ◌∙◌, subst,
  ℕ_discrete,
}
use file_system_public_copy.Stdio.{Buffer}
use file_system_public_copy.Sector.{sector_size}
use file_system_public_copy.Layout.{inode_getsize}
use file_system_public_copy.Bitmap.{bm_find_next}
use file_system_public_copy.FileSystem.{FileSystem}
use file_system_public_copy.File.{
  Filev6, Written, filev6_writesector, filev6_writesector_residual, filev6_writebytes, write_loop,
  int_len,
}
use file_system_public_copy.File.Sound.{IsSound, IsGrown}
use file_system_public_copy.File.Residual.{residual_lem}
use file_system_public_copy.File.Fresh.{fresh_lem}

-- The loop with one round to go, and with none.
one_round :
    (junk : Buffer) (u : FileSystem) (fv6 : Filev6) (buf : Buffer) (size len : ℕ) (out : Written)
    → 0 < len
    → len < 512
    → filev6_writesector junk u fv6 (λ k. buf (0 + k)) len (size + 0) ≡ out
    → out.0 ≡ ok 0
    → write_loop (len / 512 + 1) junk u fv6 buf size 0 len ≡ (ok 0, out.1, out.2)
unfolding write_loop
one_round junk u fv6 buf size len out some' short run status =
    let e : len / 512 + 1 ≡ suc zero = omega (arith, short) in
    rw e (ground (arith, run, status, some', short))

no_round :
    (rounds : ℕ) (junk : Buffer) (u : FileSystem) (fv6 : Filev6) (buf : Buffer)
    (size written total : ℕ)
    → total ≡ 0
    → write_loop rounds junk u fv6 buf size written total ≡ (ok 0, fv6, u)
unfolding write_loop
no_round zero junk u fv6 buf size written total z = refl
no_round (suc rounds) junk u fv6 buf size written total z = ground (arith, z)

-- The whole function, from what its first write does.
bytes_whole :
    (junk : Buffer) (u : FileSystem) (fv6 : Filev6) (buf : Buffer) (len : ℕ) (out : Written)
    → inode_getsize fv6.i_node < 8 * 512
    → inode_getsize fv6.i_node % 512 ≡ 0
    → int_len len ≡ len
    → write_loop (len / 512 + 1) junk u fv6 buf (inode_getsize fv6.i_node) 0 len ≡ out
    → filev6_writebytes junk u fv6 buf len ≡ out
unfolding filev6_writebytes
bytes_whole junk u fv6 buf len out small whole total run =
    rw (total, whole, run, filev6_writebytes) (ground (arith, small))

bytes_residual :
    (junk : Buffer) (u : FileSystem) (fv6 : Filev6) (buf : Buffer) (len : ℕ) (out : Written)
    → inode_getsize fv6.i_node < 8 * 512
    → 0 < inode_getsize fv6.i_node % 512
    → inode_getsize fv6.i_node % 512 + len ≤ 512
    → int_len len ≡ len
    → filev6_writesector_residual u fv6 buf len
        (inode_getsize fv6.i_node / sector_size + 1)
        (inode_getsize fv6.i_node % sector_size)
        (inode_getsize fv6.i_node)
      ≡ out
    → out.0 ≡ ok 0
    → filev6_writebytes junk u fv6 buf len ≡ (ok 0, out.1, out.2)
unfolding filev6_writebytes
bytes_residual junk u fv6 buf len out small some' fits total run status = ground (
  arith,
  small,
  fits,
  some',
  total,
  run,
  status,
  no_round (len / 512 + 1) junk out.2 out.1 buf (inode_getsize fv6.i_node) len (len - len),
)

-- A file that has grown, with the status that the loop returns.
with_status :
    {u : FileSystem} {fv6 : Filev6} {buf buf' : Buffer} {len : ℕ} {out : Written}
    → ((k : ℕ) → buf k ≡ buf' k)
    → IsGrown u fv6 buf len out
    → IsGrown u fv6 buf' len (ok 0, out.1, out.2)
with_status same g = record {
  status = refl;
  size = g.size;
  mode = g.mode;
  stored = g.stored;
  others = g.others;
  file = g.file;
  old = g.old;
  new = λ k h. g.new k h ∙ same k;
  super = g.super;
  readable = g.readable;
  sectors = g.sectors;
  partial = g.partial;
  fresh = g.fresh;
}

module _ (junk : Buffer) (u : FileSystem) (fv6 : Filev6) (buf : Buffer) (len : ℕ)
    (s : IsSound u fv6) (some' : 0 < len) (short : len < 512)
    (small : inode_getsize fv6.i_node + len < 8 * 512) where
  abbrev size : ℕ
  size = inode_getsize fv6.i_node

  total_lem : int_len len ≡ len
  total_lem = ground (arith, short)

  whole_run :
      (x : ℕ)
      → size % 512 ≡ 0
      → (bm_find_next u.fbm).0 ≡ ok x
      → IsGrown u fv6 buf len (filev6_writebytes junk u fv6 buf len)
  whole_run x whole found =
      let buf' : Buffer = λ k. buf (0 + k) in
      let g = fresh_lem junk u fv6 buf' len x s whole some' short small found in
      let at : size + 0 ≡ size = omega arith in
      let run =
        one_round junk u fv6 buf size len (filev6_writesector junk u fv6 buf' len size) some' short
          (ap (λ t. filev6_writesector junk u fv6 buf' len t) at) g.status in
      subst (IsGrown u fv6 buf len)
        (sym (bytes_whole junk u fv6 buf len _ (omega (arith, small)) whole total_lem run))
        (with_status (λ k. ap buf (omega arith)) g)

  residual_run :
      0 < size % 512
      → size % 512 + len ≤ 512
      → IsGrown u fv6 buf len (filev6_writebytes junk u fv6 buf len)
  residual_run some_left fits =
      let g = residual_lem u fv6 buf len s some_left fits small in
      subst (IsGrown u fv6 buf len)
        (sym (
          bytes_residual junk u fv6 buf len _ (omega (arith, small)) some_left fits total_lem refl
            g.status))
        (with_status (λ k. refl) g)

-- If an open file is sound (it can be written to, is small, is stored, and its blocks are
-- different data sectors in use), between 1 and 511 bytes are given that fit in what is left of
-- its last block or, if it has whole blocks only, in a new one for which the search of the data
-- bitmap gives a sector, and the size stays below 4096, then filev6_writebytes returns ERR_NONE;
-- the size grows by their number and the mode stays; the stored inode is that of the open file
-- and all other inodes stay; the file holds its old bytes and then the new ones; the superblock,
-- the readable sectors and the bytes of all other sectors in use stay; bytes in a last block
-- leave the data bitmap and the addresses, and a new block is the sector that the search gives.
pub writebytes_lem :
    (junk : Buffer) (u : FileSystem) (fv6 : Filev6) (buf : Buffer) (len : ℕ)
    → IsSound u fv6
    → 0 < len
    → len < 512
    → inode_getsize fv6.i_node + len < 8 * 512
    → inode_getsize fv6.i_node % 512 + len ≤ 512
    → (inode_getsize fv6.i_node % 512 ≡ 0 → (x : ℕ) × ((bm_find_next u.fbm).0 ≡ ok x))
    → IsGrown u fv6 buf len (filev6_writebytes junk u fv6 buf len)
writebytes_lem junk u fv6 buf len s some' short small fits free =
    elim (ℕ_discrete (inode_getsize fv6.i_node % 512) 0) [
      | yes whole ↦
          let found = free whole in
          whole_run junk u fv6 buf len s some' short small found.0 whole found.1
      | no partial ↦
          residual_run junk u fv6 buf len s some' short small (omega (arith, partial)) fits
    ]
