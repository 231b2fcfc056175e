-- ===== src/Steps/Low.antt =====
-- done/filev6.c: a write to a sound file and the sectors before the inode table.
use file_system_public_copy.Prelude.{ℕ, ◌*◌, ◌/◌, ◌<◌, ◌≡◌, arith, sym, ◌∙◌}
use file_system_public_copy.Stdio.{Buffer}
use file_system_public_copy.Layout.{inode_getsize}
use file_system_public_copy.Sector.Laws.{IsReadable}
use file_system_public_copy.Bitmap.Bits.{IsValid, bm_get-bad}
use file_system_public_copy.FileSystem.{FileSystem}
use file_system_public_copy.Inode.Store.{target_sector_lem}
use file_system_public_copy.Mount.Fill.{IsValidBoth}
use file_system_public_copy.File.{Filev6, filev6_writebytes}
use file_system_public_copy.File.Content.{IsSmallFile-IsFile}
use file_system_public_copy.File.Sectors.{SameSector}
use file_system_public_copy.File.Sound.{IsSound, IsSound-IsSmallFile, address}
use file_system_public_copy.Steps.Follows.{Anything, MayGrow-Anything}
use file_system_public_copy.Steps.Bytes.{Follows-writebytes}
use file_system_public_copy.Steps.Safe.{writebytes_safe}

module _ (junk : Buffer) (u : FileSystem) (fv6 : Filev6) (buf : Buffer) (len : ℕ)
    (s : IsSound u fv6) (ibm : IsValid u.ibm) where
  both : IsValidBoth u
  both = record { sectors = s.ready.fbm_valid; inodes = ibm }

  -- They keep their bytes, as the boot sector and the superblock do.
  pub writebytes_low :
      (y : ℕ)
      → IsReadable u.f y
      → y < u.s.s_inode_start
      → SameSector u.f (filev6_writebytes junk u fv6 buf len).2.f y
  writebytes_low y r low =
      let place = (target_sector_lem u fv6.i_number s.ready.table).0 in
      let start = s.ready.table.start_small in
      writebytes_safe junk u fv6 buf len y both s.ready.node (omega (arith, s.ready.fbm_small))
        (omega (arith, place, start, s.ready.table.in_table, s.ready.table.size_small)) r
        (λ e. omega (arith, e, place, low))
        (λ e.
          ground (arith, e, bm_get-bad u.fbm y (λ q. omega (arith, q.above, low, s.ready.apart))))
        (λ part e.
          let k : ℕ = inode_getsize fv6.i_node / 512 in
          let inside : k * 512 < inode_getsize fv6.i_node = omega (arith, part) in
          let found = (IsSmallFile-IsFile u fv6.i_node (IsSound-IsSmallFile s)).located k inside in
          let same : y ≡ address fv6.i_node k = ground (arith, sym e ∙ found) in
          omega (arith, same, (s.blocks k inside).above, low, s.ready.apart))

  pub writebytes-IsValid : IsValid (filev6_writebytes junk u fv6 buf len).2.ibm
  writebytes-IsValid =
      (Follows-writebytes {may = Anything} junk u fv6 buf len both (MayGrow-Anything u) tt
        (λ p y h. tt)).valid.inodes
