-- ===== src/Sector.antt =====
-- done/sector.c: transfers of one sector. The null checks on `f` and `data` have no counterpart:
-- a file and a buffer are values.
pub mod Laws
use file_system_public_copy.Prelude.{
  ℕ, ◌+◌, ◌*◌, Bool, ◌&&◌, if◌then◌else◌, ◌==◌, u32, Result, ok, err,
}
use file_system_public_copy.Errors.{io}
use file_system_public_copy.Stdio.{Buffer, File, fread_count, fwrite}

abbrev pub sector_size : ℕ
sector_size = 512

-- `sector*SECTOR_SIZE` is computed in `uint32_t`.
abbrev pub sector_offset : ℕ → ℕ
sector_offset sector = u32 (sector * sector_size)

unfoldable pub sector_read : File → ℕ → Result Buffer
unfolding fread_count
sector_read f sector =
    let offset = sector_offset sector in
    if f.seekable && fread_count f offset sector_size == sector_size
    then ok (λ k. f.byte (offset + k))
    else err io

-- The status (`ok 0` is ERR_NONE), and the file: what `fwrite` returns is not looked at.
unfoldable pub sector_write : File → ℕ → Buffer → Result ℕ × File
unfolding fwrite
sector_write f sector data' =
    if f.seekable then (ok 0, fwrite f (sector_offset sector) sector_size data') else (err io, f)
