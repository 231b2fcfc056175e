-- ===== src/FileSystem.antt =====
-- done/mount.h: `struct unix_filesystem`, mounted: the stream and both bitmaps are there.
use file_system_public_copy.Stdio.{File}
use file_system_public_copy.Layout.{Superblock}
use file_system_public_copy.Bitmap.{Bitmap}

pub record FileSystem : Type 0 where
  pub f : File
  pub s : Superblock
  pub fbm : Bitmap
  pub ibm : Bitmap
