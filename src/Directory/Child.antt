-- ===== src/Directory/Child.antt =====
-- done/direntv6.c: a new file, after its entry was written.
use file_system_public_copy.Prelude.{ℕ, ◌*◌, ◌^◌, ◌<◌, ◌≡◌, refl, ap, arith, ok}
use file_system_public_copy.Stdio.{Buffer}
use file_system_public_copy.Layout.{Inode, zero_inode, inode_getsize}
use file_system_public_copy.Layout.Laws.{has_flag-bit_or}
use file_system_public_copy.Bitmap.{Bitmap}
use file_system_public_copy.Bitmap.Find.{Moved}
use file_system_public_copy.Bitmap.Bits.{IsValid}
use file_system_public_copy.FileSystem.{FileSystem}
use file_system_public_copy.Inode.{inode_read}
use file_system_public_copy.Inode.Store.{InTable}
use file_system_public_copy.File.{Filev6, Written}
use file_system_public_copy.File.Create.{created_node, created-IsInode}
use file_system_public_copy.File.Sound.{IsSound, IsGrown}
use file_system_public_copy.File.Kept.{IsKept}
use file_system_public_copy.Directory.Created.{opened, zero-IsInode}

-- A new file is empty.
pub zero-size : (mode : ℕ) → inode_getsize (created_node mode zero_inode) ≡ 0
unfolding inode_getsize
zero-size mode = refl

-- A write keeps the places of the inodes.
pub InTable-IsGrown :
    {u : FileSystem} {fv6 : Filev6} {buf : Buffer} {len : ℕ} {o : Written}
    → IsGrown u fv6 buf len o
    → (m : ℕ) → InTable u m
    → InTable o.2 m
InTable-IsGrown g m t = record {
  start_small = rw g.super t.start_small;
  size_small = rw g.super t.size_small;
  used = t.used;
  in_table = rw g.super t.in_table;
  readable = rw g.super (g.readable _ t.readable);
}

pub none_of : {A : Type 0} (mode k : ℕ) → k * 512 < inode_getsize (created_node mode zero_inode) → A
none_of mode k h = absurd (omega (arith, h, zero-size mode))

module _ (u u1 : FileSystem) (mode p n : ℕ) (i : Inode) (buf : Buffer) (o : Written)
    (kept : IsKept u u1 (opened p i)) (table : InTable u1 n)
    (read : inode_read o.2 n ≡ ok (created_node mode zero_inode))
    (grown : IsGrown u1 (opened p i) buf 16 o) (mode_small : mode < 2 ^ 16)
    (valid : IsValid o.2.fbm) (moved : Moved u1.fbm o.2.fbm) where
  -- The search for a sector may have moved the cursor; the range is the same.
  range : (o.2.fbm.min ≡ u1.fbm.min) × (o.2.fbm.max ≡ u1.fbm.max)
  range = (ap (λ (b : Bitmap). b.min) moved, ap (λ (b : Bitmap). b.max) moved)

  -- The new file can be written to.
  pub child-IsSound : IsSound o.2 (opened n (created_node mode zero_inode))
  child-IsSound =
      let r = kept.sound.ready in
      record {
        ready = record {
          fbm_valid = valid;
          fbm_small = omega (arith, range, r.fbm_small);
          sectors = λ x h. grown.readable x (
              r.sectors x (record {
                above = omega (arith, range, h.above);
                below = omega (arith, range, h.below);
              }));
          table = InTable-IsGrown grown n table;
          apart = rw (grown.super, range.0) r.apart;
          node = created-IsInode mode zero_inode mode_small zero-IsInode;
          allocated = has_flag-bit_or mode 15;
        };
        small = omega (arith, zero-size mode);
        stored = read;
        blocks = λ k h. none_of mode k h;
        used = λ k h. none_of mode k h;
        distinct = λ j k h h' e. none_of mode j h;
      }
