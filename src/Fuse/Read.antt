-- ===== src/Fuse/Read.antt =====
-- done/u6fs_fuse.c: the loop of fs_read, and fs_read.
use file_system_public_copy.Prelude.{
  ℕ, zero, suc, ◌+◌, ◌-◌, ◌/◌, ◌%◌, ◌^◌, ◌≤◌, ◌<◌, ◌≡◌, ◌≢◌, ◌⊎◌, inl, inr, refl, ap, arith, List,
  [], ◌++◌, slice, slice_ext, slice-append, length, length-slice, get_or-slice, get_or, ok, ◌∙◌,
  min, dec_lt, ℕ_discrete, if◌then◌else◌, ltb, u16, u32,
}
use mathlib.Core.List.{append-nil}
use file_system_public_copy.Stdio.{Buffer, memcpy, memcpy_inside}
use file_system_public_copy.Layout.{Inode, inode_getsize, root_inumber}
use file_system_public_copy.FileSystem.{FileSystem}
use file_system_public_copy.Inode.{inode_read}
use file_system_public_copy.File.{Filev6, filev6_open, filev6_lseek, filev6_readblock}
use file_system_public_copy.File.Content.{IsFile, content, block_length, readblock_lem}
use file_system_public_copy.Directory.{direntv6_dirlookup}
use file_system_public_copy.Fuse.{read_loop, fs_read, read_rounds}

-- A run copied to the front of a buffer, and then read there.
copied_run :
    (sector g : Buffer) (i n m : ℕ)
    → m ≤ n
    → slice (memcpy sector 0 n (λ k. get_or (slice g i n) k 0)) 0 m ≡ slice g i m
copied_run sector g i n m h =
    slice_ext (memcpy sector 0 n (λ k. get_or (slice g i n) k 0)) g 0 i m λ k q.
      memcpy_inside sector (λ k. get_or (slice g i n) k 0) 0 n k (omega arith)
      ∙ get_or-slice g i n k 0 (omega arith)

-- How much of a block of `n` bytes is taken when `s` bytes are wanted.
abbrev taken : ℕ → ℕ → ℕ
taken s n = if ltb s n then s else n

-- What is taken of a block, and what is taken of the rest, is what is taken of both.
join_blocks :
    (g : Buffer) (offset s n rest : ℕ)
    → slice g offset (taken s n) ++ slice g (offset + n) (min (s - taken s n) rest)
      ≡ slice g offset (min s (n + rest))
join_blocks g offset s n rest = elim (dec_lt s n) [
  | yes p ↦
      let c : taken s n ≡ s = ground arith in
      let z : min (s - s) rest ≡ 0 = omega arith in
      let m : min s (n + rest) ≡ s = omega arith in rw (c, z, m, append-nil)
  | no p ↦
      let c : taken s n ≡ n = ground arith in
      let m : n + min (s - n) rest ≡ min s (n + rest) = omega arith in
      rw c (slice-append g offset (offset + n) n (min (s - n) rest) refl ∙ ap (slice g offset) m)
]

-- One round that reads `n` bytes, from what the later rounds deliver.
read_loop_round :
    (rounds : ℕ) (u : FileSystem) (f f' : Filev6) (sector : Buffer) (size done n : ℕ)
    (bytes more : List ℕ)
    → filev6_readblock u f ≡ (ok bytes, f')
    → length bytes ≡ n
    → n ≢ 0
    → read_loop rounds u f'
        (memcpy sector 0 n (λ k. get_or bytes k 0))
        0
        size
        (done + taken (size - done) n)
      ≡ ok more
    → read_loop (suc rounds) u f sector 0 size done ≡ (
        if ltb done size
        then ok
            (slice (memcpy sector 0 n (λ k. get_or bytes k 0)) 0 (taken (size - done) n) ++ more)
        else ok [])
unfolding read_loop
read_loop_round rounds u f f' sector size done n bytes more e len ne ih =
    ground (arith, e, len, ne, ih)

-- From the start of a block, with rounds enough, the loop delivers the rest of the request, or of
-- the file.
read_loop_lem :
    (rounds : ℕ) (u : FileSystem) (f : Filev6) (addr : ℕ → ℕ) (sector : Buffer) (size done : ℕ)
    → IsFile u f.i_node addr
    → f.offset ≤ inode_getsize f.i_node
    → (f.offset % 512 ≡ 0) ⊎ (f.offset ≡ inode_getsize f.i_node)
    → (inode_getsize f.i_node - f.offset + 511) / 512 + 1 ≤ rounds
    → done ≤ size
    → read_loop rounds u f sector 0 size done
      ≡ ok (slice (content u addr) f.offset (min (size - done) (inode_getsize f.i_node - f.offset)))
unfolding read_loop
read_loop_lem zero u f addr sector size done file inside aligned enough le = absurd (omega arith)
read_loop_lem (suc rounds) u f addr sector size done file inside aligned enough le =
    elim (ℕ_discrete f.offset (inode_getsize f.i_node)) [
      | yes e ↦ ground (
        arith,
        readblock_lem u f addr file inside aligned,
        length-slice (content u addr) f.offset n,
      )
      | no ne ↦
          read_loop_round rounds u f (record f { offset = f.offset + n }) sector size done n bytes
            (slice g (f.offset + n) (min (size - (done + c)) (fsize - (f.offset + n))))
            (readblock_lem u f addr file inside aligned) (length-slice g f.offset n) (omega arith)
            (read_loop_lem rounds u (record f { offset = f.offset + n }) addr
              (memcpy sector 0 n (λ k. get_or bytes k 0)) size (done + c) file (omega arith)
              (ground arith) (omega arith) (ground arith))
          ∙ delivered
    ]
  where
    fsize : ℕ
    fsize = inode_getsize f.i_node

    g : Buffer
    g = content u addr

    n : ℕ
    n = block_length f

    c : ℕ
    c = taken (size - done) n

    bytes : List ℕ
    bytes = slice g f.offset n

    copied : List ℕ
    copied = slice (memcpy sector 0 n (λ k. get_or bytes k 0)) 0 c

    joined :
        copied ++ slice g (f.offset + n) (min (size - (done + c)) (fsize - (f.offset + n)))
        ≡ slice g f.offset (min (size - done) (fsize - f.offset))
    joined =
        let c-le : c ≤ n = ground arith in
        let left : size - (done + c) ≡ size - done - c = omega arith in
        let rest : fsize - (f.offset + n) ≡ fsize - f.offset - n = omega arith in
        let whole : n + (fsize - f.offset - n) ≡ fsize - f.offset = omega arith in
        rw (copied_run sector g f.offset n c c-le, left, rest)
          (join_blocks g f.offset (size - done) n (fsize - f.offset - n)
            ∙ ap (λ t. slice g f.offset (min (size - done) t)) whole)

    delivered :
        (if ltb done size
          then ok
              (copied ++ slice g (f.offset + n) (min (size - (done + c)) (fsize - (f.offset + n))))
          else ok [])
        ≡ ok (slice g f.offset (min (size - done) (fsize - f.offset)))
    delivered = rw joined (elim (dec_lt done size) [
      | yes p ↦ ground arith
      | no p ↦ let z : min (size - done) (fsize - f.offset) ≡ 0 = omega arith in rw z (ground arith)
    ])

-- At the end of the file nothing is delivered.
read_loop_end :
    (rounds : ℕ) (u : FileSystem) (f : Filev6) (sector : Buffer) (at size done : ℕ)
    → f.offset ≡ inode_getsize f.i_node
    → read_loop (suc rounds) u f sector at size done ≡ ok []
unfolding read_loop filev6_readblock
read_loop_end rounds u f sector at size done e = ground arith

sub_zero : (n : ℕ) → n - 0 ≡ n
sub_zero n = omega arith

open-ok :
    (u : FileSystem) (n : ℕ) (i : Inode)
    → inode_read u n ≡ ok i
    → filev6_open u n ≡ ok (record { i_number = n; i_node = i; offset = 0 })
unfolding filev6_open
open-ok u n i e = rw e

-- A successful `filev6_lseek` at the start of a block, or at the end.
seek-ok :
    (f : Filev6) (offset : ℕ)
    → inode_getsize f.i_node < 2 ^ 24
    → offset ≤ inode_getsize f.i_node
    → (offset % 512 ≡ 0) ⊎ (offset ≡ inode_getsize f.i_node)
    → filev6_lseek f (u32 offset) ≡ (ok 0, record f { offset = offset })
unfolding filev6_lseek
seek-ok f offset small inside aligned =
    let e : u32 offset ≡ offset = omega arith in rw e (ground arith)

-- If a path leads to an inode that can be read, whose blocks are located in readable sectors and
-- whose size is below 2 ^ 24, and the offset is the start of a block, or the end, of the file and
-- is not past its end, then fs_read returns the bytes of the file from the offset on: as many as
-- are asked for, or as are left.
pub fs_read_lem :
    (sector : Buffer) (u : FileSystem) (path : List ℕ) (size offset n : ℕ) (i : Inode)
    (addr : ℕ → ℕ)
    → direntv6_dirlookup u root_inumber path ≡ ok n
    → inode_read u (u16 n) ≡ ok i
    → IsFile u i addr
    → inode_getsize i < 2 ^ 24
    → offset ≤ inode_getsize i
    → (offset % 512 ≡ 0) ⊎ (offset ≡ inode_getsize i)
    → fs_read sector u path size offset
      ≡ ok (slice (content u addr) offset (min size (inode_getsize i - offset)))
unfolding fs_read
fs_read_lem sector u path size offset n i addr found read file small inside aligned =
    ground (
      arith,
      found,
      open-ok u (u16 n) i read,
      seek-ok opened offset small inside aligned,
      delivered,
    )
  where
    opened : Filev6
    opened = record { i_number = u16 n; i_node = i; offset = 0 }

    f : Filev6
    f = record opened { offset = offset }

    delivered :
        read_loop (read_rounds opened) u f sector (offset % 512) size 0
        ≡ ok (slice (content u addr) offset (min size (inode_getsize i - offset)))
    delivered = elim aligned [
      | inl start ↦ rw start (
          read_loop_lem (read_rounds opened) u f addr sector size 0 file inside (inl start)
            (omega arith) (omega arith)
          ∙ ap (λ t. ok (slice (content u addr) offset (min t (inode_getsize i - offset))))
              (sub_zero size))
      | inr end ↦
          let z : min size (inode_getsize i - offset) ≡ 0 = omega arith in
          let s : read_rounds opened ≡ suc (inode_getsize i / 512 + 1) = omega arith in
          rw (z, s) (read_loop_end (inode_getsize i / 512 + 1) u f sector (offset % 512) size 0 end)
    ]
