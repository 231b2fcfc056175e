-- ===== src/Utils/Hash.antt =====
-- done/u6fs_utils.c: the loop of utils_print_shafile, and utils_print_shafile.
use file_system_public_copy.Prelude.{
  ℕ, zero, suc, ◌+◌, ◌-◌, ◌*◌, ◌≤◌, ◌<◌, ◌≡◌, inl, inr, sym, ap, arith, true, false, if◌then◌else◌,
  ltb, ◌==◌, some, List, length, length-slice, get_or, get_or-slice, slice, Result, ok, ◌∙◌, min,
  dec_lt, ℕ_discrete,
}
use file_system_public_copy.Stdio.{Buffer, memcpy, memcpy_inside, memcpy_outside}
use file_system_public_copy.Layout.{Inode, ifdir, has_flag, inode_getsize}
use file_system_public_copy.FileSystem.{FileSystem}
use file_system_public_copy.Inode.{inode_read}
use file_system_public_copy.File.{Filev6, filev6_open, filev6_readblock}
use file_system_public_copy.File.Content.{IsFile, content, block_length, readblock_lem}
use file_system_public_copy.Utils.{hash_loop, utils_print_shafile}

-- One round that reads `n` bytes.
hash_round :
    (rounds : ℕ) (u : FileSystem) (f f' : Filev6) (buffer : Buffer) (at n : ℕ) (bytes : List ℕ)
    → filev6_readblock u f ≡ (ok bytes, f')
    → length bytes ≡ n
    → hash_loop (suc rounds) u f buffer at ≡ (
        let buffer' = memcpy buffer at n (λ k. get_or bytes k 0) in
        if n == 0
        then ok buffer'
        else if ltb (at + 512) 8192
        then hash_loop rounds u f' buffer' (at + 512)
        else ok buffer')
unfolding hash_loop
hash_round rounds u f f' buffer at n bytes e len =
    let block : (filev6_readblock u f).0 ≡ ok bytes =
      ap (λ (t : Result (List ℕ) × Filev6). t.0) e in
    let file : (filev6_readblock u f).1 ≡ f' = ap (λ (t : Result (List ℕ) × Filev6). t.1) e in
    rw (block, file, len, hash_loop)

-- From the start of block `offset / 512`, the buffer holding the file up to there, the loop ends with
-- a buffer that holds the start of the file.
pub hash_loop_lem :
    (rounds : ℕ) (u : FileSystem) (f : Filev6) (addr : ℕ → ℕ) (buffer : Buffer) (at : ℕ)
    → IsFile u f.i_node addr
    → at ≡ (16 - rounds) * 512
    → 1 ≤ rounds
    → rounds ≤ 16
    → f.offset ≡ min at (inode_getsize f.i_node)
    → ((k : ℕ) → k < f.offset → buffer k ≡ content u addr k)
    → (b : Buffer) × (hash_loop rounds u f buffer at ≡ ok b)
      × ((k : ℕ) → k < min 8192 (inode_getsize f.i_node) → b k ≡ content u addr k)
hash_loop_lem zero u f addr buffer at file place some_left few start done =
    absurd (omega (arith, some_left))
hash_loop_lem (suc rounds) u f addr buffer at file place some_left few start done =
    elim (ℕ_discrete f.offset (inode_getsize f.i_node)) [
      | yes e ↦
          let z : (n == 0) ≡ true = ground (arith, e) in
          (buffer', round ∙ ground (arith, z), λ k h. bytes k (omega (arith, h, e)))
      | no ne ↦
          let nz : (n == 0) ≡ false = ground (arith, ne, start) in
          elim (dec_lt (at + 512) 8192) [
            | yes more ↦
                let next : ltb (at + 512) 8192 ≡ true = ground (arith, more) in
                let (b, e, same) =
                  hash_loop_lem rounds u f' addr buffer' (at + 512) file
                    (omega (arith, place, more, few)) (omega (arith, place, more, few))
                    (omega (arith, few)) (omega (arith, start, ne)) bytes in
                (b, round ∙ ground (arith, nz, next, e), same)
            | no last ↦
                let stop : ltb (at + 512) 8192 ≡ false = ground (arith, last) in
                (
                  buffer',
                  round ∙ ground (arith, nz, stop),
                  λ k h. bytes k (omega (arith, h, last, start, ne)),
                )
          ]
    ]
  where
    n : ℕ
    n = block_length f

    f' : Filev6
    f' = record f { offset = f.offset + n }

    buffer' : Buffer
    buffer' = memcpy buffer at n (λ k. get_or (slice (content u addr) f.offset n) k 0)

    read : filev6_readblock u f ≡ (ok (slice (content u addr) f.offset n), f')
    read =
        readblock_lem u f addr file (omega (arith, start))
          (elim (dec_lt at (inode_getsize f.i_node)) [
            | yes h ↦ inl (omega (arith, start, place, h))
            | no h ↦ inr (omega (arith, start, h))
          ])

    round : hash_loop (suc rounds) u f buffer at ≡ (
        if n == 0
        then ok buffer'
        else if ltb (at + 512) 8192
        then hash_loop rounds u f' buffer' (at + 512)
        else ok buffer')
    round =
        hash_round rounds u f f' buffer at n (slice (content u addr) f.offset n) read
          (length-slice (content u addr) f.offset n)

    -- The buffer holds the file up to the new offset.
    bytes : (k : ℕ) → k < f.offset + n → buffer' k ≡ content u addr k
    bytes k h = elim (dec_lt k f.offset) [
      | yes old ↦
          memcpy_outside buffer (λ j. get_or (slice (content u addr) f.offset n) j 0) at n k
            (inl (omega (arith, old, start)))
          ∙ done k old
      | no new ↦
          let e : at + (k - at) ≡ k = omega (arith, new, start, h) in
          let e' : f.offset + (k - at) ≡ k = omega (arith, new, start, h) in
          ap buffer' (sym e)
          ∙ memcpy_inside buffer (λ j. get_or (slice (content u addr) f.offset n) j 0) at n (k - at)
              (omega (arith, new, start, h))
          ∙ get_or-slice (content u addr) f.offset n (k - at) 0 (omega (arith, new, start, h))
          ∙ ap (content u addr) e'
    ]

-- If the hash depends only on the bytes that it is told to hash, and an inode can be read, is no
-- directory and has its blocks located in readable sectors, then utils_print_shafile ends and
-- prints the hash of the first 8192 bytes of the file, or of all of it if it is shorter.
pub utils_print_shafile_lem :
    (sha256 : Buffer → ℕ → List ℕ) (junk : Buffer) (u : FileSystem) (n : ℕ) (i : Inode)
    (addr : ℕ → ℕ)
    → ((b c : Buffer) (len : ℕ) → ((k : ℕ) → k < len → b k ≡ c k) → sha256 b len ≡ sha256 c len)
    → inode_read u n ≡ ok i
    → has_flag i.i_mode ifdir ≡ false
    → IsFile u i addr
    → utils_print_shafile sha256 junk u n
      ≡ ok (some (sha256 (content u addr) (min 8192 (inode_getsize i))))
unfolding utils_print_shafile filev6_open
utils_print_shafile_lem sha256 junk u n i addr digest read plain file =
    let f : Filev6 = record { i_number = n; i_node = i; offset = 0 } in
    let (b, e, same) =
      hash_loop_lem 16 u f addr junk 0 file (omega arith) (omega arith) (omega arith) (omega arith)
        (λ k h. absurd (omega (arith, h))) in
    let size : (if ltb (inode_getsize i) (16 * 512) then inode_getsize i else 16 * 512)
        ≡ min 8192 (inode_getsize i) =
      ground arith in
    let opened : filev6_open u n ≡ ok f = rw (read, filev6_open) in
    let run : utils_print_shafile sha256 junk u n
        ≡ ok (some (sha256 b (min 8192 (inode_getsize i)))) =
      rw (opened, plain, e, size, utils_print_shafile) in
    run ∙ (ap (λ t. ok (some t)) (digest b (content u addr) (min 8192 (inode_getsize i)) same))
