-- ===== src/Layout/Laws.antt =====
-- done/unixv6fs.h: an inode and its bytes, and the mode's flags.
use file_system_public_copy.Prelude.{
  ℕ, ◌+◌, ◌*◌, ◌/◌, ◌%◌, ◌^◌, ◌≤◌, ◌<◌, ◌≡◌, refl, ap, arith, true, List, [], ◌∷◌, length, get_or,
  slice, bit_and, bit_or, ◌∙◌, slice-get_or, slice_ext,
}
use file_system_public_copy.Prelude.Bits.{
  digit-bit_and, digit-bit_or, digit_pow_self, digit-ne_zero, bit_or_disjoint, digit-le,
}
use file_system_public_copy.Stdio.{Buffer}
use file_system_public_copy.Layout.{
  Inode, get_or_zero, has_flag, u16_at, decode_inode, encode_inode, inode_getsize,
}

-- Every field fits its C type.
pub record IsInode (i : Inode) : Type 0 where
  pub mode : i.i_mode < 2 ^ 16
  pub nlink : i.i_nlink < 2 ^ 8
  pub uid : i.i_uid < 2 ^ 8
  pub gid : i.i_gid < 2 ^ 8
  pub size0 : i.i_size0 < 2 ^ 8
  pub size1 : i.i_size1 < 2 ^ 16
  pub addr_length : length i.i_addr ≡ 8
  pub addr : (k : ℕ) → get_or i.i_addr k 0 < 2 ^ 16
  pub atime0 : i.i_atime.0 < 2 ^ 16
  pub atime1 : i.i_atime.1 < 2 ^ 16
  pub mtime0 : i.i_mtime.0 < 2 ^ 16
  pub mtime1 : i.i_mtime.1 < 2 ^ 16

u16_of_bytes :
    (b : Buffer) (q n : ℕ) → b q ≡ n % 256 → b (q + 1) ≡ n / 256 % 256 → n < 2 ^ 16 → u16_at b q ≡ n
u16_of_bytes b q n lo hi fits = omega arith

-- For an inode whose fields fit their types: a buffer whose 32 bytes from a place on are those of
-- the inode is decoded there to the inode.
pub decode-encode :
    (i : Inode) (b : Buffer) (p : ℕ)
    → IsInode i
    → ((k : ℕ) → k < 32 → b (p + k) ≡ encode_inode i k)
    → decode_inode b p ≡ i
unfolding decode_inode encode_inode
decode-encode i b p v h = λ j. record {
  i_mode = word 0 p i.i_mode (omega arith) (omega arith) refl refl v.mode j;
  i_nlink = h 2 (omega arith) j;
  i_uid = h 3 (omega arith) j;
  i_gid = h 4 (omega arith) j;
  i_size0 = h 5 (omega arith) j;
  i_size1 = word 6 (p + 6) i.i_size1 (omega arith) (omega arith) refl refl v.size1 j;
  i_addr =
      (addresses
          ∙ slice-get_or (get_or_zero i.i_addr) 0 0 8 i.i_addr v.addr_length
              (λ k. ap (get_or_zero i.i_addr) (omega arith)))
        j;
  i_atime = (
    word 24 (p + 24) i.i_atime.0 (omega arith) (omega arith) refl refl v.atime0 j,
    word 26 (p + 26) i.i_atime.1 (omega arith) (omega arith) refl refl v.atime1 j,
  );
  i_mtime = (
    word 28 (p + 28) i.i_mtime.0 (omega arith) (omega arith) refl refl v.mtime0 j,
    word 30 (p + 30) i.i_mtime.1 (omega arith) (omega arith) refl refl v.mtime1 j,
  );
}
  where
    word :
        (k q n : ℕ)
        → k < 31
        → q ≡ p + k
        → encode_inode i k ≡ n % 256
        → encode_inode i (k + 1) ≡ n / 256 % 256
        → n < 2 ^ 16
        → u16_at b q ≡ n
    word k q n hk e lo hi fits =
        u16_of_bytes b q n (rw e (h k (omega arith)) ∙ lo)
          (ap b (omega arith) ∙ h (k + 1) (omega arith) ∙ hi) fits

    entry :
        (m k q : ℕ)
        → k < 31
        → q ≡ p + k
        → encode_inode i k ≡ get_or_zero i.i_addr m % 256
        → encode_inode i (k + 1) ≡ get_or_zero i.i_addr m / 256 % 256
        → u16_at b q ≡ get_or_zero i.i_addr m
    entry m k q hk e lo hi = word k q (get_or_zero i.i_addr m) hk e lo hi (v.addr m)

    addresses : (decode_inode b p).i_addr ≡ slice (get_or_zero i.i_addr) 0 8
    addresses = λ j.
        entry 0 8 (p + 8 + 0) (omega arith) (omega arith) refl refl j
        ∷ entry 1 10 (p + 8 + 2) (omega arith) (omega arith) refl refl j
        ∷ entry 2 12 (p + 8 + 4) (omega arith) (omega arith) refl refl j
        ∷ entry 3 14 (p + 8 + 6) (omega arith) (omega arith) refl refl j
        ∷ entry 4 16 (p + 8 + 8) (omega arith) (omega arith) refl refl j
        ∷ entry 5 18 (p + 8 + 10) (omega arith) (omega arith) refl refl j
        ∷ entry 6 20 (p + 8 + 12) (omega arith) (omega arith) refl refl j
        ∷ entry 7 22 (p + 8 + 14) (omega arith) (omega arith) refl refl j
        ∷ []

-- A size is its two fields side by side.
pub getsize_sum :
    (i : Inode) → i.i_size1 < 2 ^ 16 → inode_getsize i ≡ i.i_size0 * 2 ^ 16 + i.i_size1
unfolding inode_getsize
getsize_sum i h = bit_or_disjoint 16 i.i_size0 i.i_size1 h

-- Or-ing a flag of one bit in sets the flag.
pub has_flag-bit_or : (mode k : ℕ) → has_flag (bit_or mode (2 ^ k)) (2 ^ k) ≡ true
unfolding has_flag
has_flag-bit_or mode k = ground (
  arith,
  digit-ne_zero (bit_and (bit_or mode (2 ^ k)) (2 ^ k)) k,
  digit-bit_and (bit_or mode (2 ^ k)) (2 ^ k) k,
  digit-bit_or mode (2 ^ k) k,
  digit_pow_self k,
  digit-le mode k,
)

-- Decoding reads the 32 bytes from `p` on, and no others.
pub decode_ext :
    (b c : Buffer) (p : ℕ)
    → ((q : ℕ) → p ≤ q → q < p + 32 → b q ≡ c q)
    → decode_inode b p ≡ decode_inode c p
unfolding decode_inode
decode_ext b c p h = λ j. record {
  i_mode = word p (omega arith) (omega arith) j;
  i_nlink = h (p + 2) (omega arith) (omega arith) j;
  i_uid = h (p + 3) (omega arith) (omega arith) j;
  i_gid = h (p + 4) (omega arith) (omega arith) j;
  i_size0 = h (p + 5) (omega arith) (omega arith) j;
  i_size1 = word (p + 6) (omega arith) (omega arith) j;
  i_addr = addresses j;
  i_atime =
      (word (p + 24) (omega arith) (omega arith) j, word (p + 26) (omega arith) (omega arith) j);
  i_mtime =
      (word (p + 28) (omega arith) (omega arith) j, word (p + 30) (omega arith) (omega arith) j);
}
  where
    word : (q : ℕ) → p ≤ q → q + 1 < p + 32 → u16_at b q ≡ u16_at c q
    word q lo hi = λ j. h q lo (omega arith) j + 256 * h (q + 1) (omega arith) hi j

    addresses : (decode_inode b p).i_addr ≡ (decode_inode c p).i_addr
    addresses =
        slice_ext (λ k. u16_at b (p + 8 + 2 * k)) (λ k. u16_at c (p + 8 + 2 * k)) 0 0 8
          λ k r. word (p + 8 + 2 * (0 + k)) (omega arith) (omega arith)

-- The size does not depend on the addresses.
pub getsize_addr :
    (i : Inode) (addr : List ℕ) → inode_getsize (record i { i_addr = addr }) ≡ inode_getsize i
unfolding inode_getsize
getsize_addr i addr = refl
