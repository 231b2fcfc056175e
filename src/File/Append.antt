-- ===== src/File/Append.antt =====
-- done/filev6.c: filev6_writesector, and what the inode and filev6_readblock say after it.
use file_system_public_copy.Prelude.{
  ℕ, ◌+◌, ◌-◌, ◌*◌, ◌/◌, ◌%◌, ◌≤◌, ◌<◌, ◌≡◌, ap, arith, set, slice, slice_ext, get_or,
  get_or-set_self, get_or-set_ne, ok, ◌∙◌,
}
use file_system_public_copy.Stdio.{Buffer}
use file_system_public_copy.Layout.{inode_getsize}
use file_system_public_copy.Bitmap.{bm_find_next}
use file_system_public_copy.Bitmap.Bits.{InRange}
use file_system_public_copy.Bitmap.Find.{bm_find_next_again, InRange-find}
use file_system_public_copy.FileSystem.{FileSystem}
use file_system_public_copy.Inode.{inode_findsector}
use file_system_public_copy.File.{Filev6, Written, filev6_writesector, filev6_readblock}
use file_system_public_copy.File.Content.{last_block, findsector_small}
use file_system_public_copy.File.Ready.{IsReady}
use file_system_public_copy.File.Write.{IsAppended, writesector_lem, writesector-IsReady}

-- If the file system can take a write to an open file, the search of the data bitmap gives a
-- sector, the file has whole blocks only, and between 1 and 511 bytes are written that leave its
-- size below 4096, then filev6_readblock from the old end returns those bytes.
pub readblock-writesector :
    (junk : Buffer) (u : FileSystem) (fv6 : Filev6) (buf : Buffer) (len file_size x : ℕ)
    → IsReady u fv6
    → (bm_find_next u.fbm).0 ≡ ok x
    → file_size % 512 ≡ 0
    → file_size + len < 8 * 512
    → 0 < len
    → len < 512
    → let (_, fv6', u') = filev6_writesector junk u fv6 buf len file_size in
      (filev6_readblock u' (record fv6' { offset = file_size })).0 ≡ ok (slice buf 0 len)
readblock-writesector junk u fv6 buf len file_size x r found whole small some short =
    last_block u' (record fv6' { offset = file_size }) x (rw w.1 (omega arith))
      (rw w.1 (omega arith)) located (r'.sectors x in_new)
    ∙ ap ok bytes
  where
    out : Written
    out = filev6_writesector junk u fv6 buf len file_size

    u' : FileSystem
    u' = out.2

    fv6' : Filev6
    fv6' = out.1

    r' : IsReady u' fv6'
    r' = writesector-IsReady junk u fv6 buf len file_size x r found small (omega arith)

    w : IsAppended u fv6 buf len file_size x out
    w = writesector_lem junk u fv6 buf len file_size x r found small (omega arith)

    own : get_or (set fv6.i_node.i_addr ((file_size + len) / 512) x) (file_size / 512) 0 ≡ x
    own =
        let e : (file_size + len) / 512 ≡ file_size / 512 = omega arith in
        rw e (
          get_or-set_self fv6.i_node.i_addr (file_size / 512) x 0
            (omega (arith, r.node.addr_length)))

    located : inode_findsector u' fv6'.i_node (file_size / 512) ≡ ok x
    located =
        findsector_small u' fv6'.i_node (file_size / 512) r'.allocated (rw w.1 small)
          (rw w.1 (omega arith))
        ∙ ap ok (ap (λ as'. get_or as' (file_size / 512) 0) w.2 ∙ own)

    in_new : InRange u'.fbm x
    in_new = rw w.5 (InRange-find u.fbm x r.fbm_valid (omega (arith, r.fbm_small)) found)

    bytes :
        slice (λ k. u'.f.byte (x * 512 + k)) 0 (inode_getsize fv6'.i_node - file_size)
        ≡ slice buf 0 len
    bytes =
        let e : inode_getsize fv6'.i_node - file_size ≡ len = omega (arith, w.1) in
        rw e (
          slice_ext (λ k. u'.f.byte (x * 512 + k)) buf 0 0 len
            λ k h. ap (λ t. u'.f.byte (x * 512 + t)) (omega arith) ∙ w.4 k h ∙ ap buf (omega arith))

-- If the file system can take a write to an open file, the search of the data bitmap gives sector
-- x, the file has whole blocks only, and its size and 512 are below 4096, then filev6_writesector
-- of 512 bytes returns ERR_NONE, the address of the block that they fill stays what it was, and
-- the next one is x.
pub writesector_full :
    (junk : Buffer) (u : FileSystem) (fv6 : Filev6) (buf : Buffer) (file_size x : ℕ)
    → IsReady u fv6
    → (bm_find_next u.fbm).0 ≡ ok x
    → file_size % 512 ≡ 0
    → file_size + 512 < 8 * 512
    → let (status, fv6', _) = filev6_writesector junk u fv6 buf 512 file_size in
      (status ≡ ok 0)
      × (get_or fv6'.i_node.i_addr (file_size / 512) 0
          ≡ get_or fv6.i_node.i_addr (file_size / 512) 0)
      × (get_or fv6'.i_node.i_addr (file_size / 512 + 1) 0 ≡ x)
writesector_full junk u fv6 buf file_size x r found whole small =
    let w = writesector_lem junk u fv6 buf 512 file_size x r found small (omega arith) in
    (
      w.0,
      ap (λ as'. get_or as' (file_size / 512) 0) w.2
          ∙ get_or-set_ne fv6.i_node.i_addr ((file_size + 512) / 512) (file_size / 512) x 0
              (omega arith),
      ap (λ as'. get_or as' (file_size / 512 + 1) 0) w.2
          ∙ (let e : (file_size + 512) / 512 ≡ file_size / 512 + 1 = omega arith in
              rw e (
                get_or-set_self fv6.i_node.i_addr (file_size / 512 + 1) x 0
                  (omega (arith, r.node.addr_length)))),
    )

-- If the file system can take a write to an open file, the search of the data bitmap gives sector
-- x, and two lengths of at most 512 leave the size below 4096, then the second of two calls of
-- filev6_writesector returns ERR_NONE, stores x again as the address of the new end, and writes
-- its bytes over those of the first at the start of sector x.
pub writesector_twice :
    (junk : Buffer) (u : FileSystem) (fv6 : Filev6) (buf buf' : Buffer) (len len' file_size x : ℕ)
    → IsReady u fv6
    → (bm_find_next u.fbm).0 ≡ ok x
    → file_size + len + len' < 8 * 512
    → len ≤ 512
    → len' ≤ 512
    → let (_, fv6', u') = filev6_writesector junk u fv6 buf len file_size in
      let (status, fv6'', u'') = filev6_writesector junk u' fv6' buf' len' (file_size + len) in
      (status ≡ ok 0)
      × (fv6''.i_node.i_addr ≡ set fv6'.i_node.i_addr ((file_size + len + len') / 512) x)
      × ((k : ℕ) → k < len' → u''.f.byte (x * 512 + k) ≡ buf' k)
writesector_twice junk u fv6 buf buf' len len' file_size x r found small short short' =
    (w'.0, w'.2, w'.4)
  where
    out : Written
    out = filev6_writesector junk u fv6 buf len file_size

    w : IsAppended u fv6 buf len file_size x out
    w = writesector_lem junk u fv6 buf len file_size x r found (omega arith) short

    again : (bm_find_next out.2.fbm).0 ≡ ok x
    again =
        rw w.5 (
          ap (λ t. t.0) (bm_find_next_again u.fbm x r.fbm_valid (omega (arith, r.fbm_small)) found))

    w' :
        IsAppended out.2 out.1 buf' len'
          (file_size + len)
          x
          (filev6_writesector junk out.2 out.1 buf' len' (file_size + len))
    w' =
        writesector_lem junk out.2 out.1 buf' len' (file_size + len) x
          (writesector-IsReady junk u fv6 buf len file_size x r found (omega arith) short) again
          small short'
