-- ===== src/Directory/Reader.antt =====
-- done/direntv6.c: the state of a directory reader, and its next entry.
use file_system_public_copy.Prelude.{
  ℕ, ◌+◌, ◌-◌, ◌*◌, ◌/◌, ◌%◌, ◌≤◌, ◌<◌, ◌≡◌, ◌⊎◌, inl, ap, arith, some, List, length, length-slice,
  get_or-slice, slice, slice_ext, get_or, ok, ◌∙◌, min,
}
use file_system_public_copy.Stdio.{Buffer, memcpy, memcpy_inside}
use file_system_public_copy.Layout.{inode_getsize, u16_at}
use file_system_public_copy.FileSystem.{FileSystem}
use file_system_public_copy.File.{Filev6, filev6_readblock}
use file_system_public_copy.File.Content.{IsFile, content, block_length, readblock_lem}
use file_system_public_copy.Directory.{
  DirectoryReader, Entry, c_string, next_entry, direntv6_readdir,
}

-- Entry `k` of a directory with these bytes.
abbrev pub entry_at : Buffer → ℕ → Entry
entry_at g k = record { name = c_string (slice g (k * 16 + 2) 14); child_inr = u16_at g (k * 16) }

-- The reader of a directory of `size` bytes stands before entry `k`: its array holds the entries of
-- the last block that was read, of which `cur` are behind it.
pub record IsReader (u : FileSystem) (addr : ℕ → ℕ) (size : ℕ) (d : DirectoryReader) (k : ℕ)
    : Type 0 where
  pub file : IsFile u d.fv6.i_node addr
  pub sized : inode_getsize d.fv6.i_node ≡ size
  pub whole : size % 16 ≡ 0
  pub inside : d.fv6.offset ≤ size
  pub aligned : (d.fv6.offset % 512 ≡ 0) ⊎ (d.fv6.offset ≡ size)
  pub few : d.last ≤ 32
  pub order : d.cur ≤ d.last
  pub back : d.last * 16 ≤ d.fv6.offset
  pub place : k * 16 + d.last * 16 ≡ d.fv6.offset + d.cur * 16
  pub loaded :
      (p : ℕ) → p < d.last * 16 → d.dirs p ≡ content u addr (d.fv6.offset - d.last * 16 + p)

-- The same bytes make the same entry.
pub entry_ext :
    (b g : Buffer) (c k : ℕ)
    → ((p : ℕ) → p < 16 → b (c * 16 + p) ≡ g (k * 16 + p))
    → entry_at b c ≡ entry_at g k
entry_ext b g c k h =
    let name = slice_ext b g (c * 16 + 2) (k * 16 + 2) 14 λ p q. ground (arith, h (p + 2)) in
    let child : u16_at b (c * 16) ≡ u16_at g (k * 16) = ground (arith, h 0, h 1) in
    λ j. record { name = c_string (name j); child_inr = child j }

next_entry_lem :
    (d : DirectoryReader)
    → d.cur < 32
    → next_entry d ≡ (ok (some (entry_at d.dirs d.cur)), record d { cur = d.cur + 1 })
unfolding next_entry
next_entry_lem d h = ground arith

-- A read that has to fetch a block, of `n` bytes.
fetch_block :
    (u : FileSystem) (d : DirectoryReader) (bytes : List ℕ) (f' : Filev6) (n : ℕ)
    → filev6_readblock u d.fv6 ≡ (ok bytes, f')
    → length bytes ≡ n
    → 16 ≤ n
    → d.cur ≡ d.last
    → direntv6_readdir u d
      ≡ next_entry (record {
        fv6 = f';
        dirs = memcpy d.dirs 0 n (λ k. get_or bytes k 0);
        cur = 0;
        last = n / 16;
      })
unfolding direntv6_readdir
fetch_block u d bytes f' n e len big at_end = ground (arith, e, len, big, at_end)

-- An entry of the block that is loaded.
pub next_loaded :
    (u : FileSystem) (addr : ℕ → ℕ) (size : ℕ) (d : DirectoryReader) (k : ℕ)
    → IsReader u addr size d k
    → d.cur < d.last
    → (direntv6_readdir u d
        ≡ (ok (some (entry_at (content u addr) k)), record d { cur = d.cur + 1 }))
      × IsReader u addr size (record d { cur = d.cur + 1 }) (k + 1)
unfolding direntv6_readdir next_entry
next_loaded u addr size d k r h = (read, reader)
  where
    read :
        direntv6_readdir u d
        ≡ (ok (some (entry_at (content u addr) k)), record d { cur = d.cur + 1 })
    read =
        let e : direntv6_readdir u d
            ≡ (ok (some (entry_at d.dirs d.cur)), record d { cur = d.cur + 1 }) =
          ground (arith, h, r.few) in
        e
        ∙ ap (λ t. (ok (some t), record d { cur = d.cur + 1 }))
            (entry_ext d.dirs (content u addr) d.cur k λ p q.
              r.loaded (d.cur * 16 + p) (omega (arith, h))
              ∙ ap (content u addr) (omega (arith, r.place, r.back)))

    reader : IsReader u addr size (record d { cur = d.cur + 1 }) (k + 1)
    reader = record {
      file = r.file;
      sized = r.sized;
      whole = r.whole;
      inside = r.inside;
      aligned = r.aligned;
      few = r.few;
      order = omega (arith, h);
      back = r.back;
      place = omega (arith, r.place);
      loaded = r.loaded;
    }

-- The reader with the next block loaded, and its first entry taken.
abbrev pub loaded_next : FileSystem → (ℕ → ℕ) → DirectoryReader → DirectoryReader
loaded_next u addr d =
    let n = block_length d.fv6 in
    record {
      fv6 = record d.fv6 { offset = d.fv6.offset + n };
      dirs = memcpy d.dirs 0 n (λ k. get_or (slice (content u addr) d.fv6.offset n) k 0);
      cur = 1;
      last = n / 16;
    }

pub next_block :
    (u : FileSystem) (addr : ℕ → ℕ) (size : ℕ) (d : DirectoryReader) (k : ℕ)
    → IsReader u addr size d k
    → d.cur ≡ d.last
    → d.fv6.offset < size
    → (direntv6_readdir u d ≡ (ok (some (entry_at (content u addr) k)), loaded_next u addr d))
      × IsReader u addr size (loaded_next u addr d) (k + 1)
next_block u addr size d k r at_end h = (read, reader)
  where
    n : ℕ
    n = block_length d.fv6

    n_lem : n ≡ min 512 (size - d.fv6.offset)
    n_lem = ap (λ t. min 512 (t - d.fv6.offset)) r.sized

    aligned : d.fv6.offset % 512 ≡ 0
    aligned = ground (arith, r.aligned, h)

    whole_entries : (n / 16 * 16 ≡ n) × (16 ≤ n) × (n ≤ 512)
    whole_entries = omega (arith, n_lem, aligned, r.whole, h)

    bytes : (p : ℕ) → p < n → (loaded_next u addr d).dirs p ≡ content u addr (d.fv6.offset + p)
    bytes p q =
        ap (loaded_next u addr d).dirs (omega arith)
        ∙ memcpy_inside d.dirs (λ k. get_or (slice (content u addr) d.fv6.offset n) k 0) 0 n p q
        ∙ get_or-slice (content u addr) d.fv6.offset n p 0 q

    read : direntv6_readdir u d ≡ (ok (some (entry_at (content u addr) k)), loaded_next u addr d)
    read =
        fetch_block u d (slice (content u addr) d.fv6.offset n)
          (record d.fv6 { offset = d.fv6.offset + n }) n
          (readblock_lem u d.fv6 addr r.file (omega (arith, h, r.sized)) (inl aligned))
          (length-slice (content u addr) d.fv6.offset n) whole_entries.1 at_end
        ∙ next_entry_lem (record (loaded_next u addr d) { cur = 0 }) (omega arith)
        ∙ ap (λ t. (ok (some t), loaded_next u addr d))
            (entry_ext (loaded_next u addr d).dirs (content u addr) 0 k λ p q.
              ap (loaded_next u addr d).dirs (omega arith)
              ∙ bytes p (omega (arith, whole_entries, q))
              ∙ ap (content u addr) (omega (arith, r.place, at_end)))

    reader : IsReader u addr size (loaded_next u addr d) (k + 1)
    reader = record {
      file = r.file;
      sized = r.sized;
      whole = r.whole;
      inside = omega (arith, n_lem, h);
      aligned = ground (arith, n_lem, h, aligned);
      few = omega (arith, whole_entries);
      order = omega (arith, whole_entries);
      back = omega (arith, whole_entries);
      place = omega (arith, whole_entries, r.place, at_end);
      loaded = λ p q.
          bytes p (omega (arith, whole_entries))
          ∙ ap (content u addr) (omega (arith, whole_entries));
    }
