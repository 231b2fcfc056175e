-- ===== src/Directory/Find.antt =====
-- done/direntv6.c: the search of a name in a directory, and of a path.
use file_system_public_copy.Prelude.{
  ℕ, zero, suc, ◌+◌, ◌*◌, ◌/◌, ◌%◌, ◌<◌, ◌≡◌, ◌⊎◌, inl, inr, refl, ap, arith, true, if◌then◌else◌,
  Option, none, some, List, ok, dec_lt,
}
use file_system_public_copy.Stdio.{Buffer}
use file_system_public_copy.Layout.{Inode, inode_getsize, ifdir, has_flag}
use file_system_public_copy.FileSystem.{FileSystem}
use file_system_public_copy.Inode.{inode_read}
use file_system_public_copy.File.{filev6_open}
use file_system_public_copy.File.Content.{IsFile, content, block_length, readblock_lem}
use file_system_public_copy.Directory.{
  DirectoryReader, direntv6_opendir, direntv6_readdir, find_entry, find_in_directory, dir_rounds,
  bytes_eq,
}
use file_system_public_copy.Directory.Reader.{entry_at, IsReader, next_loaded, next_block}

-- At the end of the directory the reader says so.
next_end :
    (u : FileSystem) (addr : ℕ → ℕ) (size : ℕ) (d : DirectoryReader) (k : ℕ)
    → IsReader u addr size d k
    → d.cur ≡ d.last
    → d.fv6.offset ≡ size
    → (direntv6_readdir u d).0 ≡ ok none
unfolding direntv6_readdir
next_end u addr size d k r at_end h =
    let z : block_length d.fv6 ≡ 0 = omega (arith, h, r.sized) in
    ground (
      arith,
      at_end,
      readblock_lem u d.fv6 addr r.file (omega (arith, h, r.sized))
          (inr (omega (arith, h, r.sized))),
      z,
    )

-- Before its end, a reader that stands before entry `k` delivers that entry and then stands before
-- the next one; at its end it says so.
pub readdir_lem :
    (u : FileSystem) (addr : ℕ → ℕ) (size : ℕ) (d : DirectoryReader) (k : ℕ)
    → IsReader u addr size d k
    → ((k * 16 < size)
        × (d' : DirectoryReader) × (direntv6_readdir u d
            ≡ (ok (some (entry_at (content u addr) k)), d'))
        × IsReader u addr size d' (k + 1))
      ⊎ ((k * 16 ≡ size) × ((direntv6_readdir u d).0 ≡ ok none))
readdir_lem u addr size d k r = elim (dec_lt d.cur d.last) [
  | yes h ↦
      let n = next_loaded u addr size d k r h in
      inl (omega (arith, h, r.place, r.inside), _, n.0, n.1)
  | no h ↦ elim (dec_lt d.fv6.offset size) [
    | yes l ↦
        let n = next_block u addr size d k r (omega (arith, h, r.order)) l in
        inl (omega (arith, h, l, r.place, r.order), _, n.0, n.1)
    | no l ↦ inr (
      omega (arith, h, l, r.place, r.order, r.inside),
      next_end u addr size d k r (omega (arith, h, r.order)) (omega (arith, l, r.inside)),
    )
  ]
]

-- The reader that `direntv6_opendir` returns.
pub opendir_lem :
    (dirs : Buffer) (u : FileSystem) (inr : ℕ) (i : Inode) (addr : ℕ → ℕ)
    → inode_read u inr ≡ ok i
    → has_flag i.i_mode ifdir ≡ true
    → IsFile u i addr
    → inode_getsize i % 16 ≡ 0
    → (d : DirectoryReader) × (direntv6_opendir dirs u inr ≡ ok d)
      × (d.fv6.i_node ≡ i)
      × IsReader u addr (inode_getsize i) d 0
unfolding direntv6_opendir filev6_open
opendir_lem dirs u inode_number i addr read dir file whole = (
  record {
    fv6 = record { i_number = inode_number; i_node = i; offset = 0 };
    dirs = dirs;
    cur = 0;
    last = 0;
  },
  ground (arith, read, dir),
  refl,
  record {
    file = file;
    sized = refl;
    whole = whole;
    inside = omega arith;
    aligned = inl refl;
    few = omega arith;
    order = omega arith;
    back = omega arith;
    place = omega arith;
    loaded = λ p q. absurd (omega (arith, q));
  },
)

-- The first of `left` entries from `k` on that has a name: its inode number.
abbrev pub first_named : Buffer → List ℕ → ℕ → ℕ → Option ℕ
first_named g sought zero k = none
first_named g sought (suc left) k =
    if bytes_eq sought (entry_at g k).name
    then some (entry_at g k).child_inr
    else first_named g sought left (k + 1)

find_entry_lem :
    (rounds left : ℕ) (u : FileSystem) (addr : ℕ → ℕ) (size : ℕ) (d : DirectoryReader) (k : ℕ)
    (sought : List ℕ)
    → IsReader u addr size d k
    → (k + left) * 16 ≡ size
    → left < rounds
    → find_entry rounds u d sought ≡ ok (first_named (content u addr) sought left k)
unfolding find_entry
find_entry_lem zero left u addr size d k sought r total enough = absurd (omega (arith, enough))
find_entry_lem (suc rounds) zero u addr size d k sought r total enough =
    elim (readdir_lem u addr size d k r) [
      | inl (h, _, _, _) ↦ absurd (omega (arith, h, total))
      | inr (_, e) ↦ ground (arith, e)
    ]
find_entry_lem (suc rounds) (suc left) u addr size d k sought r total enough =
    elim (readdir_lem u addr size d k r) [
      | inl (h, d', e, r') ↦ ground (
        arith,
        e,
        find_entry_lem rounds left u addr size d' (k + 1) sought r' (omega (arith, total))
            (omega (arith, enough)),
      )
      | inr (h, _) ↦ absurd (omega (arith, h, total))
    ]

-- If an inode can be read and is a directory, whose blocks are located in readable sectors and
-- whose size is a multiple of 16, then the search of a name in it ends with the inode number of
-- the first of its entries that has this name, or with none if there is no such entry.
pub find_in_directory_lem :
    (dirs : Buffer) (u : FileSystem) (inr : ℕ) (i : Inode) (addr : ℕ → ℕ) (sought : List ℕ)
    → inode_read u inr ≡ ok i
    → has_flag i.i_mode ifdir ≡ true
    → IsFile u i addr
    → inode_getsize i % 16 ≡ 0
    → find_in_directory dirs u inr sought
      ≡ ok (first_named (content u addr) sought (inode_getsize i / 16) 0)
unfolding find_in_directory
find_in_directory_lem dirs u inode_number i addr sought read dir file whole =
    let (d, opened, same, r) = opendir_lem dirs u inode_number i addr read dir file whole in
    ground (
      arith,
      opened,
      find_entry_lem (dir_rounds d) (inode_getsize i / 16) u addr (inode_getsize i) d 0 sought r
          (omega (arith, whole)) (omega (arith, ap inode_getsize same)),
    )
