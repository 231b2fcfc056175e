-- ===== src/Command.antt =====
-- done/u6fs.c: the command line up to u6fs_do_one_cmd, and u6fs_fuse_main of done/u6fs_fuse.c. What the
-- machine and the libraries do is an argument, a `Host`.
pub mod Adding
pub mod Again
pub mod NewDir
pub mod Main
use file_system_public_copy.Prelude.{
  ℕ, zero, suc, ◌+◌, ◌-◌, ◌*◌, ◌^◌, Bool, true, false, ◌&&◌, ◌||◌, not, if◌then◌else◌, ltb, ◌==◌,
  Option, none, some, List, [], ◌∷◌, ◌++◌, length, get_or, Result, ok, err, fault, u16, bit_or,
}
use Prim.Native.String.{String}
use mathlib.Core.List.{map}
use file_system_public_copy.Errors.{invalid_command, io, bad_parameter}
use file_system_public_copy.Stdio.{Buffer, File}
use file_system_public_copy.Printed.{Row, text, chars, decimal}
use file_system_public_copy.Layout.{root_inumber, ifdir}
use file_system_public_copy.FileSystem.{FileSystem}
use file_system_public_copy.Inode.{Line, inode_scan_print}
use file_system_public_copy.Mount.{mountv6, umountv6}
use file_system_public_copy.Directory.{bytes_eq}
use file_system_public_copy.Directory.Create.{direntv6_create, direntv6_addfile}
use file_system_public_copy.Directory.Print.{direntv6_print_tree}
use file_system_public_copy.Utils.Print.{
  utils_print_superblock, utils_cat_first_sector, utils_print_sha_allfiles, utils_print_bitmaps,
}

-- The stream on the local file that is added: whether `fseek` to its end and back succeeds, what
-- `ftell` says there, `none` being its error, and the bytes that `fread` gets of so many, which are no
-- more than these.
pub record Source : Type 0 where
  pub seeks_end : Bool
  pub tell : Option ℕ
  pub rewinds : Bool
  pub fread : ℕ → List ℕ

-- `malloc`, `fopen` of the disk by `mountv6` and its `fclose`, `fopen` of a local file, SHA256, `atoi`
-- as the bit pattern of an `int`, `fuse_main` for a mount point, what an array on the stack holds, and
-- how many calls within one another the stack has room for.
pub record Host : Type 0 where
  pub malloc : ℕ → Bool
  pub disk : List ℕ → Option File
  pub closes : Bool
  pub source : List ℕ → Option Source
  pub sha256 : Buffer → ℕ → List ℕ
  pub atoi : List ℕ → ℕ
  pub fuse_main : FileSystem → List ℕ → Result ℕ
  pub junk : Buffer
  pub stack : ℕ

abbrev pub max_size : ℕ
max_size = 4 * 1024

abbrev pub read_write_execute : ℕ
read_write_execute = bit_or (bit_or 0o400 0o100) 0o200

abbrev pub inode_word : List ℕ
inode_word = b'i' ∷ b'n' ∷ b'o' ∷ b'd' ∷ b'e' ∷ []

abbrev pub sb_word : List ℕ
sb_word = b's' ∷ b'b' ∷ []

abbrev pub shafiles_word : List ℕ
shafiles_word = b's' ∷ b'h' ∷ b'a' ∷ b'f' ∷ b'i' ∷ b'l' ∷ b'e' ∷ b's' ∷ []

abbrev pub cat1_word : List ℕ
cat1_word = b'c' ∷ b'a' ∷ b't' ∷ b'1' ∷ []

abbrev pub tree_word : List ℕ
tree_word = b't' ∷ b'r' ∷ b'e' ∷ b'e' ∷ []

abbrev pub fuse_word : List ℕ
fuse_word = b'f' ∷ b'u' ∷ b's' ∷ b'e' ∷ []

abbrev pub bm_word : List ℕ
bm_word = b'b' ∷ b'm' ∷ []

abbrev pub mkdir_word : List ℕ
mkdir_word = b'm' ∷ b'k' ∷ b'd' ∷ b'i' ∷ b'r' ∷ []

abbrev pub add_word : List ℕ
add_word = b'a' ∷ b'd' ∷ b'd' ∷ []

abbrev pub arg : List (List ℕ) → ℕ → List ℕ
arg argv k = get_or argv k []

-- CMD: the command and the number of arguments.
abbrev pub cmd : List (List ℕ) → List ℕ → ℕ → Bool
cmd argv word argc = bytes_eq (arg argv 2) word && length argv == argc

-- A line of inode_scan_print, as it is printed.
abbrev pub scan_row : Line → Row
scan_row l =
    text "inode "
    ∷ decimal l.inr
    ∷ text " ("
    ∷ text (if l.dir then "DIR" else "FIL")
    ∷ text ") len "
    ∷ decimal l.len
    ∷ []

unfoldable pub u6fs_fuse_main : Host → FileSystem → List ℕ → List Row × Result ℕ
u6fs_fuse_main h u mountpoint = ((utils_print_superblock u).0, h.fuse_main u mountpoint)

-- The bytes of the local file, if they can be had. Its fclose changes nothing that is modelled.
unfoldable pub read_source : Host → List ℕ → Result (List ℕ)
read_source h path = elim (h.source path) [
  | none ↦ err io
  | some f ↦ if not f.seeks_end then err io else elim f.tell [
    | none ↦ err io
    | some size ↦
        if ltb max_size size
        then err bad_parameter
        else if not f.rewinds
        then err io
        else if ltb (length (f.fread size)) size
        then err io
        else ok (f.fread size)
  ]
]

-- What a command prints, its status, and the file system afterwards.
abbrev pub Ran : Type 0
Ran = List Row × Result ℕ × FileSystem

-- A command that changes nothing.
abbrev pub looked : FileSystem → List Row × Result ℕ → Ran
looked u (rows, status) = (rows, status, u)

unfoldable pub run_cat1 : Host → FileSystem → List ℕ → Ran
unfolding utils_cat_first_sector
run_cat1 h u number =
    let atoided = h.atoi number in
    if atoided == 0 || atoided == 2 ^ 31 - 1 || atoided == 2 ^ 31
    then ([], err bad_parameter, u)
    else looked u (utils_cat_first_sector u (u16 atoided))

unfoldable pub run_mkdir : Host → FileSystem → List ℕ → Ran
unfolding direntv6_create
run_mkdir h u path =
    let (create, u') = direntv6_create h.junk u path ifdir in
    elim create [ ok _ ↦ ([], ok 0, u') | err n ↦ ([], err n, u') | fault ↦ ([], fault, u') ]

unfoldable pub run_add : Host → FileSystem → List ℕ → List ℕ → Ran
unfolding read_source direntv6_addfile
run_add h u destination path = elim (read_source h path) [
  | err n ↦ ([], err n, u)
  | fault ↦ ([], fault, u)
  | ok buff ↦
      let (status, u') =
        direntv6_addfile h.junk u destination read_write_execute (λ k. get_or buff k 0)
          (length buff) in
      ([], status, u')
]

-- The commands, in the order of the tests.
unfoldable pub run_command : Host → FileSystem → List (List ℕ) → Ran
unfolding run_cat1 run_mkdir run_add u6fs_fuse_main
run_command h u argv =
    if cmd argv inode_word 3
    then looked u (map scan_row (inode_scan_print u).0, (inode_scan_print u).1)
    else if cmd argv sb_word 3
    then looked u (utils_print_superblock u)
    else if cmd argv shafiles_word 3
    then looked u (utils_print_sha_allfiles h.sha256 h.junk u)
    else if cmd argv cat1_word 4
    then run_cat1 h u (arg argv 3)
    else if cmd argv tree_word 3
    then looked u (direntv6_print_tree h.stack h.junk u root_inumber [])
    else if cmd argv fuse_word 4
    then looked u (u6fs_fuse_main h u (arg argv 3))
    else if cmd argv bm_word 3
    then looked u (utils_print_bitmaps u)
    else if cmd argv mkdir_word 4
    then run_mkdir h u (arg argv 3)
    else if cmd argv add_word 5
    then run_add h u (arg argv 3) (arg argv 4)
    else ([], err invalid_command, u)

-- What a run printed and returned, and the file system as it was at the end.
pub record Outcome : Type 0 where
  pub rows : List Row
  pub status : Result ℕ
  pub left : Option FileSystem

-- `error == ERR_NONE ? err2 : error`.
abbrev pub first_error : Result ℕ → Result ℕ → Result ℕ
first_error (ok n) err2 = if n == 0 then err2 else ok n
first_error (err n) err2 = err n
first_error fault err2 = fault

-- The end of a run. The early returns of `add` unmount as well, and return their error; after a fault
-- nothing more is known to happen.
abbrev pub finish : Host → Ran → Outcome
finish h (rows, fault, u) = record { rows = rows; status = fault; left = some u }
finish h (rows, ok n, u) = record {
  rows = rows;
  status = first_error (ok n) (umountv6 h.closes (some u)).0;
  left = some u;
}
finish h (rows, err n, u) = record {
  rows = rows;
  status = first_error (err n) (umountv6 h.closes (some u)).0;
  left = some u;
}

-- A run that does not get as far as a mounted disk.
abbrev pub unmounted_run : Result ℕ → Outcome
unmounted_run status = record { rows = []; status = status; left = none }

unfoldable pub u6fs_do_one_cmd : Host → List (List ℕ) → Outcome
unfolding run_command
u6fs_do_one_cmd h argv =
    let (error, u) = mountv6 h.malloc (h.disk (arg argv 1)) in
    if ltb (length argv) 3 then unmounted_run (err invalid_command) else elim error [
      | err n ↦ unmounted_run (err n)
      | fault ↦ unmounted_run fault
      | ok n ↦
          if not (n == 0)
          then unmounted_run (ok n)
          else elim u [ none ↦ unmounted_run fault | some u' ↦ finish h (run_command h u' argv) ]
    ]
