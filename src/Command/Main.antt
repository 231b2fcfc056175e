-- ===== src/Command/Main.antt =====
-- done/u6fs.c: usage and main, with the messages of done/error.c.
use file_system_public_copy.Prelude.{
  ℕ, ◌-◌, ◌&&◌, if◌then◌else◌, ltb, ◌==◌, List, [], ◌∷◌, ◌++◌, get_or, Result, ok, err, fault,
}
use Prim.Native.String.{String}
use file_system_public_copy.Errors.{invalid_command}
use file_system_public_copy.Printed.{Row, text, chars, decimal, negative}
use file_system_public_copy.Command.{Host, Outcome, arg, u6fs_do_one_cmd}

abbrev pub err_messages : List String
err_messages =
    "" ∷ "Invalid command" ∷ "Not enough memory" ∷ "IO error" ∷ "bad boot sector"
    ∷ "inode out of range" ∷ "filename too long" ∷ "invalid directory inode" ∷ "unallocated inode"
    ∷ "filename already exists" ∷ "bitmap full" ∷ "file too large" ∷ "offset out of range"
    ∷ "bad parameter" ∷ "no such file" ∷ []

-- What `usage` prints for a status that is not ERR_NONE; an error -n has its text at 128 - n.
unfoldable pub usage : List ℕ → Result ℕ → List Row
usage execname fault = []
usage execname (ok n) =
    (chars execname ∷ text ": Error: " ∷ decimal n ∷ text " (UNDEFINED ERROR)" ∷ []) ∷ []
usage execname (err n) =
    if n == invalid_command
    then (text "Available commands:" ∷ [])
      ∷ (chars execname ∷ text " <disk> sb" ∷ [])
      ∷ (chars execname ∷ text " <disk> inode" ∷ [])
      ∷ (chars execname ∷ text " <disk> cat1 <inr>" ∷ [])
      ∷ (chars execname ∷ text " <disk> shafiles" ∷ [])
      ∷ (chars execname ∷ text " <disk> tree" ∷ [])
      ∷ (chars execname ∷ text " <disk> fuse <mountpoint>" ∷ [])
      ∷ (chars execname ∷ text " <disk> bm" ∷ [])
      ∷ (chars execname ∷ text " <disk> mkdir </path/to/newdir>" ∷ [])
      ∷ (chars execname ∷ text " <disk> add <destination file path> <source file path>" ∷ [])
      ∷ []
    else if ltb n 128 && ltb 113 n
    then (chars execname ∷ text ": Error: " ∷ text (get_or err_messages (128 - n) "") ∷ []) ∷ []
    else (chars execname ∷ text ": Error: " ∷ negative n ∷ text " (UNDEFINED ERROR)" ∷ []) ∷ []

-- The status that is returned is the one of the run.
unfoldable pub main : Host → List (List ℕ) → Outcome
unfolding u6fs_do_one_cmd usage
main h argv =
    let out = u6fs_do_one_cmd h argv in
    elim out.status [
      | ok n ↦ if n == 0 then out else record out { rows = out.rows ++ usage (arg argv 0) (ok n) }
      | err n ↦ record out { rows = out.rows ++ usage (arg argv 0) (err n) }
      | fault ↦ out
    ]
