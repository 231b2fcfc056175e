-- ===== src/Errors.antt =====
-- done/error.h: the error codes. Each is the magnitude of the negative number that C returns, so
-- `return ERR_IO` is `err io`. ERR_FIRST is -128.
use file_system_public_copy.Prelude.{ℕ}

abbrev pub invalid_command : ℕ
invalid_command = 127

abbrev pub nomem : ℕ
nomem = 126

abbrev pub io : ℕ
io = 125

abbrev pub bad_boot_sector : ℕ
bad_boot_sector = 124

abbrev pub inode_out_of_range : ℕ
inode_out_of_range = 123

abbrev pub filename_too_long : ℕ
filename_too_long = 122

abbrev pub invalid_directory_inode : ℕ
invalid_directory_inode = 121

abbrev pub unallocated_inode : ℕ
unallocated_inode = 120

abbrev pub filename_already_exists : ℕ
filename_already_exists = 119

abbrev pub bitmap_full : ℕ
bitmap_full = 118

abbrev pub file_too_large : ℕ
file_too_large = 117

abbrev pub offset_out_of_range : ℕ
offset_out_of_range = 116

abbrev pub bad_parameter : ℕ
bad_parameter = 115

abbrev pub no_such_file : ℕ
no_such_file = 114
