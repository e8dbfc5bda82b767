-- ===== src/Config/Files.antt =====
-- `trim` and `load_env_file`. A file is its bytes, and a file that cannot be opened is `none`.
use yurei_jsonrpc_client.Prelude.{
  ℕ, zero, suc, ◌-◌, ◌==◌, if◌then◌else◌, Option, none, some, List, [], ◌∷◌, length, take, Bytes,
  option_case,
}
use yurei_jsonrpc_client.CString.{skip_spaces, skip_spaces_back, up_to, from, until_nul, fgets}
use yurei_jsonrpc_client.Config.Fields.{Config}
use yurei_jsonrpc_client.Config.Settings.{apply_key_value}

-- `trim` into a buffer of `size` characters.
unfoldable pub trim : ℕ → Bytes → Bytes
unfolding skip_spaces skip_spaces_back
trim size input = take (size - 1) (skip_spaces_back (skip_spaces input))

-- The key and the value of a line, `none` for one that is passed over. The arrays `line` and `trimmed`
-- are written over as they are read: the key's end is cut off in place, before the character that
-- the value is read behind.
abbrev pub key_and_value : Bytes → Bytes → Option (Bytes × Bytes)
key_and_value trimmed [] = none
key_and_value trimmed (equals ∷ after) = some (trim 512 (up_to b'=' trimmed), trim 512 after)

abbrev pub unless_comment : Bytes → Option (Bytes × Bytes)
unless_comment [] = none
unless_comment (c ∷ s) = if c == b'#' then none else key_and_value (c ∷ s) (from b'=' (c ∷ s))

unfoldable pub read_line : Bytes → Option (Bytes × Bytes)
unfolding trim
read_line line = unless_comment (trim 512 (until_nul line))

-- The lines that `fgets` gives, with fuel for their number.
unfoldable pub file_lines : ℕ → Bytes → List Bytes
file_lines zero file = []
file_lines (suc fuel) [] = []
file_lines (suc fuel) (c ∷ s) = let (line, rest) = fgets 511 (c ∷ s) in line ∷ file_lines fuel rest

-- The loop over the lines.
unfoldable pub apply_line : Bytes → Config → Config
unfolding read_line apply_key_value
apply_line line config =
    option_case (read_line line) config λ entry. apply_key_value entry.0 entry.1 config

unfoldable pub apply_lines : List Bytes → Config → Config
apply_lines [] config = config
apply_lines (line ∷ lines) config = apply_lines lines (apply_line line config)

unfoldable pub load_env_file : Option Bytes → Config → Config
load_env_file none config = config
load_env_file (some file) config = apply_lines (file_lines (length file) file) config
