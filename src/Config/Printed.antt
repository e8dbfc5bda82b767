-- ===== src/Config/Printed.antt =====
-- A configuration printed as a file is loaded back.
use yurei_jsonrpc_client.Config.Values.{
  key_of_chars, key_chars-KeyChar, Digits-strip_quotes, setting_of-key_of, key_of_short,
  color_text_short, Digits-IsValue, all_settings, color_text, key_of, Digits-color_text, value_of,
  entries_of,
}
use yurei_jsonrpc_client.Prelude.{
  ℕ, ◌<◌, ◌≡◌, refl, ap, ◌∙◌, Bool, true, false, some, List, [], ◌∷◌, arith, length, take_all,
  Bytes, All,
}
use yurei_jsonrpc_client.CString.{copy_string, same_ignoring_case, to_lower}
use yurei_jsonrpc_client.CString.Laws.{Digits}
use yurei_jsonrpc_client.CString.Numbers.{Digits-print_u64, length-print_u64}
use yurei_jsonrpc_client.Config.Fields.{Config}
use yurei_jsonrpc_client.Config.Settings.{
  size_of, means_yes, TextField, Setting, text, number32, queue_capacity, log_color, rpc_endpoint,
  wss_endpoint, rpc_api_key, rpc_mode, pumpfun_program, raydium_program, pumpfun_table,
  raydium_table, pg_conninfo, log_level, text_of, set_text, number_of, set_number, strip_quotes,
  apply_setting, apply_key_value,
}
use yurei_jsonrpc_client.Config.Files.{load_env_file}
use yurei_jsonrpc_client.Config.Fits.{number_of-lt, Fits}
use yurei_jsonrpc_client.Config.Numbers.{set_numeric_uint32-print_u64, set_numeric_size-print_u64}
use yurei_jsonrpc_client.Config.Entries.{
  IsValue, IsEntry, print_entries, apply_entries, load_env_file-entries,
}

-- The file with a line for each setting.
abbrev pub print_config : Config → Bytes
print_config c = print_entries (entries_of all_settings c)

-- A configuration whose texts can stand in a file: on one line, without white space at the ends, not in
-- quotes, and none too long for a line.
pub record IsPrintable (c : Config) : Type 0 where
  pub values : (f : TextField) → IsValue (text_of f c)
  pub unquoted : (f : TextField) → strip_quotes 512 (text_of f c) ≡ text_of f c
  pub conninfo_short : length c.pg_conninfo < 480

-- What the printed value of a setting is like.
record Prints (s : Setting) (c : Config) : Type 0 where
  value : IsValue (value_of s c)
  unquoted : strip_quotes 512 (value_of s c) ≡ value_of s c
  short : length (value_of s c) < 480

Digits-Prints :
    (s : Setting) (c : Config) → Digits (value_of s c) → length (value_of s c) < 480 → Prints s c
Digits-Prints s c h short = record {
  value = Digits-IsValue (value_of s c) h;
  unquoted = Digits-strip_quotes (value_of s c) h;
  short = short;
}

text_short : (f : TextField) (c : Config) → Fits c → IsPrintable c → length (text_of f c) < 480
text_short pg_conninfo c v p = p.conninfo_short
text_short _ c v p = omega (
  arith, v.rpc_endpoint_fits, v.wss_endpoint_fits, v.rpc_api_key_fits, v.rpc_mode_fits,
  v.pumpfun_program_fits, v.raydium_program_fits, v.pumpfun_table_fits, v.raydium_table_fits,
  v.log_level_fits,
)

Prints_lem : (s : Setting) (c : Config) → Fits c → IsPrintable c → Prints s c
Prints_lem (text f) c v p = record {
  value = p.values f;
  unquoted = p.unquoted f;
  short = text_short f c v p;
}
Prints_lem (number32 f) c v p =
    Digits-Prints (number32 f) c (Digits-print_u64 (number_of f c))
      (omega (arith, length-print_u64 (number_of f c)))
Prints_lem queue_capacity c v p =
    Digits-Prints queue_capacity c (Digits-print_u64 c.queue_capacity)
      (omega (arith, length-print_u64 c.queue_capacity))
Prints_lem log_color c v p =
    Digits-Prints log_color c (Digits-color_text c.log_color) (color_text_short c.log_color)

IsEntry-setting : (s : Setting) (c : Config) → Prints s c → IsEntry (key_of s, value_of s c)
IsEntry-setting s c p =
    let k = key_of_short s in
    record {
      key_set = k.0;
      key = key_chars-KeyChar (key_of s) (key_of_chars s);
      value = p.value;
      short = omega (arith, k.1, p.short);
    }

-- The setting of `c` put in `d`.
abbrev put : Setting → Config → Config → Config
put (text f) c d = set_text f (text_of f c) d
put (number32 f) c d = set_number f (number_of f c) d
put queue_capacity c d = record d { queue_capacity = c.queue_capacity }
put log_color c d = record d { log_color = c.log_color }

copy_string-text :
    (f : TextField) (c : Config) → Fits c → copy_string (size_of f) (text_of f c) ≡ text_of f c
copy_string-text rpc_endpoint c v = take_all 255 c.rpc_endpoint (omega (arith, v.rpc_endpoint_fits))
copy_string-text wss_endpoint c v = take_all 255 c.wss_endpoint (omega (arith, v.wss_endpoint_fits))
copy_string-text rpc_api_key c v = take_all 127 c.rpc_api_key (omega (arith, v.rpc_api_key_fits))
copy_string-text rpc_mode c v = take_all 15 c.rpc_mode (omega (arith, v.rpc_mode_fits))
copy_string-text pumpfun_program c v =
    take_all 63 c.pumpfun_program (omega (arith, v.pumpfun_program_fits))
copy_string-text raydium_program c v =
    take_all 63 c.raydium_program (omega (arith, v.raydium_program_fits))
copy_string-text pumpfun_table c v =
    take_all 63 c.pumpfun_table (omega (arith, v.pumpfun_table_fits))
copy_string-text raydium_table c v =
    take_all 63 c.raydium_table (omega (arith, v.raydium_table_fits))
copy_string-text pg_conninfo c v = take_all 511 c.pg_conninfo (omega (arith, v.pg_conninfo_fits))
copy_string-text log_level c v = take_all 15 c.log_level (omega (arith, v.log_level_fits))

means_yes-color_text : (b : Bool) → means_yes (color_text b) ≡ b
unfolding same_ignoring_case to_lower
means_yes-color_text true = refl
means_yes-color_text false = refl

apply_setting-put :
    (s : Setting) (c d : Config) → Fits c → apply_setting s (value_of s c) d ≡ put s c d
unfolding apply_setting
apply_setting-put (text f) c d v = ap (λ (t : Bytes). set_text f t d) (copy_string-text f c v)
apply_setting-put (number32 f) c d v =
    ap (λ (n : ℕ). set_number f n d)
      (set_numeric_uint32-print_u64 (number_of f c) (number_of f d) (number_of-lt f c v))
apply_setting-put queue_capacity c d v =
    ap (λ (n : ℕ). record d { queue_capacity = n })
      (set_numeric_size-print_u64 c.queue_capacity d.queue_capacity v.queue_capacity_in)
apply_setting-put log_color c d v =
    ap (λ (b : Bool). record d { log_color = b }) (means_yes-color_text c.log_color)

apply_key_value-put :
    (s : Setting) (c d : Config)
    → Fits c
    → Prints s c
    → apply_key_value (key_of s) (value_of s c) d ≡ put s c d
unfolding apply_key_value
apply_key_value-put s c d v p = rw (setting_of-key_of s, p.unquoted) (apply_setting-put s c d v)

abbrev put_all : List Setting → Config → Config → Config
put_all [] c d = d
put_all (s ∷ ss) c d = put_all ss c (put s c d)

apply_entries-put_all :
    (ss : List Setting) (c d : Config)
    → Fits c
    → IsPrintable c
    → apply_entries (entries_of ss c) d ≡ put_all ss c d
apply_entries-put_all [] c d v p = refl
apply_entries-put_all (s ∷ ss) c d v p =
    ap (apply_entries (entries_of ss c)) (apply_key_value-put s c d v (Prints_lem s c v p))
    ∙ apply_entries-put_all ss c (put s c d) v p

entries_of-IsEntry :
    (ss : List Setting) (c : Config) → Fits c → IsPrintable c → All IsEntry (entries_of ss c)
entries_of-IsEntry [] c v p = tt
entries_of-IsEntry (s ∷ ss) c v p =
    (IsEntry-setting s c (Prints_lem s c v p), entries_of-IsEntry ss c v p)

-- A configuration that fits its fields, and whose texts are on one line, without white space at
-- the ends, not in quotes, the connection shorter than 480 bytes, is loaded back from the file
-- with a line `KEY=value` for each setting, over any other configuration.
pub load_env_file-print_config :
    (c d : Config) → Fits c → IsPrintable c → load_env_file (some (print_config c)) d ≡ c
load_env_file-print_config c d v p =
    load_env_file-entries (entries_of all_settings c) d (entries_of-IsEntry all_settings c v p)
    ∙ apply_entries-put_all all_settings c d v p
