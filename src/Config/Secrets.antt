-- ===== src/Config/Secrets.antt =====
-- The settings that are secrets, the key of the API and the connection to the database, which holds a
-- password: the rest of a loaded configuration does not depend on them.
use yurei_jsonrpc_client.Prelude.{
  ◌∙◌, ◌≡◌, refl, sym, ap, Bool, true, false, if◌then◌else◌, Option, none, some, List, [], ◌∷◌,
  length, Bytes, option_case, Bool-cases, inl, inr,
}
use yurei_jsonrpc_client.Config.Fields.{Config}
use yurei_jsonrpc_client.Config.Settings.{
  Setting, text, number32, queue_capacity, log_color, rpc_endpoint, rpc_api_key, pg_conninfo,
  poll_interval_ms, strip_quotes, setting_of, apply_setting, apply_key_value,
}
use yurei_jsonrpc_client.Config.Files.{
  read_line, file_lines, apply_line, apply_lines, load_env_file,
}
use yurei_jsonrpc_client.Config.Load.{
  apply_defaults, Environment, override, override_keys, override_from, apply_environment_overrides,
  load,
}

abbrev pub is_secret : Setting → Bool
is_secret (text rpc_api_key) = true
is_secret (text pg_conninfo) = true
is_secret _ = false

-- Whether a key names a secret.
abbrev pub secret_key : Bytes → Bool
secret_key key = option_case (setting_of key) false is_secret

abbrev pub secret_line : Bytes → Bool
secret_line line = option_case (read_line line) false λ entry. secret_key entry.0

abbrev pub public_lines : List Bytes → List Bytes
public_lines [] = []
public_lines (line ∷ lines) =
    if secret_line line then public_lines lines else line ∷ public_lines lines

-- The lines of a file but for those that set a secret.
abbrev pub public_part : Option Bytes → List Bytes
public_part none = []
public_part (some file) = public_lines (file_lines (length file) file)

-- A configuration without its secrets.
unfoldable pub hidden : Config → Config
hidden c = record c { rpc_api_key = []; pg_conninfo = [] }

hidden_first :
    (s : Setting) (v : Bytes) (c : Config)
    → hidden (apply_setting s v c) ≡ hidden (apply_setting s v (hidden c))
unfolding hidden apply_setting
hidden_first (text rpc_endpoint) v c = refl
hidden_first (text _) v c = refl
hidden_first (number32 poll_interval_ms) v c = refl
hidden_first (number32 _) v c = refl
hidden_first queue_capacity v c = refl
hidden_first log_color v c = refl

hidden-apply_setting :
    (s : Setting) (v : Bytes) (c d : Config)
    → hidden c ≡ hidden d
    → hidden (apply_setting s v c) ≡ hidden (apply_setting s v d)
hidden-apply_setting s v c d h =
    hidden_first s v c
    ∙ ap (λ (k : Config). hidden (apply_setting s v k)) h
    ∙ sym (hidden_first s v d)

secret-apply_setting :
    (s : Setting) (v : Bytes) (c : Config)
    → is_secret s ≡ true
    → hidden (apply_setting s v c) ≡ hidden c
unfolding hidden apply_setting
secret-apply_setting (text rpc_api_key) v c h = refl
secret-apply_setting (text pg_conninfo) v c h = refl
secret-apply_setting _ v c h = cc

hidden-apply_key_value :
    (key value : Bytes) (c d : Config)
    → hidden c ≡ hidden d
    → hidden (apply_key_value key value c) ≡ hidden (apply_key_value key value d)
unfolding apply_key_value
hidden-apply_key_value key value c d h =
    elim (setting_of key)
      as (λ o.
        hidden (option_case o c λ s. apply_setting s (strip_quotes 512 value) c)
        ≡ hidden (option_case o d λ s. apply_setting s (strip_quotes 512 value) d)) [
          | none ↦ h
          | some s ↦ hidden-apply_setting s (strip_quotes 512 value) c d h
        ]

secret-apply_key_value :
    (key value : Bytes) (c : Config)
    → secret_key key ≡ true
    → hidden (apply_key_value key value c) ≡ hidden c
unfolding apply_key_value
secret-apply_key_value key value c =
    elim (setting_of key)
      as (λ o.
        option_case o false is_secret ≡ true
        → hidden (option_case o c λ s. apply_setting s (strip_quotes 512 value) c) ≡ hidden c) [
          | none ↦ λ h. refl
          | some s ↦ λ h. secret-apply_setting s (strip_quotes 512 value) c h
        ]

hidden-apply_line :
    (line : Bytes) (c d : Config)
    → hidden c ≡ hidden d
    → hidden (apply_line line c) ≡ hidden (apply_line line d)
unfolding apply_line
hidden-apply_line line c d h =
    elim (read_line line)
      as (λ o.
        hidden (option_case o c λ entry. apply_key_value entry.0 entry.1 c)
        ≡ hidden (option_case o d λ entry. apply_key_value entry.0 entry.1 d)) [
          | none ↦ h
          | some entry ↦ hidden-apply_key_value entry.0 entry.1 c d h
        ]

secret-apply_line :
    (line : Bytes) (c : Config) → secret_line line ≡ true → hidden (apply_line line c) ≡ hidden c
unfolding apply_line
secret-apply_line line c =
    elim (read_line line)
      as (λ o.
        option_case o false (λ entry. secret_key entry.0) ≡ true
        → hidden (option_case o c λ entry. apply_key_value entry.0 entry.1 c) ≡ hidden c) [
          | none ↦ λ h. refl
          | some entry ↦ λ h. secret-apply_key_value entry.0 entry.1 c h
        ]

hidden-apply_lines :
    (lines : List Bytes) (c d : Config)
    → hidden c ≡ hidden d
    → hidden (apply_lines lines c) ≡ hidden (apply_lines (public_lines lines) d)
unfolding apply_lines
hidden-apply_lines [] c d h = h
hidden-apply_lines (line ∷ lines) c d h = elim (Bool-cases (secret_line line)) [
  | inl secret ↦
      rw secret
        (hidden-apply_lines lines (apply_line line c) d (secret-apply_line line c secret ∙ h))
  | inr shown ↦ rw shown (
      hidden-apply_lines lines (apply_line line c) (apply_line line d)
        (hidden-apply_line line c d h))
]

hidden-load_env_file :
    (file : Option Bytes) (c : Config)
    → hidden (load_env_file file c) ≡ hidden (apply_lines (public_part file) c)
unfolding load_env_file apply_lines
hidden-load_env_file none c = refl
hidden-load_env_file (some file) c = hidden-apply_lines (file_lines (length file) file) c c refl

hidden-override :
    (key : Bytes) (value : Option Bytes) (c d : Config)
    → hidden c ≡ hidden d
    → hidden (override key value c) ≡ hidden (override key value d)
hidden-override key none c d h = h
hidden-override key (some []) c d h = h
hidden-override key (some (b ∷ s)) c d h = hidden-apply_key_value key (b ∷ s) c d h

secret-override :
    (key : Bytes) (value : Option Bytes) (c : Config)
    → secret_key key ≡ true
    → hidden (override key value c) ≡ hidden c
secret-override key none c h = refl
secret-override key (some []) c h = refl
secret-override key (some (b ∷ s)) c h = secret-apply_key_value key (b ∷ s) c h

-- Two environments with the same public variables.
abbrev pub SamePublic : Environment → Environment → Type 0
SamePublic env env' = (key : Bytes) → secret_key key ≡ false → env key ≡ env' key

hidden-override_from :
    (env env' : Environment) (keys : List Bytes) (c d : Config)
    → SamePublic env env'
    → hidden c ≡ hidden d
    → hidden (override_from env keys c) ≡ hidden (override_from env' keys d)
unfolding override_from
hidden-override_from env env' [] c d same h = h
hidden-override_from env env' (key ∷ keys) c d same h =
    hidden-override_from env env' keys (override key (env key) c) (override key (env' key) d) same
      (elim (Bool-cases (secret_key key)) [
        | inl secret ↦
            secret-override key (env key) c secret
            ∙ h
            ∙ sym (secret-override key (env' key) d secret)
        | inr shown ↦
            hidden-override key (env key) c d h
            ∙ ap (λ (v : Option Bytes). hidden (override key v d)) (same key shown)
      ])

-- What is loaded but for the secrets depends on the public lines and variables alone.
pub hidden-load :
    (file file' : Option Bytes) (env env' : Environment)
    → public_part file ≡ public_part file'
    → SamePublic env env'
    → hidden (load file env) ≡ hidden (load file' env')
unfolding load apply_environment_overrides
hidden-load file file' env env' lines same =
    hidden-override_from env env' override_keys (load_env_file file apply_defaults)
      (load_env_file file' apply_defaults) same
      (hidden-load_env_file file apply_defaults
        ∙ ap (λ (ls : List Bytes). hidden (apply_lines ls apply_defaults)) lines
        ∙ sym (hidden-load_env_file file' apply_defaults))
