-- ===== src/Config/Texts.antt =====
-- Where the texts of a loaded configuration come from.
use yurei_jsonrpc_client.Prelude.{
  ℕ, ◌≡◌, refl, ap, ◌∙◌, Bool, true, false, if◌then◌else◌, Option, none, some, List, [], ◌∷◌, Bytes,
  option_case,
}
use yurei_jsonrpc_client.CString.{codes, copy_string, same_ignoring_case, to_lower}
use yurei_jsonrpc_client.Config.Fields.{Config}
use yurei_jsonrpc_client.Config.Settings.{
  means_yes, set_numeric_size, number_of, set_numeric_uint32, NumberField, TextField, Setting, text,
  number32, queue_capacity, log_color, rpc_endpoint, wss_endpoint, rpc_api_key, rpc_mode,
  pumpfun_program, raydium_program, pumpfun_table, raydium_table, pg_conninfo, log_level, size_of,
  text_of, set_text, set_number, strip_quotes, setting_of, apply_setting, apply_key_value,
  poll_interval_ms, ws_backoff_ms, ws_backoff_max_ms, batch_size, rate_limit_rps,
}
use yurei_jsonrpc_client.Config.Files.{load_env_file}
use yurei_jsonrpc_client.Config.Load.{
  apply_defaults, Environment, override, override_keys, override_from, apply_environment_overrides,
  load,
}
use yurei_jsonrpc_client.Config.Values.{key_of}

abbrev same_field : TextField → TextField → Bool
same_field rpc_endpoint rpc_endpoint = true
same_field wss_endpoint wss_endpoint = true
same_field rpc_api_key rpc_api_key = true
same_field rpc_mode rpc_mode = true
same_field pumpfun_program pumpfun_program = true
same_field raydium_program raydium_program = true
same_field pumpfun_table pumpfun_table = true
same_field raydium_table raydium_table = true
same_field pg_conninfo pg_conninfo = true
same_field log_level log_level = true
same_field _ _ = false

-- Whether a key stands for the field.
abbrev stands_for : TextField → Option Setting → Bool
stands_for f none = false
stands_for f (some (text g)) = same_field f g
stands_for f (some _) = false

-- The value of a variable, as it is stored; a variable that is empty or not set leaves the field.
abbrev pub stored_value : TextField → Option Bytes → Bytes → Bytes
stored_value f none old = old
stored_value f (some []) old = old
stored_value f (some (c ∷ s)) old = copy_string (size_of f) (strip_quotes 512 (c ∷ s))

text_of-set_text :
    (f g : TextField) (s : Bytes) (c : Config)
    → text_of f (set_text g (copy_string (size_of g) s) c)
      ≡ (if same_field f g then copy_string (size_of f) s else text_of f c)
text_of-set_text rpc_endpoint rpc_endpoint s c = refl
text_of-set_text rpc_endpoint _ s c = refl
text_of-set_text wss_endpoint rpc_endpoint s c = refl
text_of-set_text wss_endpoint _ s c = refl
text_of-set_text rpc_api_key rpc_endpoint s c = refl
text_of-set_text rpc_api_key _ s c = refl
text_of-set_text rpc_mode rpc_endpoint s c = refl
text_of-set_text rpc_mode _ s c = refl
text_of-set_text pumpfun_program rpc_endpoint s c = refl
text_of-set_text pumpfun_program _ s c = refl
text_of-set_text raydium_program rpc_endpoint s c = refl
text_of-set_text raydium_program _ s c = refl
text_of-set_text pumpfun_table rpc_endpoint s c = refl
text_of-set_text pumpfun_table _ s c = refl
text_of-set_text raydium_table rpc_endpoint s c = refl
text_of-set_text raydium_table _ s c = refl
text_of-set_text pg_conninfo rpc_endpoint s c = refl
text_of-set_text pg_conninfo _ s c = refl
text_of-set_text log_level rpc_endpoint s c = refl
text_of-set_text log_level _ s c = refl

text_of-set_number :
    (f : TextField) (g : NumberField) (n : ℕ) (c : Config)
    → text_of f (set_number g n c) ≡ text_of f c
text_of-set_number rpc_endpoint poll_interval_ms n c = refl
text_of-set_number _ poll_interval_ms n c = refl
text_of-set_number rpc_endpoint ws_backoff_ms n c = refl
text_of-set_number _ ws_backoff_ms n c = refl
text_of-set_number rpc_endpoint ws_backoff_max_ms n c = refl
text_of-set_number _ ws_backoff_max_ms n c = refl
text_of-set_number rpc_endpoint batch_size n c = refl
text_of-set_number _ batch_size n c = refl
text_of-set_number rpc_endpoint rate_limit_rps n c = refl
text_of-set_number _ rate_limit_rps n c = refl

text_of-capacity :
    (f : TextField) (n : ℕ) (c : Config) → text_of f (record c { queue_capacity = n }) ≡ text_of f c
text_of-capacity rpc_endpoint n c = refl
text_of-capacity _ n c = refl

text_of-color :
    (f : TextField) (b : Bool) (c : Config) → text_of f (record c { log_color = b }) ≡ text_of f c
text_of-color rpc_endpoint b c = refl
text_of-color _ b c = refl

if_same : (b : Bool) (x : Bytes) → x ≡ (if b then x else x)
if_same true x = refl
if_same false x = refl

text_of-apply_setting :
    (f : TextField) (s : Setting) (v : Bytes) (c : Config)
    → text_of f (apply_setting s v c)
      ≡ (if stands_for f (some s) then copy_string (size_of f) v else text_of f c)
unfolding apply_setting
text_of-apply_setting f (text g) v c = text_of-set_text f g v c
text_of-apply_setting f (number32 g) v c =
    text_of-set_number f g (set_numeric_uint32 v (number_of g c)) c
text_of-apply_setting f queue_capacity v c =
    text_of-capacity f (set_numeric_size v c.queue_capacity) c
text_of-apply_setting f log_color v c = text_of-color f (means_yes v) c

text_of-override :
    (f : TextField) (key : Bytes) (value : Option Bytes) (c : Config)
    → text_of f (override key value c)
      ≡ (if stands_for f (setting_of key) then stored_value f value (text_of f c) else text_of f c)
unfolding apply_key_value
text_of-override f key none c = if_same (stands_for f (setting_of key)) (text_of f c)
text_of-override f key (some []) c = if_same (stands_for f (setting_of key)) (text_of f c)
text_of-override f key (some (d ∷ s)) c =
    elim (setting_of key)
      as (λ o.
        text_of f (option_case o c λ t. apply_setting t (strip_quotes 512 (d ∷ s)) c)
        ≡ (if stands_for f o then stored_value f (some (d ∷ s)) (text_of f c) else text_of f c)) [
          | none ↦ refl
          | some t ↦ text_of-apply_setting f t (strip_quotes 512 (d ∷ s)) c
        ]

-- The overrides on one field alone.
unfoldable override_text : TextField → Environment → List Bytes → Bytes → Bytes
override_text f env [] old = old
override_text f env (key ∷ keys) old =
    override_text f env keys
      (if stands_for f (setting_of key) then stored_value f (env key) old else old)

text_of-override_from :
    (f : TextField) (env : Environment) (keys : List Bytes) (c : Config)
    → text_of f (override_from env keys c) ≡ override_text f env keys (text_of f c)
unfolding override_from override_text
text_of-override_from f env [] c = refl
text_of-override_from f env (key ∷ keys) c =
    text_of-override_from f env keys (override key (env key) c)
    ∙ ap (override_text f env keys) (text_of-override f key (env key) c)

-- The value of a field's variables; `YUREI_PG_CONNINFO` comes after `YUREI_PG_CONN`.
abbrev pub from_environment : TextField → Environment → Bytes → Bytes
from_environment pg_conninfo env old =
    stored_value pg_conninfo (env (key_of (text pg_conninfo)))
      (stored_value pg_conninfo (env (codes "YUREI_PG_CONN")) old)
from_environment f env old = stored_value f (env (key_of (text f))) old

override_text-keys :
    (f : TextField) (env : Environment) (old : Bytes)
    → override_text f env override_keys old ≡ from_environment f env old
unfolding override_text setting_of same_ignoring_case to_lower
override_text-keys rpc_endpoint env old = refl
override_text-keys wss_endpoint env old = refl
override_text-keys rpc_api_key env old = refl
override_text-keys rpc_mode env old = refl
override_text-keys pumpfun_program env old = refl
override_text-keys raydium_program env old = refl
override_text-keys pumpfun_table env old = refl
override_text-keys raydium_table env old = refl
override_text-keys pg_conninfo env old = refl
override_text-keys log_level env old = refl

-- Each text of the loaded configuration is the value of its environment variable without quotes,
-- cut off at its array, if the variable is set and not empty, and what the file gave otherwise;
-- for the connection, YUREI_PG_CONNINFO goes before YUREI_PG_CONN.
pub load-from_environment :
    (f : TextField) (file : Option Bytes) (env : Environment)
    → text_of f (load file env)
      ≡ from_environment f env (text_of f (load_env_file file apply_defaults))
unfolding load apply_environment_overrides
load-from_environment f file env =
    text_of-override_from f env override_keys (load_env_file file apply_defaults)
    ∙ override_text-keys f env (text_of f (load_env_file file apply_defaults))
