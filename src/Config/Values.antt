-- ===== src/Config/Values.antt =====
-- The keys of the settings, and their values in a file.
use yurei_jsonrpc_client.Prelude.{
  All-map, leb, ◌≤◌, ◌<◌, ◌≡◌, ◌≢◌, refl, ap, ◌∙◌, Bool, true, false, not, ◌&&◌, ◌||◌, ◌==◌, some,
  List, [], ◌∷◌, arith, length, Bytes, All,
}
use yurei_jsonrpc_client.CString.{
  unless_space, codes, is_space, skip_spaces, skip_spaces_back, print_u64, same_ignoring_case,
  to_lower,
}
use yurei_jsonrpc_client.CString.Laws.{Digits}
use yurei_jsonrpc_client.Config.Fields.{Config}
use yurei_jsonrpc_client.Config.Settings.{
  split_last, is_quote, Setting, text, number32, queue_capacity, log_color, rpc_endpoint,
  wss_endpoint, rpc_api_key, rpc_mode, pumpfun_program, raydium_program, pumpfun_table,
  raydium_table, pg_conninfo, log_level, poll_interval_ms, ws_backoff_ms, ws_backoff_max_ms,
  batch_size, rate_limit_rps, text_of, number_of, strip_quotes, setting_of,
}
use yurei_jsonrpc_client.Config.Entries.{unless_space-visible, KeyChar, IsValue, Entry}

-- The key of each setting, and its value in a file.
abbrev pub key_of : Setting → Bytes
key_of (text rpc_endpoint) = codes "YUREI_RPC_ENDPOINT"
key_of (text wss_endpoint) = codes "YUREI_WSS_ENDPOINT"
key_of (text rpc_api_key) = codes "YUREI_RPC_API_KEY"
key_of (text rpc_mode) = codes "YUREI_RPC_MODE"
key_of (text pumpfun_program) = codes "YUREI_PUMPFUN_PROGRAM"
key_of (text raydium_program) = codes "YUREI_RAYDIUM_PROGRAM"
key_of (text pumpfun_table) = codes "YUREI_PUMPFUN_TABLE"
key_of (text raydium_table) = codes "YUREI_RAYDIUM_TABLE"
key_of (text pg_conninfo) = codes "YUREI_PG_CONNINFO"
key_of (text log_level) = codes "YUREI_LOG_LEVEL"
key_of (number32 poll_interval_ms) = codes "YUREI_POLL_INTERVAL_MS"
key_of (number32 ws_backoff_ms) = codes "YUREI_WS_BACKOFF_MS"
key_of (number32 ws_backoff_max_ms) = codes "YUREI_WS_BACKOFF_MAX_MS"
key_of (number32 batch_size) = codes "YUREI_BATCH_SIZE"
key_of (number32 rate_limit_rps) = codes "YUREI_RATE_LIMIT"
key_of queue_capacity = codes "YUREI_QUEUE_CAPACITY"
key_of log_color = codes "YUREI_LOG_COLOR"

abbrev pub color_text : Bool → Bytes
color_text true = codes "1"
color_text false = codes "0"

abbrev pub value_of : Setting → Config → Bytes
value_of (text f) c = text_of f c
value_of (number32 f) c = print_u64 (number_of f c)
value_of queue_capacity c = print_u64 c.queue_capacity
value_of log_color c = color_text c.log_color

abbrev pub all_settings : List Setting
all_settings =
    text rpc_endpoint
    ∷ text wss_endpoint
    ∷ text rpc_api_key
    ∷ text rpc_mode
    ∷ text pumpfun_program
    ∷ text raydium_program
    ∷ text pumpfun_table
    ∷ text raydium_table
    ∷ text pg_conninfo
    ∷ text log_level
    ∷ number32 poll_interval_ms
    ∷ number32 ws_backoff_ms
    ∷ number32 ws_backoff_max_ms
    ∷ number32 batch_size
    ∷ number32 rate_limit_rps
    ∷ queue_capacity
    ∷ log_color
    ∷ []

abbrev pub entries_of : List Setting → Config → List Entry
entries_of [] c = []
entries_of (s ∷ ss) c = (key_of s, value_of s c) ∷ entries_of ss c

pub setting_of-key_of : (s : Setting) → setting_of (key_of s) ≡ some s
unfolding setting_of same_ignoring_case to_lower
setting_of-key_of (text rpc_endpoint) = refl
setting_of-key_of (text _) = refl
setting_of-key_of (number32 poll_interval_ms) = refl
setting_of-key_of (number32 _) = refl
setting_of-key_of queue_capacity = refl
setting_of-key_of log_color = refl

-- The tests of `KeyChar` on a text.
abbrev pub key_chars : Bytes → Bool
key_chars [] = true
key_chars (c ∷ s) =
    not (is_space c) && not (c == b'=') && not (c == b'#') && not (c == 0) && key_chars s

pub key_chars-KeyChar : (s : Bytes) → key_chars s ≡ true → All KeyChar s
key_chars-KeyChar [] h = tt
key_chars-KeyChar (c ∷ s) h = (ground arith, key_chars-KeyChar s (ground arith))

pub key_of_chars : (s : Setting) → key_chars (key_of s) ≡ true
unfolding is_space
key_of_chars (text rpc_endpoint) = refl
key_of_chars (text _) = refl
key_of_chars (number32 poll_interval_ms) = refl
key_of_chars (number32 _) = refl
key_of_chars queue_capacity = refl
key_of_chars log_color = refl

pub key_of_short : (s : Setting) → (0 < length (key_of s)) × (length (key_of s) < 30)
key_of_short (text rpc_endpoint) = omega arith
key_of_short (text _) = omega arith
key_of_short (number32 poll_interval_ms) = omega arith
key_of_short (number32 _) = omega arith
key_of_short queue_capacity = omega arith
key_of_short log_color = omega arith

-- Digits have no white space and no quotes among them.
Digits-skip_spaces : (s : Bytes) → Digits s → skip_spaces s ≡ s
unfolding skip_spaces is_space
Digits-skip_spaces [] h = refl
Digits-skip_spaces (c ∷ s) h =
    let visible : (c == 32 || leb 9 c && leb c 13) ≡ false = ground (arith, h.0) in rw visible refl

Digits-skip_spaces_back : (s : Bytes) → Digits s → skip_spaces_back s ≡ s
unfolding skip_spaces_back
Digits-skip_spaces_back [] h = refl
Digits-skip_spaces_back (c ∷ s) h =
    let visible : is_space c ≡ false = unfold is_space in ground (arith, h.0) in
    ap (unless_space c) (Digits-skip_spaces_back s h.1) ∙ unless_space-visible c s visible

pub Digits-IsValue : (s : Bytes) → Digits s → IsValue s
Digits-IsValue s h = record {
  starts = Digits-skip_spaces s h;
  ends = Digits-skip_spaces_back s h;
  chars =
      All-map {P = λ c. (b'0' ≤ c) × (c ≤ b'9')} {Q = λ c. (c ≢ b'\n') × (c ≢ 0)}
        (λ c p. (λ same. omega (arith, p.0), λ same. omega (arith, p.0))) s h;
}

pub Digits-strip_quotes : (s : Bytes) → Digits s → strip_quotes 512 s ≡ s
unfolding strip_quotes
Digits-strip_quotes [] h = refl
Digits-strip_quotes (c ∷ []) h = refl
Digits-strip_quotes (c ∷ d ∷ s) h =
    let plain : is_quote c (split_last d s).1 ≡ false = ground (arith, h.0) in rw plain refl

pub Digits-color_text : (b : Bool) → Digits (color_text b)
Digits-color_text true = omega arith
Digits-color_text false = omega arith

pub color_text_short : (b : Bool) → length (color_text b) < 480
color_text_short true = omega arith
color_text_short false = omega arith
