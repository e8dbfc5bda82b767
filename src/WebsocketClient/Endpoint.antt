-- ===== src/WebsocketClient/Endpoint.antt =====
-- `parse_endpoint`. The result `none` is -1.
pub mod Printed
use yurei_jsonrpc_client.Prelude.{
  ℕ, zero, suc, ◌+◌, ◌-◌, ◌*◌, ◌%◌, ◌^◌, ◌≤◌, ◌<◌, ◌≡◌, ◌≢◌, min, refl, ap, ◌∙◌, sym, append-nil,
  Bool, true, false, not, ◌&&◌, ◌||◌, leb, ltb, ◌==◌, if◌then◌else◌, Option, none, some, List, [],
  ◌∷◌, ◌++◌, arith, length, take, take_all, Bytes, All, option_case, ◌>>=◌,
}
use yurei_jsonrpc_client.CString.{
  rest_of, from, up_to, codes, copy_string, after_prefix, same_ignoring_case, skip_spaces, to_lower,
  is_space,
}

pub record WsEndpoint : Type 0 where
  pub address : Bytes
  pub path : Bytes
  pub port : ℕ
  pub secure : Bool

-- What stands before the first occurrence of a needle, and what stands behind it: `strstr`.
abbrev pub behind : ℕ → Option (Bytes × Bytes) → Option (Bytes × Bytes)
behind c none = none
behind c (some (before, rest)) = some (c ∷ before, rest)

unfoldable pub split_at_first : Bytes → Bytes → Option (Bytes × Bytes)
unfolding after_prefix
split_at_first needle [] = do rest ← after_prefix needle []; some ([], rest)
split_at_first needle (c ∷ s) =
    let later = behind c (split_at_first needle s) in
    option_case (after_prefix needle (c ∷ s)) later λ rest. some ([], rest)

-- The value of the leading digits, behind `n`.
unfoldable pub digits_value : Bytes → ℕ → ℕ
digits_value [] n = n
digits_value (c ∷ s) n =
    let rest = digits_value s (n * 10 + (c - b'0')) in if leb b'0' c && leb c b'9' then rest else n

-- The low 32 bits of the value of `strtol`, which stops at the ends of the 64-bit range.
unfoldable pub signed_value : Bytes → ℕ
unfolding digits_value
signed_value [] = 0
signed_value (c ∷ s) =
    if c == b'-'
    then (2 ^ 64 - min (digits_value s 0) (2 ^ 63)) % 2 ^ 32
    else if c == b'+'
    then min (digits_value s 0) (2 ^ 63 - 1) % 2 ^ 32
    else min (digits_value (c ∷ s) 0) (2 ^ 63 - 1) % 2 ^ 32

-- `atoi`, as the 32 bits of its int. Out of the range of an int the C standard leaves the value open;
-- there it is what glibc gives, `(int) strtol(s, NULL, 10)`.
unfoldable pub atoi : Bytes → ℕ
unfolding signed_value skip_spaces
atoi s = signed_value (skip_spaces s)

-- Whether the connection is secure, and the default port.
unfoldable pub scheme_of : Bytes → Option (Bool × ℕ)
scheme_of scheme =
    if leb 8 (length scheme)
    then none
    else if same_ignoring_case scheme (codes "wss")
    then some (true, 443)
    else if same_ignoring_case scheme (codes "ws")
    then some (false, 80)
    else none

-- The first of two values without a character, the second with one.
abbrev pub found_or {ℓ} : {A : Type ℓ} → A → A → Bytes → A
found_or absent present [] = absent
found_or absent present (c ∷ s) = present

-- The host, and the port if the part before the path has a colon; `atoi` would read on into the path.
unfoldable pub host_and_port : ℕ → Bytes → Bytes × ℕ
unfolding up_to from atoi
host_and_port default_port host_start =
    let authority = up_to b'/' host_start in
    found_or (authority, default_port)
      (up_to b':' host_start, atoi (rest_of (from b':' host_start))) (from b':' authority)

abbrev pub path_or_root : Bytes → Bytes
path_or_root [] = codes "/"
path_or_root (c ∷ s) = copy_string 256 (c ∷ s)

-- The end of the function, from the test of the host's length on.
unfoldable pub endpoint_of : Bool → Bytes × ℕ → Bytes → Option WsEndpoint
endpoint_of secure (address, port) path =
    if length address == 0
    then none
    else if leb 256 (length address)
    then none
    else some (record { address = address; path = path_or_root path; port = port; secure = secure })

unfoldable pub parse_endpoint : Bytes → Option WsEndpoint
unfolding split_at_first scheme_of host_and_port endpoint_of from
parse_endpoint url = do
  (scheme, host_start) ← split_at_first (codes "://") url
  (secure, default_port) ← scheme_of scheme
  endpoint_of secure (host_and_port default_port host_start) (from b'/' host_start)
