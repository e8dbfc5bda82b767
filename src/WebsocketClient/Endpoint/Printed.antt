-- ===== src/WebsocketClient/Endpoint/Printed.antt =====
-- Endpoints are read back from their text.
use yurei_jsonrpc_client.CString.Laws.{from-none, number, from-append, up_to-append, Digits}
use yurei_jsonrpc_client.Prelude.{
  All-map, ℕ, ◌+◌, ◌-◌, ◌*◌, ◌^◌, ◌≤◌, ◌<◌, ◌≡◌, ◌≢◌, refl, ap, ◌∙◌, append-nil, Bool, true, false,
  ◌&&◌, ◌||◌, leb, ◌==◌, some, [], ◌∷◌, ◌++◌, arith, length, take_all, Bytes, All,
}
use yurei_jsonrpc_client.CString.{
  from, up_to, codes, same_ignoring_case, skip_spaces, to_lower, is_space,
}
use yurei_jsonrpc_client.WebsocketClient.Endpoint.{
  digits_value, signed_value, atoi, host_and_port, path_or_root, endpoint_of, parse_endpoint,
}

-- The parts of a printed endpoint.
abbrev pub scheme_text : Bool → Bytes
scheme_text true = codes "wss://"
scheme_text false = codes "ws://"

abbrev pub default_port : Bool → ℕ
default_port true = 443
default_port false = 80

-- A text without slashes and colons.
abbrev pub Plain : Bytes → Type 0
Plain s = All (λ c. (c ≢ b'/') × (c ≢ b':')) s

-- Nothing, or a slash and more.
abbrev pub IsPath : Bytes → Type 0
IsPath [] = Unit
IsPath (c ∷ s) = c ≡ b'/'

abbrev pub whole_path : Bytes → Bytes
whole_path [] = codes "/"
whole_path (c ∷ s) = c ∷ s

up_to-path : (path : Bytes) → IsPath path → up_to b'/' path ≡ []
unfolding up_to
up_to-path [] h = refl
up_to-path (c ∷ s) h = rw h refl

from-path : (path : Bytes) → IsPath path → from b'/' path ≡ path
unfolding from
from-path [] h = refl
from-path (c ∷ s) h = rw h refl

path_or_root-whole : (path : Bytes) → length path < 256 → path_or_root path ≡ whole_path path
path_or_root-whole [] h = refl
path_or_root-whole (c ∷ s) h = take_all 255 (c ∷ s) (omega arith)

endpoint_of-some :
    (secure : Bool) (address : Bytes) (port : ℕ) (path : Bytes)
    → 0 < length address
    → length address < 256
    → length path < 256
    → endpoint_of secure (address, port) path
      ≡ some (record { address = address; path = whole_path path; port = port; secure = secure })
unfolding endpoint_of
endpoint_of-some secure address port path set' fits path_fits =
    let not_empty : (length address == 0) ≡ false = ground arith in
    let fits' : leb 256 (length address) ≡ false = ground arith in
    rw (not_empty, fits', path_or_root-whole path path_fits)

parse_endpoint-rest :
    (secure : Bool) (rest : Bytes)
    → parse_endpoint (scheme_text secure ++ rest)
      ≡ endpoint_of secure (host_and_port (default_port secure) rest) (from b'/' rest)
unfolding parse_endpoint same_ignoring_case to_lower
parse_endpoint-rest true rest = refl
parse_endpoint-rest false rest = refl

no_slash : (host : Bytes) → Plain host → All (λ c. c ≢ b'/') host
no_slash host plain =
    All-map {P = λ c. (c ≢ b'/') × (c ≢ b':')} {Q = λ c. c ≢ b'/'} (λ c h. h.0) host plain

no_colon : (host : Bytes) → Plain host → All (λ c. c ≢ b':') host
no_colon host plain =
    All-map {P = λ c. (c ≢ b'/') × (c ≢ b':')} {Q = λ c. c ≢ b':'} (λ c h. h.1) host plain

host_and_port-Plain :
    (port : ℕ) (host path : Bytes)
    → Plain host
    → IsPath path
    → host_and_port port (host ++ path) ≡ (host, port)
unfolding host_and_port
host_and_port-Plain port host path plain is_path =
    let upto : up_to b'/' (host ++ path) ≡ host =
      up_to-append b'/' host path (no_slash host plain)
      ∙ ap (λ (r : Bytes). host ++ r) (up_to-path path is_path)
      ∙ append-nil host in
    rw (upto, from-none b':' host (no_colon host plain)) refl

-- An endpoint written as scheme, host and path, the host not empty, without slash or colon and
-- shorter than 256 bytes, the path empty or from a slash on and shorter than 256 bytes, is read
-- back: the host, the path or a slash, and the port and the security of the scheme.
pub parse_endpoint-host :
    (secure : Bool) (host path : Bytes)
    → Plain host
    → 0 < length host
    → length host < 256
    → IsPath path
    → length path < 256
    → parse_endpoint (scheme_text secure ++ (host ++ path))
      ≡ some (record {
        address = host;
        path = whole_path path;
        port = default_port secure;
        secure = secure;
      })
parse_endpoint-host secure host path plain set' fits is_path path_fits =
    let onward : from b'/' (host ++ path) ≡ path =
      from-append b'/' host path (no_slash host plain) ∙ from-path path is_path in
    parse_endpoint-rest secure (host ++ path)
    ∙ rw (host_and_port-Plain (default_port secure) host path plain is_path, onward)
        (endpoint_of-some secure host (default_port secure) path set' fits path_fits)

digits_value-number :
    (ds rest : Bytes) (n : ℕ) → Digits ds → IsPath rest → digits_value (ds ++ rest) n ≡ number ds n
unfolding digits_value
digits_value-number [] [] n h p = refl
digits_value-number [] (c ∷ s) n h p = rw p refl
digits_value-number (d ∷ ds) rest n h p =
    let digit : (leb b'0' d && leb d b'9') ≡ true = ground (arith, h.0) in
    rw digit (digits_value-number ds rest (n * 10 + (d - b'0')) h.1 p)

atoi-number :
    (d : ℕ) (ds rest : Bytes)
    → Digits (d ∷ ds)
    → IsPath rest
    → number (d ∷ ds) 0 < 2 ^ 31
    → atoi ((d ∷ ds) ++ rest) ≡ number (d ∷ ds) 0
unfolding atoi signed_value skip_spaces is_space
atoi-number d ds rest h p small =
    let v = digits_value-number (d ∷ ds) rest 0 h p in
    let visible : (d == 32 || leb 9 d && leb d 13) ≡ false = ground (arith, h.0) in
    let plus : (d == b'+') ≡ false = ground (arith, h.0) in
    let minus : (d == b'-') ≡ false = ground (arith, h.0) in
    rw (visible, minus, plus) (omega (arith, v, small))

Digits-no_slash : (ds : Bytes) → Digits ds → All (λ c. c ≢ b'/') ds
Digits-no_slash ds h =
    All-map {P = λ c. (b'0' ≤ c) × (c ≤ b'9')} {Q = λ c. c ≢ b'/'}
      (λ c e. λ same. omega (arith, e.0)) ds h

host_and_port-colon :
    (port : ℕ) (host tail : Bytes)
    → Plain host
    → host_and_port port (host ++ b':' ∷ tail) ≡ (host, atoi tail)
unfolding host_and_port up_to from
host_and_port-colon port host tail plain =
    let upto = up_to-append b'/' host (b':' ∷ tail) (no_slash host plain) in
    let colon = from-append b':' host (b':' ∷ up_to b'/' tail) (no_colon host plain) in
    let before = up_to-append b':' host (b':' ∷ tail) (no_colon host plain) in
    let onward = from-append b':' host (b':' ∷ tail) (no_colon host plain) in
    rw (upto, colon, before, onward, append-nil host) refl

-- An endpoint written as scheme, host, colon, digits of a port and path, the host not empty,
-- without slash or colon and shorter than 256 bytes, the path empty or from a slash on and shorter
-- than 256 bytes, is read back with the number of the digits as its port, if that is below 2^31.
pub parse_endpoint-port :
    (secure : Bool) (host : Bytes) (d : ℕ) (ds path : Bytes)
    → Plain host
    → 0 < length host
    → length host < 256
    → Digits (d ∷ ds)
    → number (d ∷ ds) 0 < 2 ^ 31
    → IsPath path
    → length path < 256
    → parse_endpoint (scheme_text secure ++ (host ++ (b':' ∷ ((d ∷ ds) ++ path))))
      ≡ some (record {
        address = host;
        path = whole_path path;
        port = number (d ∷ ds) 0;
        secure = secure;
      })
parse_endpoint-port secure host d ds path plain set' fits digits small is_path path_fits =
    let tail = (d ∷ ds) ++ path in
    let onward : from b'/' (host ++ b':' ∷ tail) ≡ path =
      from-append b'/' host (b':' ∷ tail) (no_slash host plain)
      ∙ unfold from in
        (from-append b'/' (d ∷ ds) path (Digits-no_slash (d ∷ ds) digits)
          ∙ from-path path is_path) in
    let value : atoi tail ≡ number (d ∷ ds) 0 = atoi-number d ds path digits is_path small in
    parse_endpoint-rest secure (host ++ b':' ∷ tail)
    ∙ rw (host_and_port-colon (default_port secure) host tail plain, onward, value)
        (endpoint_of-some secure host (number (d ∷ ds) 0) path set' fits path_fits)
