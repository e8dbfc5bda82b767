-- ===== src/Parser/Base64.antt =====
-- `init_base64_table` and `decode_base64` of src/parser.c.
pub mod Table
pub mod Steps
pub mod RoundTrip
pub mod Size
use yurei_jsonrpc_client.Prelude.{
  true, false, ℕ, suc, ◌+◌, ◌-◌, ◌*◌, ◌/◌, ◌%◌, ◌^◌, leb, if◌then◌else◌, Option, none, some, List,
  [], ◌∷◌, ◌++◌, length, get_or, set, replicate, Bytes,
}
use yurei_jsonrpc_client.CString.{codes, is_space}
use yurei_jsonrpc_client.EventQueue.Event.{payload_max}

abbrev pub alphabet : Bytes
alphabet = codes "ABCDEFGHIJKLMNOPQRSTUVWXYZabcdefghijklmnopqrstuvwxyz0123456789+/"

-- The loop over the alphabet, from its index `i` on. An entry -1 is `none`.
unfoldable pub fill_table : Bytes → ℕ → List (Option ℕ) → List (Option ℕ)
fill_table [] i table = table
fill_table (c ∷ cs) i table = fill_table cs (i + 1) (set table c (some i))

-- `base64_table` as `init_base64_table` leaves it.
unfoldable pub base64_table : List (Option ℕ)
unfolding fill_table
base64_table = set (fill_table alphabet 0 (replicate 256 none)) b'=' (some 0)

unfoldable pub table_value : ℕ → Option ℕ
unfolding base64_table
table_value c = get_or base64_table c none

-- The 32 bits of the int `val`. What a shift to the left pushes out is lost, and only the 13 lowest
-- bits are read.
abbrev pub int_mod : ℕ
int_mod = 2 ^ 32

-- The loop of `decode_base64` over the characters left: `held` is `bits + 8`, the number of bits
-- read and not yet written; `out` is what `output` holds. `none` is the return of `false`.
unfoldable pub decode_loop : Bytes → ℕ → ℕ → Bytes → Option Bytes
decode_loop [] val held out = some out
decode_loop (c ∷ cs) val held out = elim (is_space c) [
  | true ↦ decode_loop cs val held out
  | false ↦ elim (table_value c) [
    | none ↦ some out
    | some decoded ↦
        let val' = (val * 64 + decoded) % int_mod in
        let bits = held + 6 - 8 in
        elim (leb 8 (held + 6)) [
          | false ↦ decode_loop cs val' (held + 6) out
          | true ↦ elim (leb payload_max (length out)) [
            | true ↦ none
            | false ↦ decode_loop cs val' bits (out ++ (val' / 2 ^ bits % 256) ∷ [])
          ]
        ]
  ]
]

unfoldable pub decode_base64 : Bytes → Option Bytes
unfolding decode_loop table_value is_space
decode_base64 input = decode_loop input 0 0 []
