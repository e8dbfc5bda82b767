-- ===== src/HttpPoller/Request.antt =====
-- The request that a round of the poller sends.
use yurei_jsonrpc_client.CString.Numbers.{length-print_u64}
use yurei_jsonrpc_client.Prelude.{
  ℕ, zero, suc, ◌≤◌, ◌<◌, ◌≡◌, ap, ◌∙◌, ◌++◌, arith, length, length-append, take_all, Bytes,
}
use yurei_jsonrpc_client.CString.{codes, copy_string, print_u64}
use yurei_jsonrpc_client.Config.Fields.{Config}
use yurei_jsonrpc_client.Mentions.{
  mentions, build_mentions_array, build_mentions_array-mentions, length-mentions,
}

-- The text of the format strings, for an array of programs.
abbrev pub request_text : Bytes → ℕ → Bytes
request_text programs zero =
    codes "{\"jsonrpc\":\"2.0\",\"id\":1,\"method\":\"getLogs\",\"params\":[{\"mentions\":"
    ++ (programs ++ codes ",\"limit\":50},{\"commitment\":\"confirmed\"}]}")
request_text programs (suc slot) =
    codes "{\"jsonrpc\":\"2.0\",\"id\":1,\"method\":\"getLogs\",\"params\":[{\"mentions\":"
    ++ (programs
        ++ (codes ",\"startSlot\":"
            ++ (print_u64 (suc slot) ++ codes ",\"limit\":50},{\"commitment\":\"confirmed\"}]}")))

-- `payload`, an array of 512 characters.
unfoldable pub build_payload : Config → ℕ → Bytes
build_payload config last_slot =
    copy_string 512 (request_text (build_mentions_array config 256) last_slot)

-- The request text fits its array.
length-request_text :
    (programs : Bytes) (slot : ℕ)
    → length programs ≤ 133
    → length (request_text programs slot) < 512
length-request_text programs zero h =
    omega (arith, length-append programs (codes ",\"limit\":50},{\"commitment\":\"confirmed\"}]}"))
length-request_text programs (suc slot) h =
    let tail = codes ",\"limit\":50},{\"commitment\":\"confirmed\"}]}" in
    let digits = print_u64 (suc slot) in
    let middle = codes ",\"startSlot\":" ++ (digits ++ tail) in
    omega (
      arith,
      length-print_u64 (suc slot),
      length-append programs middle,
      length-append digits tail,
      length-append (codes ",\"startSlot\":") (digits ++ tail),
    )

-- With program ids that fit their arrays of 64 bytes, the request names the configured programs
-- and the last slot whole: nothing of it is cut off.
pub build_payload-request :
    (config : Config) (last_slot : ℕ)
    → length config.pumpfun_program < 64
    → length config.raydium_program < 64
    → build_payload config last_slot
      ≡ request_text (mentions config.pumpfun_program config.raydium_program) last_slot
unfolding build_payload
build_payload-request config last_slot hp hr =
    let whole = build_mentions_array-mentions config hp hr in
    let short = length-mentions config.pumpfun_program config.raydium_program hp hr in
    ap (λ (m : Bytes). copy_string 512 (request_text m last_slot)) whole
    ∙ take_all 511 (request_text (mentions config.pumpfun_program config.raydium_program) last_slot)
        (omega (
          arith,
          length-request_text (mentions config.pumpfun_program config.raydium_program) last_slot
              short,
        ))
