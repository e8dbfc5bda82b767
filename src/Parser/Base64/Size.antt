-- ===== src/Parser/Base64/Size.antt =====
-- How many bytes the decoder writes, and when it gives up.
use yurei_jsonrpc_client.Prelude.{
  ◌^◌, refl, ◌%◌, Option, ℕ, ◌+◌, ◌-◌, ◌*◌, ◌/◌, ◌≤◌, ◌<◌, ◌≡◌, none, some, [], ◌∷◌, ◌++◌, arith,
  length, length-append, Bytes, Bool-cases, Option-cases, inl, inr, dec_lt,
}
use yurei_jsonrpc_client.EventQueue.Event.{payload_max}
use yurei_jsonrpc_client.CString.{is_space}
use yurei_jsonrpc_client.Parser.Base64.{int_mod, table_value, decode_loop, decode_base64}
use yurei_jsonrpc_client.Parser.Base64.Steps.{
  sextets, sextets_space, sextets_stop, sextets_value, decode_space, decode_stop, decode_held,
  decode_out, decode_full, decode_end,
}

-- What the loop has to end with: the whole bytes of `n` more characters behind `out`, or a refusal
-- where they do not fit.
abbrev Ends : Option Bytes → ℕ → ℕ → Type 0
Ends none total room = room < total
Ends (some o) total room = (total ≤ room) × (length o ≡ total)

abbrev goal : ℕ → ℕ → Bytes → ℕ
goal n held out = length out + (held + 6 * n) / 8

Ends-total : (o : Option Bytes) (m n room : ℕ) → m ≡ n → Ends o m room → Ends o n room
Ends-total o m n room e h = rw (← e) h

decode_loop-Ends :
    (cs : Bytes) (val held : ℕ) (out : Bytes)
    → held < 8
    → length out ≤ payload_max
    → Ends (decode_loop cs val held out) (goal (sextets cs) held out) payload_max
decode_loop-Ends [] val held out h room = unfold sextets in rw decode_end (omega arith, omega arith)
decode_loop-Ends (c ∷ cs) val held out h room = elim (Bool-cases (is_space c)) [
  | inl space ↦
      rw (decode_space c cs val held out space, sextets_space c cs space)
        (decode_loop-Ends cs val held out h room)
  | inr other ↦ elim (Option-cases (table_value c)) [
    | inl stop ↦
        rw (decode_stop c cs val held out other stop, sextets_stop c cs other stop)
          (omega arith, omega arith)
    | inr (d, e) ↦
        let val' : ℕ = (val * 64 + d) % int_mod in
        let out' : Bytes = out ++ (val' / 2 ^ (held + 6 - 8) % 256) ∷ [] in
        let grown = length-append out ((val' / 2 ^ (held + 6 - 8) % 256) ∷ []) in
        rw (sextets_value c cs other e) (elim (dec_lt (held + 6) 8) [
          | yes few ↦ rw (decode_held c cs val held out other e few) (
              Ends-total (decode_loop cs val' (held + 6) out) (goal (sextets cs) (held + 6) out) _
                payload_max (omega arith) (decode_loop-Ends cs val' (held + 6) out few room))
          | no enough ↦ elim (dec_lt (length out) payload_max) [
            | yes fits ↦ rw (decode_out c cs val held out other e (omega arith) fits) (
                Ends-total (decode_loop cs val' (held + 6 - 8) out')
                  (goal (sextets cs) (held + 6 - 8) out') _ payload_max (omega arith)
                  (decode_loop-Ends cs val' (held + 6 - 8) out' (omega arith) (omega arith)))
            | no full ↦
                rw (decode_full c cs val held out other e (omega arith) (omega arith)) (omega arith)
          ]
        ])
  ]
]

-- The decoder writes 6 bits for each character of the alphabet and each `=`, up to the first other
-- character that is no white space, as whole bytes; it refuses exactly the inputs for which those
-- bytes would not fit the payload.
pub decode_base64-length :
    (input : Bytes)
    → (sextets input * 6 / 8 ≤ payload_max
        → (o : Bytes) × (decode_base64 input ≡ some o) × (length o ≡ sextets input * 6 / 8))
      × (payload_max < sextets input * 6 / 8 → decode_base64 input ≡ none)
decode_base64-length input =
    read (decode_loop input 0 0 []) (unfold decode_base64 in refl)
      (decode_loop-Ends input 0 0 [] (omega arith) (omega arith))
  where
    read :
        (o : Option Bytes)
        → decode_base64 input ≡ o
        → Ends o (goal (sextets input) 0 []) payload_max
        → (sextets input * 6 / 8 ≤ payload_max
            → (o : Bytes) × (decode_base64 input ≡ some o) × (length o ≡ sextets input * 6 / 8))
          × (payload_max < sextets input * 6 / 8 → decode_base64 input ≡ none)
    read none e h = (λ fits. absurd (omega arith), λ full. e)
    read (some o) e h = (λ fits. (o, e, omega arith), λ full. absurd (omega arith))
