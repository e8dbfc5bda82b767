-- ===== src/Parser/Tests.antt =====
-- Runs of the decoder and the parser on concrete inputs, and the theorems at such inputs.
use yurei_jsonrpc_client.Prelude.{
  ◌≤◌, ◌<◌, ◌≡◌, ◌≢◌, ◌↔◌, refl, true, none, some, [], ◌∷◌, arith, replicate, length, Bytes, All,
  ◌*◌, ◌/◌,
}
use yurei_jsonrpc_client.CString.{codes, same_ignoring_case}
use yurei_jsonrpc_client.EventQueue.Event.{payload_max, pumpfun, raydium}
use yurei_jsonrpc_client.Parser.Base64.{decode_base64}
use yurei_jsonrpc_client.Parser.Base64.Steps.{sextets}
use yurei_jsonrpc_client.Parser.Base64.RoundTrip.{encode, padding, decode_base64-encode}
use yurei_jsonrpc_client.Parser.Base64.Size.{decode_base64-length}
use yurei_jsonrpc_client.Parser.Message.{
  Context, Handled, handle_message, process_root, program_to_kind, is_set,
}
use yurei_jsonrpc_client.Parser.Extract.{message_events, value_events}
use yurei_jsonrpc_client.Parser.Pushing.{push_all, process_root-message_events}
use yurei_jsonrpc_client.Parser.Handling.{Accepted, handle_message-accepts}
use yurei_jsonrpc_client.Parser.Bounds.{Bounded, handle_message-Bounded}
use yurei_jsonrpc_client.Parser.Kinds.{
  FitsArrays, message_events-FitsArrays, value_events-pumpfun, program_to_kind_lem,
}
use yurei_jsonrpc_client.Parser.Sample.{
  tree_json, config, notification, empty_queue, notification_events, value,
}

decode_hi : decode_base64 (codes "aGk=\n") ≡ some (b'h' ∷ b'i' ∷ 0 ∷ [])
unfolding decode_base64
decode_hi = refl

decode_stops : decode_base64 (codes "aG k!aG") ≡ some (b'h' ∷ b'i' ∷ [])
unfolding decode_base64
decode_stops = refl

decode_base64-encode_example :
    decode_base64 (encode (b'h' ∷ b'i' ∷ [])) ≡ some (b'h' ∷ b'i' ∷ 0 ∷ [])
unfolding encode padding
decode_base64-encode_example = decode_base64-encode (b'h' ∷ b'i' ∷ []) (omega arith) (omega arith)

decode_base64-length_example :
    (sextets (codes "aGk=") * 6 / 8 ≤ payload_max
      → (o : Bytes) × (decode_base64 (codes "aGk=") ≡ some o)
        × (length o ≡ sextets (codes "aGk=") * 6 / 8))
    × (payload_max < sextets (codes "aGk=") * 6 / 8 → decode_base64 (codes "aGk=") ≡ none)
decode_base64-length_example = decode_base64-length (codes "aGk=")

abbrev start : Context
start = record { queue = empty_queue; times = [] ∷ []; highest_slot = 7; event_count = 0 }

process_root-message_events_example :
    process_root tree_json config notification start
    ≡ push_all (message_events tree_json config notification) start
process_root-message_events_example =
    process_root-message_events tree_json config notification start

handle_message-accepts_example :
    (h : Handled) × (handle_message tree_json config
        (codes "{}")
        empty_queue
        (replicate (length (message_events tree_json config notification)) [])
        (some 7)
      ≡ some h)
    × Accepted (message_events tree_json config notification) empty_queue (some 7) h
handle_message-accepts_example =
    handle_message-accepts tree_json config (codes "{}") notification empty_queue (some 7) refl
      (omega arith) refl (rw notification_events (omega arith))

-- The call that both examples are about.
accepted :
    (h : Handled) × (handle_message tree_json config
        (codes "{}")
        empty_queue
        (replicate (length (message_events tree_json config notification)) [])
        (some 7)
      ≡ some h)
    × Accepted (message_events tree_json config notification) empty_queue (some 7) h
accepted =
    handle_message-accepts tree_json config (codes "{}") notification empty_queue (some 7) refl
      (omega arith) refl (rw notification_events (omega arith))

abbrev handled : Handled
handled = accepted.0

handle_message-Bounded_example :
    Bounded (message_events tree_json config notification) (some 7) handled
handle_message-Bounded_example =
    handle_message-Bounded tree_json config (codes "{}") notification empty_queue
      (replicate (length (message_events tree_json config notification)) []) (some 7) handled refl
      (omega arith) accepted.1

message_events-FitsArrays_example : All FitsArrays (message_events tree_json config notification)
message_events-FitsArrays_example = message_events-FitsArrays tree_json config notification

value_events-pumpfun_example : All (λ e. e.kind ≡ pumpfun) (value_events tree_json config 42 value)
value_events-pumpfun_example = value_events-pumpfun tree_json config 42 value refl refl

kinds_in_other_case :
    ((program_to_kind (codes "675K") config ≡ pumpfun) ↔ (
      (is_set (codes "6EF8") ≡ true) × (same_ignoring_case (codes "675K") (codes "6EF8") ≡ true)))
    × ((program_to_kind (codes "675K") config ≡ raydium) ↔ (
        (is_set (codes "675k") ≡ true)
        × (same_ignoring_case (codes "675K") (codes "675k") ≡ true)
        × (program_to_kind (codes "675K") config ≢ pumpfun)))
kinds_in_other_case = program_to_kind_lem (codes "675K") config
