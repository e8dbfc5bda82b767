-- ===== src/EventQueue/Event.antt =====
-- `YureiEvent` and `YureiEventKind` of include/event_queue.h.
use yurei_jsonrpc_client.Prelude.{ℕ, [], Bytes}

pub data EventKind : Type 0 where
  unknown pumpfun raydium : EventKind

-- The character arrays are the bytes before their terminator. `payload` holds the first `data_len`
-- bytes of the array `data`.
pub record Event : Type 0 where
  pub kind : EventKind
  pub program_id : Bytes
  pub signature : Bytes
  pub slot : ℕ
  pub payload : Bytes
  pub data_len : ℕ

abbrev pub payload_max : ℕ
payload_max = 4096

-- All bytes zero, as `calloc` and `memset` leave an event.
abbrev pub blank_event : Event
blank_event = record {
  kind = EventKind.unknown;
  program_id = [];
  signature = [];
  slot = 0;
  payload = [];
  data_len = 0;
}
