-- ===== src/Parser/Message.antt =====
-- The functions of src/parser.c from `program_to_kind` on, over the queue that they push to. NULL is
-- `none`. The outer `none` of a result means that the schedule of the other threads ended before a
-- push returned.
use yurei_jsonrpc_client.Prelude.{
  ◌>>=◌, option_case, ℕ, ◌+◌, Bool, true, false, ◌&&◌, ltb, if◌then◌else◌, Option, none, some, List,
  [], ◌∷◌, length, Status, success, failure, Bytes,
}
use yurei_jsonrpc_client.CString.{codes, same_ignoring_case, after_first, skip_spaces, copy_string}
use yurei_jsonrpc_client.Config.Fields.{Config}
use yurei_jsonrpc_client.EventQueue.Event.{Event, EventKind, unknown, pumpfun, raydium}
use yurei_jsonrpc_client.EventQueue.Ring.{EventQueue, Schedule, push}
use yurei_jsonrpc_client.Parser.Base64.{decode_base64}
use yurei_jsonrpc_client.Parser.Json.{CJson, holds}

abbrev pub is_set : Bytes → Bool
is_set [] = false
is_set (c ∷ s) = true

unfoldable pub program_to_kind : Bytes → Config → EventKind
program_to_kind program_id config =
    if is_set config.pumpfun_program && same_ignoring_case program_id config.pumpfun_program
    then pumpfun
    else if is_set config.raydium_program && same_ignoring_case program_id config.raydium_program
    then raydium
    else unknown

-- `ParserContext` without its pointer to the configuration, the event count of the message, and
-- what the other threads are yet to do.
pub record Context : Type 0 where
  pub queue : EventQueue
  pub times : Schedule
  pub highest_slot : ℕ
  pub event_count : ℕ

abbrev pub marker : Bytes
marker = codes "Program data:"

abbrev pub or_empty : Option Bytes → Bytes
or_empty none = []
or_empty (some s) = s

-- The `YureiEvent` that `enqueue_event` fills in, with the payload `data`.
unfoldable pub make_event : Config → Option Bytes → Option Bytes → ℕ → Bytes → Event
make_event config program_id signature slot bytes = record {
  kind = program_to_kind (elim program_id [ none ↦ config.pumpfun_program | some p ↦ p ]) config;
  program_id = copy_string 64 (or_empty program_id);
  signature = copy_string 128 (or_empty signature);
  slot = slot;
  payload = bytes;
  data_len = length bytes;
}

-- What `enqueue_event` does once `yurei_queue_push` has returned.
unfoldable pub pushed : ℕ → Status × EventQueue × Schedule → Context → Context
pushed slot (success, queue, times) ctx = record {
  queue = queue;
  times = times;
  highest_slot = if ltb ctx.highest_slot slot then slot else ctx.highest_slot;
  event_count = ctx.event_count + 1;
}
pushed slot (failure, queue, times) ctx = record ctx { queue = queue; times = times }

unfoldable pub push_event : Event → Context → Option Context
push_event event ctx = do r ← push ctx.times ctx.queue event; some (pushed event.slot r ctx)

-- `enqueue_event` from the test `!*marker` on, with what follows the white space.
unfoldable pub enqueue_payload :
    Config → Option Bytes → Option Bytes → ℕ → Bytes → Context → Option Context
enqueue_payload config program_id signature slot [] ctx = some ctx
enqueue_payload config program_id signature slot (c ∷ text) ctx =
    option_case (decode_base64 (c ∷ text)) (some ctx)
      λ bytes. push_event (make_event config program_id signature slot bytes) ctx

unfoldable pub enqueue_event :
    Config → Option Bytes → Option Bytes → ℕ → Bytes → Context → Option Context
enqueue_event config program_id signature slot line ctx =
    option_case (after_first marker line) (some ctx)
      λ rest. enqueue_payload config program_id signature slot (skip_spaces rest) ctx

-- A loop over the items of an array.
unfoldable pub for_each :
    {A : Type 0} → (A → Context → Option Context) → List A → Context → Option Context
for_each body [] ctx = some ctx
for_each body (x ∷ xs) ctx = do ctx' ← body x ctx; for_each body xs ctx'

-- What `yurei_parser_handle_message` returns (`none` is -1) and leaves behind.
pub record Handled : Type 0 where
  pub code : Option ℕ
  pub queue : EventQueue
  pub times : Schedule
  pub out_highest_slot : Option ℕ

abbrev pub value_or_zero : Option ℕ → ℕ
value_or_zero none = 0
value_or_zero (some n) = n

-- `if (out_highest_slot) { *out_highest_slot = ctx.highest_slot; }`
abbrev pub written : Option ℕ → ℕ → Option ℕ
written none n = none
written (some old) n = some n

-- The end of `yurei_parser_handle_message`.
abbrev pub finished : Option ℕ → Context → Handled
finished out ctx = record {
  code = some ctx.event_count;
  queue = ctx.queue;
  times = ctx.times;
  out_highest_slot = written out ctx.highest_slot;
}

module _ (json : CJson) (config : Config) where
  open json use {
    Item, parse, is_array, is_object, is_string, is_number, get_item, children, valuestring,
    slot_value,
  }

  -- The member of an item that may be NULL.
  abbrev pub member : Option Item → Bytes → Option Item
  member none key = none
  member (some item) key = get_item item key

  -- The bytes of a string item, NULL for any other.
  abbrev pub string_of : Option Item → Option Bytes
  string_of none = none
  string_of (some item) = if is_string item then valuestring item else none

  -- `slot`, replaced by the value of the item if that is a number.
  abbrev pub slot_or : ℕ → Option Item → ℕ
  slot_or slot none = slot
  slot_or slot (some item) = if is_number item then slot_value item else slot

  -- The body of the loop of `process_logs_array`.
  unfoldable pub process_log : Option Bytes → Option Bytes → ℕ → Item → Context → Option Context
  process_log program_id signature slot log ctx =
      option_case (string_of (some log)) (some ctx)
        λ line. enqueue_event config program_id signature slot line ctx

  unfoldable pub process_logs_array :
      Option Item → Option Bytes → Option Bytes → ℕ → Context → Option Context
  process_logs_array none program_id signature slot ctx = some ctx
  process_logs_array (some logs) program_id signature slot ctx =
      if is_array logs
      then for_each (process_log program_id signature slot) (children logs) ctx
      else some ctx

  unfoldable pub process_value_object : ℕ → Item → Context → Option Context
  process_value_object fallback_slot value ctx =
      if is_object value
      then (let logs = get_item value (codes "logs") in
          let signature = get_item value (codes "signature") in
          let slot_item = get_item value (codes "slot") in
          let program = get_item value (codes "programId") in
          process_logs_array logs (string_of program) (string_of signature)
            (slot_or fallback_slot slot_item) ctx)
      else some ctx

  -- The slot of `result.context`, 0 without one.
  unfoldable pub context_slot : Option Item → ℕ
  context_slot none = 0
  context_slot (some context) =
      if is_object context then slot_or 0 (get_item context (codes "slot")) else 0

  unfoldable pub process_value : ℕ → Option Item → Context → Option Context
  process_value slot none ctx = some ctx
  process_value slot (some value) ctx =
      if is_object value
      then process_value_object (slot_or slot (get_item value (codes "slot"))) value ctx
      else if is_array value
      then for_each (process_value_object slot) (children value) ctx
      else some ctx

  unfoldable pub process_result_object : Item → Context → Option Context
  process_result_object result ctx =
      process_value (context_slot (get_item result (codes "context")))
        (get_item result (codes "value")) ctx

  -- The part of `yurei_parser_handle_message` that looks at `params`.
  unfoldable pub process_params : Option Item → Context → Option Context
  process_params params ctx =
      if holds is_object params
      then option_case (member params (codes "result")) (some ctx)
          (λ result. if is_object result then process_result_object result ctx else some ctx)
      else some ctx

  unfoldable pub process_root : Item → Context → Option Context
  process_root root ctx =
      let params = process_params (get_item root (codes "params")) ctx in
      option_case (get_item root (codes "result")) params λ result.
        if is_object result
        then process_result_object result ctx
        else if is_array result
        then for_each (process_value_object 0) (children result) ctx
        else params

  -- `yurei_parser_handle_message`. The last argument is what `out_highest_slot` points to.
  unfoldable pub handle_message : Bytes → EventQueue → Schedule → Option ℕ → Option Handled
  handle_message text queue times out_highest_slot =
      let unread : Handled = record {
        code = none;
        queue = queue;
        times = times;
        out_highest_slot = out_highest_slot;
      } in
      let ctx : Context = record {
        queue = queue;
        times = times;
        highest_slot = value_or_zero out_highest_slot;
        event_count = 0;
      } in
      option_case (parse text) (some unread)
        λ root. do done ← process_root root ctx; some (finished out_highest_slot done)
