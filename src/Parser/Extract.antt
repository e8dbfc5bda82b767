-- ===== src/Parser/Extract.antt =====
-- The events of a message, described without the queue: what a message contains, in order.
use yurei_jsonrpc_client.Prelude.{
  ltb, option_case, ℕ, if◌then◌else◌, Option, none, some, List, [], ◌∷◌, ◌++◌, Bytes,
}
use yurei_jsonrpc_client.CString.{codes, after_first, skip_spaces}
use yurei_jsonrpc_client.Config.Fields.{Config}
use yurei_jsonrpc_client.EventQueue.Event.{Event}
use yurei_jsonrpc_client.Parser.Base64.{decode_base64}
use yurei_jsonrpc_client.Parser.Json.{CJson}
use yurei_jsonrpc_client.Parser.Message.{marker, make_event, string_of, slot_or, context_slot}

unfoldable pub collect : {A : Type 0} → (A → List Event) → List A → List Event
collect f [] = []
collect f (x ∷ xs) = f x ++ collect f xs

-- The payload behind the marker: none if only white space follows it, or if it cannot be decoded.
abbrev pub decoded : Bytes → Option Bytes
decoded [] = none
decoded (c ∷ text) = decode_base64 (c ∷ text)

-- The events of a log line, at most one.
unfoldable pub line_events : Config → Option Bytes → Option Bytes → ℕ → Bytes → List Event
line_events config program_id signature slot line = option_case (after_first marker line) [] λ rest.
    option_case (decoded (skip_spaces rest)) []
      λ bytes. make_event config program_id signature slot bytes ∷ []

-- The highest of a slot and those of some events.
abbrev pub highest : ℕ → List Event → ℕ
highest n [] = n
highest n (e ∷ es) = highest (if ltb n e.slot then e.slot else n) es

module _ (json : CJson) (config : Config) where
  open json use {Item, is_array, is_object, get_item, children}

  unfoldable pub log_events : Option Bytes → Option Bytes → ℕ → Item → List Event
  log_events program_id signature slot log =
      option_case (string_of json config (some log)) []
        (line_events config program_id signature slot)

  unfoldable pub logs_events : Option Item → Option Bytes → Option Bytes → ℕ → List Event
  logs_events none program_id signature slot = []
  logs_events (some logs) program_id signature slot =
      if is_array logs then collect (log_events program_id signature slot) (children logs) else []

  -- A value object gives its own slot, signature and program to the lines of its `logs`.
  unfoldable pub value_events : ℕ → Item → List Event
  value_events fallback_slot value =
      if is_object value
      then logs_events (get_item value (codes "logs"))
          (string_of json config (get_item value (codes "programId")))
          (string_of json config (get_item value (codes "signature")))
          (slot_or json config fallback_slot (get_item value (codes "slot")))
      else []

  -- A value, or an array of values.
  unfoldable pub values_events : ℕ → Option Item → List Event
  values_events slot none = []
  values_events slot (some value) =
      if is_object value
      then value_events slot value
      else if is_array value
      then collect (value_events slot) (children value)
      else []

  -- The slot of the context is the fallback for the values.
  unfoldable pub result_events : Item → List Event
  result_events result =
      values_events (context_slot json config (get_item result (codes "context")))
        (get_item result (codes "value"))

  abbrev pub object_events : Option Item → List Event
  object_events none = []
  object_events (some result) = if is_object result then result_events result else []

  abbrev pub params_events : Option Item → List Event
  params_events none = []
  params_events (some params) =
      if is_object params then object_events (get_item params (codes "result")) else []

  -- A response has its `result`, an object or an array of values; a notification its `params`.
  unfoldable pub message_events : Item → List Event
  message_events root =
      let params = params_events (get_item root (codes "params")) in
      option_case (get_item root (codes "result")) params λ result.
        if is_object result
        then result_events result
        else if is_array result
        then collect (value_events 0) (children result)
        else params
