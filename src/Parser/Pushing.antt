-- ===== src/Parser/Pushing.antt =====
-- The parser pushes the events of a message, each once and in order.
use mathlib.Core.Path.{fun_ext}
use yurei_jsonrpc_client.Prelude.{
  ap, option_case, ◌>>=◌, ℕ, ◌≡◌, refl, ◌∙◌, if◌then◌else◌, Option, none, some, List, [], ◌∷◌, ◌++◌,
  Bytes, Bool-cases, Option-cases, inl, inr, arith,
}
use yurei_jsonrpc_client.CString.{codes, after_first, skip_spaces}
use yurei_jsonrpc_client.Config.Fields.{Config}
use yurei_jsonrpc_client.EventQueue.Event.{Event}
use yurei_jsonrpc_client.Parser.Base64.{decode_base64}
use yurei_jsonrpc_client.Parser.Json.{CJson}
use yurei_jsonrpc_client.Parser.Message.{
  Context, marker, make_event, push_event, enqueue_payload, enqueue_event, for_each, string_of,
  slot_or, process_log, process_logs_array, process_value_object, process_value,
  process_result_object, process_params, process_root,
}
use yurei_jsonrpc_client.Parser.Extract.{
  params_events, object_events, decoded, collect, line_events, log_events, logs_events,
  value_events, values_events, result_events, message_events,
}

abbrev pub push_all : List Event → Context → Option Context
push_all = for_each push_event

push_all-append :
    (xs ys : List Event) (ctx : Context)
    → push_all (xs ++ ys) ctx ≡ (push_all xs ctx >>= push_all ys)
unfolding for_each
push_all-append [] ys ctx = refl
push_all-append (x ∷ xs) ys ctx = elim (Option-cases (push_event x ctx)) [
  | inl stuck ↦ rw stuck
  | inr (ctx', e) ↦ rw e (push_all-append xs ys ctx')
]

for_each-collect :
    {A : Type 0} (body : A → Context → Option Context) (f : A → List Event)
    → ((x : A) (ctx : Context) → body x ctx ≡ push_all (f x) ctx)
    → (xs : List A) (ctx : Context) → for_each body xs ctx ≡ push_all (collect f xs) ctx
unfolding for_each collect
for_each-collect body f same [] ctx = refl
for_each-collect body f same (x ∷ xs) ctx =
    rw (push_all-append (f x) (collect f xs) ctx, same x ctx)
      (ap (λ (k : Context → Option Context). push_all (f x) ctx >>= k)
        (fun_ext (for_each-collect body f same xs)))

push_all-single : (event : Event) (ctx : Context) → push_all (event ∷ []) ctx ≡ push_event event ctx
unfolding for_each
push_all-single event ctx = elim (Option-cases (push_event event ctx)) [
  | inl stuck ↦ rw stuck
  | inr (ctx', e) ↦ rw e
]

module _ (config : Config) (program_id signature : Option Bytes) (slot : ℕ) where
  payload_pushed :
      (text : Bytes) (ctx : Context)
      → enqueue_payload config program_id signature slot text ctx
        ≡ push_all
            (option_case
              (decoded text)
              []
              (λ bytes. make_event config program_id signature slot bytes ∷ []))
            ctx
  payload_pushed [] ctx = unfold enqueue_payload for_each in refl
  payload_pushed (c ∷ text) ctx = elim (Option-cases (decode_base64 (c ∷ text))) [
    | inl refused ↦ unfold enqueue_payload for_each in rw refused
    | inr (bytes, e) ↦ rw (e, push_all-single) (unfold enqueue_payload in rw e)
  ]

  line_pushed :
      (line : Bytes) (ctx : Context)
      → enqueue_event config program_id signature slot line ctx
        ≡ push_all (line_events config program_id signature slot line) ctx
  unfolding enqueue_event line_events
  line_pushed line ctx = elim (Option-cases (after_first marker line)) [
    | inl absent ↦ rw absent (unfold for_each in refl)
    | inr (rest, e) ↦ rw e (payload_pushed (skip_spaces rest) ctx)
  ]

module _ (json : CJson) (config : Config) where
  open json use {Item, is_array, is_object, get_item, children}

  log_pushed :
      (program_id signature : Option Bytes) (slot : ℕ) (log : Item) (ctx : Context)
      → process_log json config program_id signature slot log ctx
        ≡ push_all (log_events json config program_id signature slot log) ctx
  unfolding process_log log_events
  log_pushed program_id signature slot log ctx =
      elim (Option-cases (string_of json config (some log))) [
        | inl other ↦ rw other (unfold for_each in refl)
        | inr (line, e) ↦ rw e (line_pushed config program_id signature slot line ctx)
      ]

  logs_pushed :
      (logs : Option Item) (program_id signature : Option Bytes) (slot : ℕ) (ctx : Context)
      → process_logs_array json config logs program_id signature slot ctx
        ≡ push_all (logs_events json config logs program_id signature slot) ctx
  unfolding process_logs_array logs_events
  logs_pushed none program_id signature slot ctx = unfold for_each in refl
  logs_pushed (some logs) program_id signature slot ctx = elim (Bool-cases (is_array logs)) [
    | inl array ↦
        rw array (for_each-collect _ _ (log_pushed program_id signature slot) (children logs) ctx)
    | inr other ↦ rw other (unfold for_each in refl)
  ]

  value_pushed :
      (slot : ℕ) (value : Item) (ctx : Context)
      → process_value_object json config slot value ctx
        ≡ push_all (value_events json config slot value) ctx
  unfolding process_value_object value_events
  value_pushed slot value ctx = elim (Bool-cases (is_object value)) [
    | inl object ↦ rw object (logs_pushed (get_item value (codes "logs")) _ _ _ ctx)
    | inr other ↦ rw other (unfold for_each in refl)
  ]

  slot_or_idem :
      (slot : ℕ) (o : Option Item)
      → slot_or json config (slot_or json config slot o) o ≡ slot_or json config slot o
  slot_or_idem slot none = refl
  slot_or_idem slot (some item) = ground arith

  -- `process_result_object` reads the slot of a value object, and then the value object does again.
  value_events_slot :
      (slot : ℕ) (value : Item)
      → value_events json config (slot_or json config slot (get_item value (codes "slot"))) value
        ≡ value_events json config slot value
  unfolding value_events
  value_events_slot slot value = rw (slot_or_idem slot (get_item value (codes "slot")))

  values_pushed :
      (slot : ℕ) (value : Option Item) (ctx : Context)
      → process_value json config slot value ctx
        ≡ push_all (values_events json config slot value) ctx
  unfolding process_value values_events
  values_pushed slot none ctx = unfold for_each in refl
  values_pushed slot (some value) ctx = elim (Bool-cases (is_object value)) [
    | inl object ↦ rw object (
        value_pushed _ value ctx
        ∙ ap (λ (es : List Event). push_all es ctx) (value_events_slot slot value))
    | inr other ↦ rw other (elim (Bool-cases (is_array value)) [
      | inl array ↦ rw array (for_each-collect _ _ (value_pushed slot) (children value) ctx)
      | inr neither ↦ rw neither (unfold for_each in refl)
    ])
  ]

  result_pushed :
      (result : Item) (ctx : Context)
      → process_result_object json config result ctx
        ≡ push_all (result_events json config result) ctx
  unfolding process_result_object result_events
  result_pushed result ctx = values_pushed _ (get_item result (codes "value")) ctx

  object_pushed :
      (result : Option Item) (ctx : Context)
      → option_case result
          (some ctx)
          (λ r. if is_object r then process_result_object json config r ctx else some ctx)
        ≡ push_all (object_events json config result) ctx
  object_pushed none ctx = unfold for_each in refl
  object_pushed (some result) ctx = elim (Bool-cases (is_object result)) [
    | inl object ↦ rw object (result_pushed result ctx)
    | inr other ↦ rw other (unfold for_each in refl)
  ]

  params_pushed :
      (params : Option Item) (ctx : Context)
      → process_params json config params ctx ≡ push_all (params_events json config params) ctx
  unfolding process_params
  params_pushed none ctx = unfold for_each in refl
  params_pushed (some params) ctx = elim (Bool-cases (is_object params)) [
    | inl object ↦ rw object (object_pushed (get_item params (codes "result")) ctx)
    | inr other ↦ rw other (unfold for_each in refl)
  ]

  -- Whatever the shape of a message, the parser does to the queue, the highest slot and the count
  -- what pushing the events of the message, each once and in order, does.
  pub process_root-message_events :
      (root : Item) (ctx : Context)
      → process_root json config root ctx ≡ push_all (message_events json config root) ctx
  unfolding process_root message_events
  process_root-message_events root ctx = elim (Option-cases (get_item root (codes "result"))) [
    | inl absent ↦ rw absent (params_pushed (get_item root (codes "params")) ctx)
    | inr (result, e) ↦ rw e (elim (Bool-cases (is_object result)) [
      | inl object ↦ rw object (result_pushed result ctx)
      | inr other ↦ rw other (elim (Bool-cases (is_array result)) [
        | inl array ↦ rw array (for_each-collect _ _ (value_pushed 0) (children result) ctx)
        | inr neither ↦ rw neither (params_pushed (get_item root (codes "params")) ctx)
      ])
    ])
  ]
