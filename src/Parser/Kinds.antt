-- ===== src/Parser/Kinds.antt =====
-- What is true of every event that a message gives: its sizes, and its kind.
use yurei_jsonrpc_client.Prelude.{
  ◌∙◌, ◌≢◌, sym, ◌↔◌, eq_of_some, ◌/◌, ◌*◌, ℕ, ◌≤◌, ◌<◌, ◌≡◌, refl, true, Option, none, some, List,
  [], ◌∷◌, Bytes, Bool-cases, Option-cases, inl, inr, arith, length, All, All-append, option_case,
  length-take, dec_le,
}
use yurei_jsonrpc_client.CString.{codes, same_ignoring_case, after_first, skip_spaces}
use yurei_jsonrpc_client.CString.Laws.{same_ignoring_case_refl}
use yurei_jsonrpc_client.Config.Fields.{Config}
use yurei_jsonrpc_client.EventQueue.Event.{Event, pumpfun, raydium, payload_max}
use yurei_jsonrpc_client.Parser.Base64.{decode_base64}
use yurei_jsonrpc_client.Parser.Base64.Steps.{sextets}
use yurei_jsonrpc_client.Parser.Base64.Size.{decode_base64-length}
use yurei_jsonrpc_client.Parser.Json.{CJson}
use yurei_jsonrpc_client.Parser.Message.{
  is_set, or_empty, program_to_kind, make_event, marker, string_of, context_slot,
}
use yurei_jsonrpc_client.Parser.Extract.{
  collect, decoded, line_events, log_events, logs_events, value_events, values_events,
  result_events, object_events, params_events, message_events,
}

-- The event fits the arrays of `YureiEvent`, and `data_len` counts the bytes of the payload.
pub record FitsArrays (e : Event) : Type 0 where
  pub program_id_fits : length e.program_id < 64
  pub signature_fits : length e.signature < 128
  pub payload_fits : e.data_len ≤ payload_max
  pub payload_len : length e.payload ≡ e.data_len

collect-All :
    {A : Type 0} (P : Event → Type 0) (f : A → List Event)
    → ((x : A) → All P (f x))
    → (xs : List A) → All P (collect f xs)
unfolding collect
collect-All P f h [] = tt
collect-All P f h (x ∷ xs) = All-append P (f x) (collect f xs) (h x) (collect-All P f h xs)

decode_base64-le :
    (text bytes : Bytes) → decode_base64 text ≡ some bytes → length bytes ≤ payload_max
decode_base64-le text bytes e = elim (dec_le (sextets text * 6 / 8) payload_max) [
  | yes fits ↦
      let (o, e', n) = (decode_base64-length text).0 fits in
      (let same : bytes ≡ o = eq_of_some (sym e ∙ e') in rw same (rw n fits))
  | no full ↦
      let refused : none ≡ some bytes = sym ((decode_base64-length text).1 (omega arith)) ∙ e in cc
]

module _ (json : CJson) (config : Config) (P : Event → Type 0) where
  open json use {Item, is_array, is_object, get_item, children}

  -- `P` holds of the events that are made for a program.
  abbrev Made : Option Bytes → Type 0
  Made program_id =
      (signature : Option Bytes) (slot : ℕ) (bytes : Bytes)
      → length bytes ≤ payload_max
      → P (make_event config program_id signature slot bytes)

  text_All :
      (program_id signature : Option Bytes) (slot : ℕ) (text : Bytes)
      → Made program_id
      → All P (
          option_case
            (decoded text)
            []
            (λ bytes. make_event config program_id signature slot bytes ∷ []))
  text_All program_id signature slot [] made = tt
  text_All program_id signature slot (c ∷ text) made =
      elim (Option-cases (decode_base64 (c ∷ text))) [
        | inl refused ↦ rw refused tt
        | inr (bytes, e) ↦
            rw e (made signature slot bytes (decode_base64-le (c ∷ text) bytes e), tt)
      ]

  log_All :
      (program_id signature : Option Bytes) (slot : ℕ) (log : Item)
      → Made program_id
      → All P (log_events json config program_id signature slot log)
  unfolding log_events line_events
  log_All program_id signature slot log made =
      elim (Option-cases (string_of json config (some log))) [
        | inl other ↦ rw other tt
        | inr (line, e) ↦ rw e (elim (Option-cases (after_first marker line)) [
          | inl absent ↦ rw absent tt
          | inr (rest, r) ↦ rw r (text_All program_id signature slot (skip_spaces rest) made)
        ])
      ]

  logs_All :
      (logs : Option Item) (program_id signature : Option Bytes) (slot : ℕ)
      → Made program_id
      → All P (logs_events json config logs program_id signature slot)
  unfolding logs_events
  logs_All none program_id signature slot made = tt
  logs_All (some logs) program_id signature slot made = elim (Bool-cases (is_array logs)) [
    | inl array ↦
        rw array
          (collect-All P _ (λ log. log_All program_id signature slot log made) (children logs))
    | inr other ↦ rw other tt
  ]

  pub value_All :
      (slot : ℕ) (value : Item)
      → Made (string_of json config (get_item value (codes "programId")))
      → All P (value_events json config slot value)
  unfolding value_events
  value_All slot value made = elim (Bool-cases (is_object value)) [
    | inl object ↦ rw object (logs_All (get_item value (codes "logs")) _ _ _ made)
    | inr other ↦ rw other tt
  ]

  module _ (made : (program_id : Option Bytes) → Made program_id) where
    result_All : (result : Item) → All P (result_events json config result)
    unfolding result_events
    result_All result = values (get_item result (codes "value"))
      where
        values :
            (value : Option Item)
            → All P (
                values_events json config
                  (context_slot json config (get_item result (codes "context")))
                  value)
        values none = unfold values_events in tt
        values (some value) =
            unfold values_events in
            elim (Bool-cases (is_object value)) [
              | inl object ↦ rw object (value_All _ value (made _))
              | inr other ↦ rw other (elim (Bool-cases (is_array value)) [
                | inl array ↦
                    rw array (collect-All P _ (λ v. value_All _ v (made _)) (children value))
                | inr neither ↦ rw neither tt
              ])
            ]

    object_All : (result : Option Item) → All P (object_events json config result)
    object_All none = tt
    object_All (some result) = elim (Bool-cases (is_object result)) [
      | inl object ↦ rw object (result_All result)
      | inr other ↦ rw other tt
    ]

    params_All : (params : Option Item) → All P (params_events json config params)
    params_All none = tt
    params_All (some params) = elim (Bool-cases (is_object params)) [
      | inl object ↦ rw object (object_All (get_item params (codes "result")))
      | inr other ↦ rw other tt
    ]

    pub message_All : (root : Item) → All P (message_events json config root)
    unfolding message_events
    message_All root = elim (Option-cases (get_item root (codes "result"))) [
      | inl absent ↦ rw absent (params_All (get_item root (codes "params")))
      | inr (result, e) ↦ rw e (elim (Bool-cases (is_object result)) [
        | inl object ↦ rw object (result_All result)
        | inr other ↦ rw other (elim (Bool-cases (is_array result)) [
          | inl array ↦ rw array (collect-All P _ (λ v. value_All 0 v (made _)) (children result))
          | inr neither ↦ rw neither (params_All (get_item root (codes "params")))
        ])
      ])
    ]

-- Every event of every message fits the character arrays and the payload array of an event, and
-- its length field counts its payload.
pub message_events-FitsArrays :
    (json : CJson) (config : Config) (root : json.Item)
    → All FitsArrays (message_events json config root)
message_events-FitsArrays json config =
    message_All json config FitsArrays (λ program_id signature slot bytes fits.
      unfold make_event in
      record {
        program_id_fits = omega (arith, length-take 63 (or_empty program_id));
        signature_fits = omega (arith, length-take 127 (or_empty signature));
        payload_fits = fits;
        payload_len = refl;
      })

-- With a PumpFun program configured, every event of a value object without `programId` is filed as
-- a PumpFun event, whatever program wrote the logs.
pub value_events-pumpfun :
    (json : CJson) (config : Config) (slot : ℕ) (value : json.Item)
    → is_set config.pumpfun_program ≡ true
    → json.get_item value (codes "programId") ≡ none
    → All (λ e. e.kind ≡ pumpfun) (value_events json config slot value)
value_events-pumpfun json config slot value set absent =
    value_All json config (λ e. e.kind ≡ pumpfun) slot value
      (λ signature slot bytes fits.
        rw absent (unfold make_event program_to_kind in rw (set, same_ignoring_case_refl)))

-- The kind is PumpFun exactly if that program is configured and the identifier names it without
-- regard to case, and Raydium exactly if that holds of the Raydium program and the kind is not
-- PumpFun.
pub program_to_kind_lem :
    (program_id : Bytes) (config : Config)
    → ((program_to_kind program_id config ≡ pumpfun) ↔ (
        (is_set config.pumpfun_program ≡ true)
        × (same_ignoring_case program_id config.pumpfun_program ≡ true)))
      × ((program_to_kind program_id config ≡ raydium) ↔ (
          (is_set config.raydium_program ≡ true)
          × (same_ignoring_case program_id config.raydium_program ≡ true)
          × (program_to_kind program_id config ≢ pumpfun)))
unfolding program_to_kind
program_to_kind_lem program_id config = ground arith
