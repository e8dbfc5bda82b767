-- ===== src/Parser/Bounds.antt =====
-- What holds of every call of `yurei_parser_handle_message`, whatever the other threads do.
use mathlib.Core.Path.{subst}
use yurei_jsonrpc_client.Prelude.{
  eq_of_some, ℕ, ◌+◌, ◌≤◌, ◌≡◌, refl, sym, ◌∙◌, if◌then◌else◌, ltb, Option, none, some, List, [],
  ◌∷◌, Bytes, Option-cases, inl, inr, arith, length, Status, success, failure,
}
use yurei_jsonrpc_client.Config.Fields.{Config}
use yurei_jsonrpc_client.EventQueue.Event.{Event}
use yurei_jsonrpc_client.EventQueue.Ring.{EventQueue, Schedule, push}
use yurei_jsonrpc_client.EventQueue.Invariant.{push-IsValid, IsValid}
use yurei_jsonrpc_client.Parser.Json.{CJson}
use yurei_jsonrpc_client.Parser.Message.{
  finished, Context, Handled, for_each, push_event, pushed, value_or_zero, handle_message,
  process_root,
}
use yurei_jsonrpc_client.Parser.Extract.{highest, message_events}
use yurei_jsonrpc_client.Parser.Pushing.{push_all, process_root-message_events}

highest-ge : (n : ℕ) (es : List Event) → n ≤ highest n es
highest-ge n [] = omega arith
highest-ge n (e ∷ es) =
    let later = highest-ge (if ltb n e.slot then e.slot else n) es in ground arith

highest_mono : (m n : ℕ) (es : List Event) → m ≤ n → highest m es ≤ highest n es
highest_mono m n [] h = h
highest_mono m n (e ∷ es) h =
    highest_mono (if ltb m e.slot then e.slot else m) (if ltb n e.slot then e.slot else n) es
      (ground arith)

-- What pushing some events does to the context, whatever the other threads do.
record Steps (es : List Event) (ctx ctx' : Context) : Type 0 where
  valid : IsValid ctx'.queue
  count_le : ctx'.event_count ≤ ctx.event_count + length es
  slot_ge : ctx.highest_slot ≤ ctx'.highest_slot
  slot_le : ctx'.highest_slot ≤ highest ctx.highest_slot es

pushed-Steps :
    (e : Event) (s : Status) (q : EventQueue) (later : Schedule) (ctx : Context)
    → IsValid q
    → Steps (e ∷ []) ctx (pushed e.slot (s, q, later) ctx)
unfolding pushed
pushed-Steps e success q later ctx v = ground arith
pushed-Steps e failure q later ctx v = ground arith

push_event-Steps :
    (e : Event) (ctx ctx' : Context)
    → IsValid ctx.queue
    → push_event e ctx ≡ some ctx'
    → Steps (e ∷ []) ctx ctx'
unfolding push_event
push_event-Steps e ctx ctx' v h = elim (Option-cases (push ctx.times ctx.queue e)) [
  | inl stuck ↦ let none_some : none ≡ some ctx' = rw stuck at h in cc
  | inr ((s, q, later), r) ↦
      let same : some (pushed e.slot (s, q, later) ctx) ≡ some ctx' = rw r at h in
      subst (Steps (e ∷ []) ctx) (eq_of_some same)
        (pushed-Steps e s q later ctx (push-IsValid ctx.times e v r))
]

push_all-Steps :
    (es : List Event) (ctx ctx' : Context)
    → IsValid ctx.queue
    → push_all es ctx ≡ some ctx'
    → Steps es ctx ctx'
unfolding for_each
push_all-Steps [] ctx ctx' v h =
    subst (Steps [] ctx) (eq_of_some h)
      (record { valid = v; count_le = omega arith; slot_ge = omega arith; slot_le = omega arith })
push_all-Steps (e ∷ es) ctx ctx' v h = elim (Option-cases (push_event e ctx)) [
  | inl stuck ↦ let none_some : none ≡ some ctx' = rw stuck at h in cc
  | inr (ctx1, r) ↦
      let a = push_event-Steps e ctx ctx1 v r in
      let b = push_all-Steps es ctx1 ctx' a.valid (rw r at h) in
      record {
        valid = b.valid;
        count_le = omega (arith, a.count_le, b.count_le);
        slot_ge = omega (arith, a.slot_ge, b.slot_ge);
        slot_le = omega (arith, b.slot_le, highest_mono _ _ es a.slot_le);
      }
]

-- What a message leaves behind in every case: no more events counted than it has, a valid queue, and
-- a highest slot between the old one and the highest of the message.
pub record Bounded (es : List Event) (out : Option ℕ) (h : Handled) : Type 0 where
  pub code_le : (n : ℕ) → h.code ≡ some n → n ≤ length es
  pub valid : IsValid h.queue
  pub slot_ge : value_or_zero out ≤ value_or_zero h.out_highest_slot
  pub slot_le : value_or_zero h.out_highest_slot ≤ highest (value_or_zero out) es

Steps-Bounded :
    (es : List Event) (out : Option ℕ) (ctx done : Context)
    → ctx.event_count ≡ 0
    → ctx.highest_slot ≡ value_or_zero out
    → Steps es ctx done
    → Bounded es out (finished out done)
Steps-Bounded es none ctx done zero_count from a = record {
  code_le = λ n e. omega (arith, a.count_le, eq_of_some e);
  valid = a.valid;
  slot_ge = omega arith;
  slot_le = omega arith;
}
Steps-Bounded es (some n) ctx done zero_count from a = record {
  code_le = λ n e. omega (arith, a.count_le, eq_of_some e);
  valid = a.valid;
  slot_ge = omega (arith, a.slot_ge);
  slot_le = rw (← from) a.slot_le;
}

module _ (json : CJson) (config : Config) where
  open json use {Item, parse}

  -- A call on a message that parses that returns on a valid queue, whatever the other threads do,
  -- counts at most the events of the message, leaves a valid queue, and never lowers the highest
  -- slot nor raises it above the highest one of the message.
  pub handle_message-Bounded :
      (text : Bytes) (root : Item) (q : EventQueue) (times : Schedule) (out : Option ℕ)
      (h : Handled)
      → parse text ≡ some root
      → IsValid q
      → handle_message json config text q times out ≡ some h
      → Bounded (message_events json config root) out h
  unfolding handle_message
  handle_message-Bounded text root q times out h parsed v returned =
      let ctx : Context = record {
        queue = q;
        times = times;
        highest_slot = value_or_zero out;
        event_count = 0;
      } in
      elim (Option-cases (process_root json config root ctx)) [
        | inl stuck ↦ let none_some : none ≡ some h = rw (parsed, stuck) at returned in cc
        | inr (done, r) ↦
            let a =
              push_all-Steps (message_events json config root) ctx done v
                (sym (process_root-message_events json config root ctx) ∙ r) in
            subst (Bounded (message_events json config root) out)
              (eq_of_some (rw (parsed, r) at returned))
              (Steps-Bounded (message_events json config root) out ctx done refl refl a)
      ]

  -- A call leaves a valid queue, also for a message that does not parse.
  pub handle_message-IsValid :
      (text : Bytes) (q : EventQueue) (times : Schedule) (out : Option ℕ) {h : Handled}
      → IsValid q
      → handle_message json config text q times out ≡ some h
      → IsValid h.queue
  handle_message-IsValid text q times out {h} v returned = elim (Option-cases (parse text)) [
    | inl unread ↦
        unfold handle_message in
        subst (λ (h : Handled). IsValid h.queue) (eq_of_some (rw unread at returned)) v
    | inr (root, parsed) ↦
        let b = handle_message-Bounded text root q times out h parsed v returned in b.valid
  ]
