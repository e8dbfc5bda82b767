-- ===== src/Parser/Handling.antt =====
-- What `yurei_parser_handle_message` returns and leaves behind.
use yurei_jsonrpc_client.Prelude.{
  ℕ, ◌+◌, ◌≤◌, ◌<◌, ◌≡◌, refl, sym, ◌∙◌, ap, false, if◌then◌else◌, ltb, Option, some, List, [], ◌∷◌,
  ◌++◌, Bytes, arith, length, replicate, append_assoc, append-nil, Status, success,
}
use yurei_jsonrpc_client.Config.Fields.{Config}
use yurei_jsonrpc_client.EventQueue.Event.{Event}
use yurei_jsonrpc_client.EventQueue.Ring.{EventQueue, Schedule, push, push_now, push_waits, others}
use yurei_jsonrpc_client.EventQueue.Invariant.{IsValid, push_now-IsValid}
use yurei_jsonrpc_client.EventQueue.Fifo.{contents, push_now-contents}
use yurei_jsonrpc_client.Parser.Json.{CJson}
use yurei_jsonrpc_client.Parser.Message.{
  finished, Context, Handled, for_each, push_event, pushed, written, value_or_zero, handle_message,
}
use yurei_jsonrpc_client.Parser.Extract.{highest, message_events}
use yurei_jsonrpc_client.Parser.Pushing.{push_all, process_root-message_events}

-- With no other thread at the mutex, a push to a queue with room returns at once.
push_quiet :
    (q : EventQueue) (e : Event) (later : Schedule)
    → push_waits q ≡ false
    → push ([] ∷ later) q e ≡ some ((push_now q e).0, (push_now q e).1, later)
unfolding push others
push_quiet q e later h = rw h

-- The context after the accepted event `e`.
record Took (e : Event) (later : Schedule) (ctx ctx' : Context) : Type 0 where
  ran : push_event e ctx ≡ some ctx'
  valid : IsValid ctx'.queue
  still_open : ctx'.queue.closed ≡ false
  same_capacity : ctx'.queue.capacity ≡ ctx.queue.capacity
  held : contents ctx'.queue ≡ contents ctx.queue ++ e ∷ []
  grew : ctx'.queue.size ≡ ctx.queue.size + 1
  left : ctx'.times ≡ later
  counted : ctx'.event_count ≡ ctx.event_count + 1
  slot_seen : ctx'.highest_slot ≡ (if ltb ctx.highest_slot e.slot then e.slot else ctx.highest_slot)

push_event-Took :
    (e : Event) (later : Schedule) (ctx : Context)
    → IsValid ctx.queue
    → ctx.queue.closed ≡ false
    → ctx.queue.size < ctx.queue.capacity
    → ctx.times ≡ [] ∷ later
    → (ctx' : Context) × Took e later ctx ctx'
push_event-Took e later ctx v open' room t =
    let free : push_waits ctx.queue ≡ false = unfold push_waits in ground arith in
    let ok : (push_now ctx.queue e).0 ≡ success = unfold push_now in rw open' in
    let r : Status × EventQueue × Schedule = (success, (push_now ctx.queue e).1, later) in
    (
      pushed e.slot r ctx,
      record {
        ran = unfold push_event in rw (t, push_quiet ctx.queue e later free, ok) refl;
        valid = unfold pushed in push_now-IsValid e v free;
        still_open = unfold pushed push_now in ground arith;
        same_capacity = unfold pushed push_now in ground arith;
        held = unfold pushed in push_now-contents e v free open';
        grew = unfold pushed push_now in ground arith;
        left = unfold pushed in refl;
        counted = unfold pushed in refl;
        slot_seen = unfold pushed in refl;
      },
    )

-- The context after all of `es` was accepted.
record TookAll (es : List Event) (ctx ctx' : Context) : Type 0 where
  ran : push_all es ctx ≡ some ctx'
  valid : IsValid ctx'.queue
  held : contents ctx'.queue ≡ contents ctx.queue ++ es
  left : ctx'.times ≡ []
  counted : ctx'.event_count ≡ ctx.event_count + length es
  slot_seen : ctx'.highest_slot ≡ highest ctx.highest_slot es

push_all-TookAll :
    (es : List Event) (ctx : Context)
    → IsValid ctx.queue
    → ctx.queue.closed ≡ false
    → ctx.queue.size + length es ≤ ctx.queue.capacity
    → ctx.times ≡ replicate (length es) []
    → (ctx' : Context) × TookAll es ctx ctx'
unfolding for_each
push_all-TookAll [] ctx v open' room t = (
  ctx,
  record {
    ran = refl;
    valid = v;
    held = sym (append-nil (contents ctx.queue));
    left = t;
    counted = omega arith;
    slot_seen = refl;
  },
)
push_all-TookAll (e ∷ es) ctx v open' room t =
    let (ctx1, a) = push_event-Took e (replicate (length es) []) ctx v open' (omega arith) t in
    let (ctx2, b) =
      push_all-TookAll es ctx1 a.valid a.still_open (omega (arith, a.same_capacity, a.grew))
        a.left in
    (
      ctx2,
      record {
        ran = rw a.ran b.ran;
        valid = b.valid;
        held = b.held ∙ rw a.held (append_assoc (contents ctx.queue) (e ∷ []) es);
        left = b.left;
        counted = omega (arith, a.counted, b.counted);
        slot_seen = b.slot_seen ∙ ap (λ (n : ℕ). highest n es) a.slot_seen;
      },
    )

-- What a message leaves behind when all its events `es` were accepted.
pub record Accepted (es : List Event) (q : EventQueue) (out : Option ℕ) (h : Handled) : Type 0 where
  pub code_is : h.code ≡ some (length es)
  pub valid : IsValid h.queue
  pub held : contents h.queue ≡ contents q ++ es
  pub left : h.times ≡ []
  pub slot_out : h.out_highest_slot ≡ written out (highest (value_or_zero out) es)

module _ (json : CJson) (config : Config) where
  open json use {Item, parse}

  -- A message that parses, into a valid open queue with room for all its events and with no other
  -- thread at the mutex: each event is on the queue behind what was there, in the order of the
  -- message, the result is their number, and the highest slot is written if there is a place for
  -- it.
  pub handle_message-accepts :
      (text : Bytes) (root : Item) (q : EventQueue) (out : Option ℕ)
      → parse text ≡ some root
      → IsValid q
      → q.closed ≡ false
      → q.size + length (message_events json config root) ≤ q.capacity
      → (h : Handled) × (handle_message json config text q
            (replicate (length (message_events json config root)) [])
            out
          ≡ some h)
        × Accepted (message_events json config root) q out h
  unfolding handle_message
  handle_message-accepts text root q out parsed v open' room =
      let es : List Event = message_events json config root in
      let ctx : Context = record {
        queue = q;
        times = replicate (length es) [];
        highest_slot = value_or_zero out;
        event_count = 0;
      } in
      let (done, a) = push_all-TookAll es ctx v open' room refl in
      (
        finished out done,
        rw (parsed, process_root-message_events json config root ctx, a.ran),
        record {
          code_is = ap some (a.counted ∙ omega arith);
          valid = a.valid;
          held = a.held;
          left = a.left;
          slot_out = ap (written out) a.slot_seen;
        },
      )
