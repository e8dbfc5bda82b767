-- ===== src/Program/System/Simulated.antt =====
-- The functions of the components, called with no other thread at the mutex, are chains of moves.
use yurei_jsonrpc_client.Prelude.{
  replicate, zero, suc, ◌≡◌, ◌∙◌, refl, sym, Bool-cases, inl, inr, Option, Option-cases, bind_some,
  eq_of_some, some, List, [], ◌∷◌, ◌++◌, append_assoc, append-nil, length-append, All, ℕ, ◌+◌,
  length, arith, success, failure, Status, false, Bool, Bytes,
}
use yurei_jsonrpc_client.Config.Fields.{Config}
use yurei_jsonrpc_client.EventQueue.Event.{Event}
use yurei_jsonrpc_client.EventQueue.Ring
use yurei_jsonrpc_client.EventQueue.Ring.{
  EventQueue, Action, Schedule, others, push_now, push_waits, pop_now, pop_waits,
}
use yurei_jsonrpc_client.Parser.Json.{CJson}
use yurei_jsonrpc_client.Parser.Extract.{message_events}
use yurei_jsonrpc_client.Parser.Message.{
  Context, Handled, pushed, push_event, for_each, finished, value_or_zero, process_root,
  handle_message,
}
use yurei_jsonrpc_client.Parser.Pushing.{push_all, process_root-message_events}
use yurei_jsonrpc_client.Program.System.{
  asleep_after, System, Who, the_ws, the_poller, serving, goes, kept_if, push_step, Move, receive,
  push, Run, here, next,
}

-- A schedule on which no other thread gets the mutex.
abbrev pub Quiet : Schedule → Type 0
Quiet times = All (λ (batch : List Action). batch ≡ []) times

pub replicate-Quiet : (n : ℕ) → Quiet (replicate n [])
replicate-Quiet zero = tt
replicate-Quiet (suc n) = (refl, replicate-Quiet n)

-- The system with no thread asleep.
abbrev pub awakened : System → System
awakened s = record s { ws_asleep = false; poller_asleep = false; writer_asleep = false }

-- A source with events of its message at hand, a queue and the events that were accepted, while no
-- thread sleeps.
abbrev pub offers : Who → List Event → EventQueue → List Event → System → System
offers w es q accepted s =
    goes w (serving es) (awakened (record s { queue = q; accepted = accepted }))

-- With no other thread at the mutex, a push that returns did not wait.
push-Quiet :
    (times : Schedule) (q : EventQueue) (e : Event) {r : Status × EventQueue × Schedule}
    → Quiet times
    → Ring.push times q e ≡ some r
    → (later : Schedule) × Quiet later
      × (push_waits q ≡ false)
      × (r ≡ ((push_now q e).0, (push_now q e).1, later))
unfolding Ring.push others
push-Quiet [] q e quiet h = cc
push-Quiet ([] ∷ later) q e {r} quiet h = elim (Bool-cases (push_waits q)) [
  | inl waits ↦ push-Quiet later q e quiet.1 (rw waits at h)
  | inr free ↦ (later, quiet.1, free, sym (eq_of_some (rw free at h)))
]
push-Quiet ((a ∷ as') ∷ later) q e quiet h = let bad = quiet.0 in cc

-- What the parser keeps of a push.
pushed-fields :
    (s : Status) (q : EventQueue) (later : Schedule) (e : Event) (ctx : Context)
    → ((pushed e.slot (s, q, later) ctx).queue ≡ q)
      × ((pushed e.slot (s, q, later) ctx).times ≡ later)
      × ((pushed e.slot (s, q, later) ctx).event_count ≡ ctx.event_count + length (kept_if s e []))
unfolding pushed
pushed-fields success q later e ctx = (refl, refl, refl)
pushed-fields failure q later e ctx = (refl, refl, omega arith)

kept_if-append : (s : Status) (e : Event) (es : List Event) → kept_if s e es ≡ es ++ kept_if s e []
kept_if-append success e es = refl
kept_if-append failure e es = sym (append-nil es)

asleep_after-false : (status : Status) → asleep_after status false ≡ false
asleep_after-false success = refl
asleep_after-false failure = refl

module _ (json : CJson) (config : Config) (use_ws online : Bool) where
  open json use {Item, parse}

  push-Move :
      (w : Who) (e : Event) (es : List Event) (q : EventQueue) (accepted : List Event) (s : System)
      → push_waits q ≡ false
      → Move json config use_ws online
          (offers w (e ∷ es) q accepted s)
          (offers w es (push_now q e).1 (kept_if (push_now q e).0 e accepted) s)
  unfolding push_step
  push-Move the_ws e es q accepted s free =
      let m : Move json config use_ws online (offers the_ws (e ∷ es) q accepted s) _ =
        push the_ws e es refl refl free in
      rw (asleep_after-false (push_now q e).0) at m
  push-Move the_poller e es q accepted s free =
      let m : Move json config use_ws online (offers the_poller (e ∷ es) q accepted s) _ =
        push the_poller e es refl refl free in
      rw (asleep_after-false (push_now q e).0) at m

  pub join-Run :
      {s t u : System}
      → Run json config use_ws online s t
      → Run json config use_ws online t u
      → Run json config use_ws online s u
  join-Run r here = r
  join-Run r (next n m) = next (join-Run r n) m

  -- What the pushes of the events `es` did: the queue, and those of them that it accepted.
  record Offered (w : Who) (es accepted : List Event) (s : System) (ctx ctx' : Context)
      : Type 0 where
    kept : List Event
    run :
        Run json config use_ws online
          (offers w es ctx.queue accepted s)
          (offers w [] ctx'.queue (accepted ++ kept) s)
    counted : ctx'.event_count ≡ ctx.event_count + length kept

  push_event-pushed :
      (e : Event) (ctx : Context) {ctx' : Context}
      → Quiet ctx.times
      → push_event e ctx ≡ some ctx'
      → (push_waits ctx.queue ≡ false)
        × (ctx'.queue ≡ (push_now ctx.queue e).1)
        × (ctx'.event_count ≡ ctx.event_count + length (kept_if (push_now ctx.queue e).0 e []))
        × Quiet ctx'.times
  unfolding push_event
  push_event-pushed e ctx {ctx'} quiet h =
      let (r, ran, made) = bind_some (Ring.push ctx.times ctx.queue e) h in
      let (later, left, free, r_is) = push-Quiet ctx.times ctx.queue e quiet ran in
      let fields = pushed-fields (push_now ctx.queue e).0 (push_now ctx.queue e).1 later e ctx in
      let done : pushed e.slot r ctx ≡ ctx' = eq_of_some made in
      let same : pushed e.slot ((push_now ctx.queue e).0, (push_now ctx.queue e).1, later) ctx
          ≡ ctx' =
        rw r_is at done in
      (free, rw (← same) fields.0, rw (← same) fields.2, rw (← same, fields.1) left)

  push_all-Offered :
      (w : Who) (es accepted : List Event) (s : System) (ctx : Context) {ctx' : Context}
      → Quiet ctx.times
      → push_all es ctx ≡ some ctx'
      → Offered w es accepted s ctx ctx'
  unfolding for_each
  push_all-Offered w [] accepted s ctx {ctx'} quiet h =
      let same : ctx ≡ ctx' = eq_of_some h in
      record {
        kept = [];
        run = rw (← same, append-nil accepted) here;
        counted = rw (← same) (omega arith);
      }
  push_all-Offered w (e ∷ es) accepted s ctx {ctx'} quiet h =
      let (ctx1, one, rest) = bind_some (push_event e ctx) h in
      let (free, effect, count, left) = push_event-pushed e ctx quiet one in
      let first : List Event = kept_if (push_now ctx.queue e).0 e [] in
      let later = push_all-Offered w es (accepted ++ first) s ctx1 left rest in
      record {
        kept = first ++ later.kept;
        run = join-Run (next here (push-Move w e es ctx.queue accepted s free)) (
            rw
              (
                ← effect,
                kept_if-append (push_now ctx.queue e).0 e accepted,
                ← append_assoc accepted first later.kept,
              )
              later.run);
        counted = omega (arith, count, later.counted, length-append first later.kept);
      }

  receive-Move :
      (w : Who) (root : Item) (q : EventQueue) (accepted : List Event) (s : System)
      → Move json config use_ws online
          (offers w [] q accepted s)
          (offers w (message_events json config root) q accepted s)
  receive-Move the_ws root q accepted s = receive the_ws root refl
  receive-Move the_poller root q accepted s = receive the_poller root refl

  -- A message of a source, handled with no other thread at the mutex and none asleep, is a chain
  -- of moves: if handle_message returns, the source can move from where it has no event at hand to
  -- where it has none again, with the queue that the call left and as many more events accepted as
  -- it counted; nothing else has changed.
  pub handle_message-Run :
      (w : Who) (text : Bytes) (times : Schedule) (out : Option ℕ) (q : EventQueue)
      (accepted : List Event) (s : System) {h : Handled}
      → Quiet times
      → handle_message json config text q times out ≡ some h
      → (kept : List Event) × (length kept ≡ value_or_zero h.code)
        × Run json config use_ws online
            (offers w [] q accepted s)
            (offers w [] h.queue (accepted ++ kept) s)
  unfolding handle_message
  handle_message-Run w text times out q accepted s {h} quiet returned =
      let ctx : Context = record {
        queue = q;
        times = times;
        highest_slot = value_or_zero out;
        event_count = 0;
      } in
      elim (Option-cases (parse text)) [
        | inl unread ↦
            let same = eq_of_some {b = h} (rw unread at returned) in
            ([], rw (← same) refl, rw (← same, append-nil accepted) here)
        | inr (root, read) ↦
            let (done, ran, made) =
              bind_some (process_root json config root ctx) (rw read at returned) in
            let same : finished out done ≡ h = eq_of_some made in
            let all =
              push_all-Offered w (message_events json config root) accepted s ctx quiet
                (sym (process_root-message_events json config root ctx) ∙ ran) in
            (
              all.kept,
              rw (← same) (omega (arith, all.counted)),
              rw (← same) (join-Run (next here (receive-Move w root q accepted s)) all.run),
            )
      ]
