-- ===== src/Program/Order.antt =====
-- The order of the startup and the shutdown, against a monitor of the objects that are alive.
use yurei_jsonrpc_client.Prelude.{
  ◌⊎◌, ℕ, zero, suc, ◌-◌, ◌+◌, ◌≤◌, ◌≡◌, ◌≢◌, ◌↔◌, refl, Bool, true, false, not, ◌&&◌, leb, Option,
  none, some, List, [], ◌∷◌, arith, Bool-cases, inl, inr, ◌>>=◌, Option-cases,
}
use yurei_jsonrpc_client.Config.Fields.{Config}
use yurei_jsonrpc_client.EventQueue.Ring
use yurei_jsonrpc_client.RateLimiter
use yurei_jsonrpc_client.Metrics
use yurei_jsonrpc_client.DbWriter.Thread.{Writer}
use yurei_jsonrpc_client.Program.Start.{db_writer_start, http_poller_start, ws_client_start}
use yurei_jsonrpc_client.Program.Main.{
  poller_steps, source_steps, Step, limiter_init, queue_init, writer_start, ws_start, poller_start,
  poller_ends, ws_stop, poller_stop, queue_close, writer_stop, queue_destroy, limiter_destroy,
  Outside, succeeded, shutdown, with_poller, with_sources, main_run, wants_ws, wants_http,
  metrics_logs,
}

-- What is alive: the limiter, the queue, and the threads of the writer, the client and the poller;
-- and whether the queue was closed.
pub record Alive : Type 0 where
  pub limiter : Bool
  pub queue : Bool
  pub shut : Bool
  pub writer : Bool
  pub ws : Bool
  pub poller : Bool

abbrev pub nothing_alive : Alive
nothing_alive = record {
  limiter = false;
  queue = false;
  shut = false;
  writer = false;
  ws = false;
  poller = false;
}

abbrev when : Bool → Alive → Option Alive
when true a = some a
when false a = none

-- The rules: an object is set up once, a thread starts only when what it uses is alive and is stopped
-- only when it runs, the writer is stopped only behind the closing of the queue, and an object is
-- destroyed only when no thread uses it.
unfoldable pub allow : Alive → Step → Option Alive
allow a (limiter_init ok) = when (not a.limiter) (record a { limiter = ok })
allow a (queue_init ok) = when (not a.queue) (record a { queue = ok; shut = false })
allow a (writer_start ok) = when (a.queue && not a.writer) (record a { writer = ok })
allow a (ws_start ok) = when (a.queue && not a.ws) (record a { ws = ok })
allow a (poller_start ok) = when (a.queue && a.limiter && not a.poller) (record a { poller = ok })
allow a poller_ends = when a.poller (record a { poller = false })
allow a ws_stop = when a.ws (record a { ws = false })
allow a poller_stop = when a.poller (record a { poller = false })
allow a queue_close = when a.queue (record a { shut = true })
allow a writer_stop = when (a.writer && a.shut) (record a { writer = false })
allow a queue_destroy =
    when (a.queue && not a.writer && not a.ws && not a.poller)
      (record a { queue = false; shut = false })
allow a limiter_destroy = when (a.limiter && not a.poller) (record a { limiter = false })

unfoldable pub follow : Alive → List Step → Option Alive
follow a [] = some a
follow a (s ∷ steps) = do a' ← allow a s; follow a' steps

-- The limiter, the queue and the writer are alive, and the sources perhaps.
abbrev running : Bool → Bool → Alive
running ws poller = record {
  limiter = true;
  queue = true;
  shut = false;
  writer = true;
  ws = ws;
  poller = poller;
}

follow-shutdown :
    (ws poller : Bool) → follow (running ws poller) (shutdown ws poller) ≡ some nothing_alive
unfolding follow allow shutdown
follow-shutdown true true = refl
follow-shutdown true false = refl
follow-shutdown false true = refl
follow-shutdown false false = refl

follow-poller_steps :
    (ws http started fails : Bool)
    → follow (running ws false) (poller_steps ws http started fails) ≡ some nothing_alive
follow-poller_steps ws false started fails = follow-shutdown ws false
follow-poller_steps ws true false fails = unfold follow allow in follow-shutdown ws false
follow-poller_steps ws true true true = unfold follow allow in follow-shutdown ws false
follow-poller_steps ws true true false = unfold follow allow in follow-shutdown ws true

follow-with_poller :
    (o : Outside) (ws http : Bool) (queue : Ring.EventQueue) (limiter : RateLimiter.RateLimiter)
    → follow (running ws false) (with_poller o ws http queue limiter) ≡ some nothing_alive
unfolding with_poller
follow-with_poller o ws http queue limiter =
    follow-poller_steps ws http
      (succeeded
        (http_poller_start queue (some Metrics.init) (some limiter) o.curl_ready o.poller_created))
      o.poller_fails

follow-source_steps :
    (o : Outside) (ws http started : Bool) (queue : Ring.EventQueue)
    (limiter : RateLimiter.RateLimiter)
    → follow (running false false) (source_steps o ws http started queue limiter)
      ≡ some nothing_alive
follow-source_steps o false http started queue limiter =
    follow-with_poller o false http queue limiter
follow-source_steps o true http false queue limiter =
    unfold follow allow in follow-with_poller o false true queue limiter
follow-source_steps o true http true queue limiter =
    unfold follow allow in follow-with_poller o true http queue limiter

-- What a run of `main` comes to.
pub record Ends (config : Config) (o : Outside) (r : ℕ × List Step) : Type 0 where
  pub released : follow nothing_alive r.1 ≡ some nothing_alive
  pub succeeds : (r.0 ≡ 0) ↔ (
      (o.mutex_ready ≡ true)
      × (config.queue_capacity ≢ 0)
      × (o.allocated ≡ true)
      × (o.writer_created ≡ true))

limiter_init-cases :
    (rps now : ℕ) (ready : Bool)
    → ((RateLimiter.init rps now ready ≡ none) × (ready ≡ false))
      ⊎ ((l : RateLimiter.RateLimiter) × (RateLimiter.init rps now ready ≡ some l) × (ready ≡ true))
unfolding RateLimiter.init
limiter_init-cases rps now false = inl (refl, refl)
limiter_init-cases rps now true = inr (_, refl, refl)

queue_init-cases :
    (capacity : ℕ) (allocated : Bool)
    → ((Ring.init capacity allocated ≡ none) × ((capacity ≢ 0) → allocated ≡ true → ⊥))
      ⊎ ((q : Ring.EventQueue) × (Ring.init capacity allocated ≡ some q)
          × (capacity ≢ 0)
          × (allocated ≡ true))
unfolding Ring.init
queue_init-cases zero allocated = inl (refl, λ h e. h refl)
queue_init-cases (suc n) false = inl (ground arith, λ h e. cc)
queue_init-cases (suc n) true = elim (Option-cases (Ring.init (suc n) true)) [
  | inl none_made ↦ absurd (ground (arith, none_made))
  | inr (q, made) ↦ inr (q, made, (λ e. omega (arith, e)), refl)
]

writer_start-cases :
    (q : Ring.EventQueue) (created : Bool)
    → ((db_writer_start q [] [] [] created ≡ none) × (created ≡ false))
      ⊎ ((w : Writer) × (db_writer_start q [] [] [] created ≡ some w) × (created ≡ true))
unfolding db_writer_start
writer_start-cases q false = inl (refl, refl)
writer_start-cases q true = inr (_, refl, refl)

-- Whatever fails, main destroys the limiter and the queue once, after the threads that use them
-- have ended, stops each thread that runs and no other, and the writer only behind the closing of
-- the queue; its exit code is 0 exactly if the mutex, the queue with a capacity that is not 0, and
-- the writer thread could be set up.
pub main_run-Ends : (config : Config) (o : Outside) → Ends config o (main_run config o)
unfolding main_run
main_run-Ends config o = elim (limiter_init-cases config.rate_limit_rps o.now o.mutex_ready) [
  | inl (failed, why) ↦ rw failed (record {
    released = unfold follow allow in refl;
    succeeds = (λ h. absurd (omega (arith, h)), λ h. cc (h.0, why));
  })
  | inr (l, made, ready) ↦ elim (queue_init-cases config.queue_capacity o.allocated) [
    | inl (failed, why) ↦
        rw (made, failed)
          (record {
            released = unfold follow allow in refl;
            succeeds = (λ h. absurd (omega (arith, h)), λ h. absurd (why h.1 h.2));
          })
    | inr (q, made_queue, room, memory) ↦ elim (writer_start-cases q o.writer_created) [
      | inl (failed, why) ↦
          rw (made, made_queue, failed)
            (record {
              released = unfold follow allow in refl;
              succeeds = (λ h. absurd (omega (arith, h)), λ h. cc (h.3, why));
            })
      | inr (w, started, thread) ↦
          rw (made, made_queue, started)
            (record {
              released =
                  unfold follow allow with_sources in
                  follow-source_steps o (wants_ws config) (wants_http config)
                    (succeeded (ws_client_start config q [] false o.ws_created)) q l;
              succeeds = (λ h. (ready, room, memory, thread), λ h. refl);
            })
    ]
  ]
]

-- Each time is a minute or more behind the one before it.
abbrev pub Spaced : ℕ → List ℕ → Type 0
Spaced last [] = Unit {0}
Spaced last (t ∷ ts) = (last + 60 ≤ t) × Spaced t ts

-- However the clock goes, the metrics are logged at most once a minute.
pub metrics_logs-Spaced : (last : ℕ) (nows : List ℕ) → Spaced last (metrics_logs last nows)
unfolding metrics_logs
metrics_logs-Spaced last [] = tt
metrics_logs-Spaced last (now ∷ later) = elim (Bool-cases (leb 60 (now - last))) [
  | inl due ↦ rw due (ground (arith, due), metrics_logs-Spaced now later)
  | inr early ↦ rw early (metrics_logs-Spaced last later)
]
