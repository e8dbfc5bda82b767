-- ===== src/Program/Main.antt =====
-- `main`. A run is the list of what it does to the shared objects, with the results of the calls.
use yurei_jsonrpc_client.Prelude.{
  ℕ, ◌-◌, Bool, true, false, not, ◌&&◌, ◌||◌, leb, ◌==◌, if◌then◌else◌, Option, none, some, List,
  [], ◌∷◌, ◌++◌, Bytes,
}
use yurei_jsonrpc_client.CString.{codes, same_ignoring_case}
use yurei_jsonrpc_client.Config.Fields.{Config}
use yurei_jsonrpc_client.Config.Load.{Environment, load}
use yurei_jsonrpc_client.EventQueue.Ring
use yurei_jsonrpc_client.RateLimiter
use yurei_jsonrpc_client.Metrics
use yurei_jsonrpc_client.DbWriter.Thread.{Writer}
use yurei_jsonrpc_client.Program.Start.{db_writer_start, http_poller_start, ws_client_start}

-- `strcmp(a, b) == 0`
unfoldable pub same_text : Bytes → Bytes → Bool
same_text [] [] = true
same_text (a ∷ as') (b ∷ bs) = a == b && same_text as' bs
same_text _ _ = false

-- What the loop over the arguments decides: the path, or the end of the program.
pub data Arguments : Type 0 where
  run_with : Bytes → Arguments
  show_usage : ℕ → Arguments
  show_version : Arguments

abbrev other_argument : Bytes → Arguments
other_argument a =
    if same_text a (codes "-h") || same_text a (codes "--help")
    then show_usage 0
    else if same_text a (codes "-v") || same_text a (codes "--version")
    then show_version
    else show_usage 1

-- The arguments behind the program's name.
unfoldable pub parse_arguments : Bytes → List Bytes → Arguments
parse_arguments env_path [] = run_with env_path
parse_arguments env_path (a ∷ []) = other_argument a
parse_arguments env_path (a ∷ path ∷ rest) =
    let later = parse_arguments path rest in
    if same_text a (codes "-c") || same_text a (codes "--config") then later else other_argument a

abbrev pub is_http : Config → Bool
is_http config = same_ignoring_case config.rpc_mode (codes "http")

-- `use_ws` and `use_http` before anything is started.
unfoldable pub wants_ws : Config → Bool
wants_ws config = not (is_http config)

unfoldable pub wants_http : Config → Bool
wants_http config = is_http config || same_ignoring_case config.rpc_mode (codes "dual")

-- What `main` does to the shared objects. A start comes with its success. `poller_ends` is no call: the
-- poller's thread ends by itself when `curl_easy_init` fails, and clears its flag.
pub data Step : Type 0 where
  limiter_init queue_init writer_start ws_start poller_start : Bool → Step
  poller_ends ws_stop poller_stop queue_close writer_stop queue_destroy limiter_destroy : Step

-- What the outside decides.
pub record Outside : Type 0 where
  pub now : ℕ
  pub mutex_ready : Bool
  pub allocated : Bool
  pub writer_created : Bool
  pub ws_created : Bool
  pub curl_ready : Bool
  pub poller_created : Bool
  pub poller_fails : Bool

abbrev pub succeeded {ℓ} : {A : Type ℓ} → Option A → Bool
succeeded none = false
succeeded (some a) = true

-- The shutdown: `use_ws`, `use_http`, and the poller's flag.
unfoldable pub shutdown : Bool → Bool → List Step
shutdown use_ws poller_runs =
    (if use_ws then ws_stop ∷ [] else [])
    ++ ((if poller_runs then poller_stop ∷ [] else [])
        ++ (queue_close ∷ writer_stop ∷ queue_destroy ∷ limiter_destroy ∷ []))

-- From the start of the poller on: whether the poller is wanted, was started, and ends by itself.
abbrev pub poller_steps : Bool → Bool → Bool → Bool → List Step
poller_steps use_ws false started fails = shutdown use_ws false
poller_steps use_ws true false fails = poller_start false ∷ shutdown use_ws false
poller_steps use_ws true true true = poller_start true ∷ poller_ends ∷ shutdown use_ws false
poller_steps use_ws true true false = poller_start true ∷ shutdown use_ws true

unfoldable pub with_poller :
    Outside → Bool → Bool → Ring.EventQueue → RateLimiter.RateLimiter → List Step
with_poller o use_ws use_http queue limiter =
    let poller =
      http_poller_start queue (some Metrics.init) (some limiter) o.curl_ready o.poller_created in
    poller_steps use_ws use_http (succeeded poller) o.poller_fails

-- From the choice of the mode on.
abbrev pub source_steps :
    Outside → Bool → Bool → Bool → Ring.EventQueue → RateLimiter.RateLimiter → List Step
source_steps o false http started queue limiter = with_poller o false http queue limiter
source_steps o true http false queue limiter =
    ws_start false ∷ with_poller o false true queue limiter
source_steps o true http true queue limiter = ws_start true ∷ with_poller o true http queue limiter

unfoldable pub with_sources :
    Config → Outside → Ring.EventQueue → RateLimiter.RateLimiter → List Step
with_sources config o queue limiter =
    let client = ws_client_start config queue [] false o.ws_created in
    source_steps o (wants_ws config) (wants_http config) (succeeded client) queue limiter

abbrev pub with_writer :
    Config → Outside → Ring.EventQueue → RateLimiter.RateLimiter → Option Writer → ℕ × List Step
with_writer config o queue limiter none =
    (1, writer_start false ∷ queue_destroy ∷ limiter_destroy ∷ [])
with_writer config o queue limiter (some writer) =
    (0, writer_start true ∷ with_sources config o queue limiter)

abbrev pub before : Step → ℕ × List Step → ℕ × List Step
before s (code, steps) = (code, s ∷ steps)

abbrev pub with_queue :
    Config → Outside → RateLimiter.RateLimiter → Option Ring.EventQueue → ℕ × List Step
with_queue config o limiter none = (1, queue_init false ∷ limiter_destroy ∷ [])
with_queue config o limiter (some queue) =
    before (queue_init true)
      (with_writer config o queue limiter (db_writer_start queue [] [] [] o.writer_created))

abbrev pub with_limiter : Config → Outside → Option RateLimiter.RateLimiter → ℕ × List Step
with_limiter config o none = (1, limiter_init false ∷ [])
with_limiter config o (some limiter) =
    before (limiter_init true)
      (with_queue config o limiter (Ring.init config.queue_capacity o.allocated))

-- `main` from the loaded configuration on: the exit code and the steps.
unfoldable pub main_run : Config → Outside → ℕ × List Step
main_run config o =
    with_limiter config o (RateLimiter.init config.rate_limit_rps o.now o.mutex_ready)

-- The main loop: the times at which it logs the metrics, for what `time` gives after each second.
unfoldable pub metrics_logs : ℕ → List ℕ → List ℕ
metrics_logs last_metrics_log [] = []
metrics_logs last_metrics_log (now ∷ later) =
    let logged = now ∷ metrics_logs now later in
    let waited = metrics_logs last_metrics_log later in
    if leb 60 (now - last_metrics_log) then logged else waited

-- The whole program: the files and the environment give the configuration.
unfoldable pub program : List Bytes → (Bytes → Option Bytes) → Environment → Outside → ℕ × List Step
program arguments files env o = elim (parse_arguments (codes ".env") arguments) [
  | run_with path ↦ main_run (load (files path) env) o
  | show_usage code ↦ (code, [])
  | show_version ↦ (0, [])
]
