-- ===== src/WebsocketClient/Retry.antt =====
-- The pauses of `ws_thread` between attempts to connect that fail at once.
use native.Mathlib.Nat.{pow-suc}
use yurei_jsonrpc_client.Prelude.{
  ap, ap₂, ◌∙◌, ℕ, zero, suc, ◌*◌, ◌%◌, ◌^◌, ◌≤◌, ◌<◌, ◌≡◌, refl, Bool, true, false, ltb,
  if◌then◌else◌, List, [], ◌∷◌, arith, min, Option, none, some,
}
use yurei_jsonrpc_client.Config.Fields.{Config}
use yurei_jsonrpc_client.WebsocketClient.{WsClient, new_session}

-- The step of `backoff_ms`, a 32-bit number.
unfoldable pub next_backoff_ms : ℕ → ℕ → ℕ
next_backoff_ms most backoff =
    if ltb backoff most
    then (let doubled = backoff * 2 % 2 ^ 32 in if ltb most doubled then most else doubled)
    else backoff

-- The body of the loop of `ws_thread`, up to `lws_service`; the flag says whether
-- `establish_connection` succeeds, which sets the pointer `wsi` to a new connection with its own
-- session. The second part is what `usleep` is
-- given, if it is called.
unfoldable pub reconnect : Config → Bool → WsClient → WsClient × Option ℕ
unfolding next_backoff_ms
reconnect config succeeds c =
    if c.wsi
    then (c, none)
    else if c.connected
    then (c, none)
    else if succeeds
    then (record c { wsi = true; session = new_session }, none)
    else (
      record c { wsi = false; backoff_ms = next_backoff_ms config.ws_backoff_max_ms c.backoff_ms },
      some (c.backoff_ms * 1000 % 2 ^ 32),
    )

-- Rounds of the loop in which every attempt fails and no callback comes.
unfoldable pub fail_rounds : Config → ℕ → WsClient → WsClient × List (Option ℕ)
unfolding reconnect
fail_rounds config zero c = (c, [])
fail_rounds config (suc k) c =
    let (c', pause) = reconnect config false c in
    let (c'', pauses) = fail_rounds config k c' in (c'', pause ∷ pauses)

-- The pauses in microseconds: the first of `first * 2 ^ i` milliseconds, then doubled each time, up to
-- the most.
unfoldable pub pauses_upto : ℕ → ℕ → ℕ → ℕ → List (Option ℕ)
pauses_upto first most i zero = []
pauses_upto first most i (suc k) =
    some (min (first * 2 ^ i) most * 1000) ∷ pauses_upto first most (suc i) k

next_backoff_ms-min :
    (first most i : ℕ)
    → most * 1000 < 2 ^ 32
    → next_backoff_ms most (min (first * 2 ^ i) most) ≡ min (first * 2 ^ suc i) most
unfolding next_backoff_ms
next_backoff_ms-min first most i small =
    let twice : first * 2 ^ suc i ≡ 2 * (first * 2 ^ i) =
      omega (arith, ap (λ (x : ℕ). first * x) (pow-suc 2 i)) in
    ground arith

abbrev failed_once : Config → WsClient → WsClient
failed_once config c = record c {
  wsi = false;
  backoff_ms = next_backoff_ms config.ws_backoff_max_ms c.backoff_ms;
}

reconnect-fails :
    (config : Config) (c : WsClient)
    → c.wsi ≡ false
    → c.connected ≡ false
    → reconnect config false c ≡ (failed_once config c, some (c.backoff_ms * 1000 % 2 ^ 32))
unfolding reconnect
reconnect-fails config c off apart = simp (off, apart)

fail_rounds-from :
    (config : Config) (first k i : ℕ) (c : WsClient)
    → config.ws_backoff_max_ms * 1000 < 2 ^ 32
    → c.wsi ≡ false
    → c.connected ≡ false
    → c.backoff_ms ≡ min (first * 2 ^ i) config.ws_backoff_max_ms
    → (fail_rounds config k c).1 ≡ pauses_upto first config.ws_backoff_max_ms i k
unfolding fail_rounds pauses_upto
fail_rounds-from config first zero i c small off apart at = refl
fail_rounds-from config first (suc k) i c small off apart at =
    let failed = reconnect-fails config c off apart in
    let in_range : c.backoff_ms * 1000 % 2 ^ 32
        ≡ min (first * 2 ^ i) config.ws_backoff_max_ms * 1000 =
      omega arith in
    let later = fail_rounds-from config first k (suc i) (failed_once config c) small refl apart (
      ap (next_backoff_ms config.ws_backoff_max_ms) at
      ∙ next_backoff_ms-min first config.ws_backoff_max_ms i small) in
    ap (λ (r : WsClient × Option ℕ). r.1 ∷ (fail_rounds config k r.0).1) failed
    ∙ ap₂ (λ (p : ℕ) (ps : List (Option ℕ)). some p ∷ ps) in_range later

-- Attempts to connect that fail at once, one after the other, are followed by pauses of the first
-- backoff, doubled each time, up to the most, if the most fits 32 bits in microseconds and is not
-- below the first.
pub fail_rounds-pauses :
    (config : Config) (k : ℕ) (c : WsClient)
    → config.ws_backoff_max_ms * 1000 < 2 ^ 32
    → config.ws_backoff_ms ≤ config.ws_backoff_max_ms
    → c.wsi ≡ false
    → c.connected ≡ false
    → c.backoff_ms ≡ config.ws_backoff_ms
    → (fail_rounds config k c).1 ≡ pauses_upto config.ws_backoff_ms config.ws_backoff_max_ms 0 k
fail_rounds-pauses config k c small ordered off apart at =
    fail_rounds-from config config.ws_backoff_ms k 0 c small off apart (omega arith)
