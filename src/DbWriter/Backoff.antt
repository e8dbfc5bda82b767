-- ===== src/DbWriter/Backoff.antt =====
-- `wait_for_connection`: connect again after growing pauses.
use native.Mathlib.Nat.{pow-suc}
use yurei_jsonrpc_client.Prelude.{
  ◌>>=◌, ℕ, zero, suc, ◌*◌, ◌%◌, ◌^◌, ◌≡◌, refl, Bool, true, false, ltb, if◌then◌else◌, Option,
  none, some, List, [], ◌∷◌, ◌++◌, arith, min, replicate,
}

abbrev pub max_backoff : ℕ
max_backoff = 30000

-- The step of the pause in milliseconds, on a 32-bit number.
unfoldable pub next_backoff : ℕ → ℕ
next_backoff backoff =
    if ltb backoff max_backoff
    then (let doubled = backoff * 2 % 2 ^ 32 in
        if ltb max_backoff doubled then max_backoff else doubled)
    else backoff

-- The loop of `wait_for_connection`. The list says which of the coming calls of `PQconnectdb` give a
-- connection; the result is the pauses in microseconds, as `usleep` is given them, and the answers
-- left. `none` means that the answers ended first.
unfoldable pub connect_loop : List Bool → ℕ → Option (List ℕ × List Bool)
connect_loop [] backoff = none
connect_loop (true ∷ answers) backoff = some ([], answers)
connect_loop (false ∷ answers) backoff = do
  (pauses, left) ← connect_loop answers (next_backoff backoff)
  some ((backoff * 1000 % 2 ^ 32) ∷ pauses, left)

unfoldable pub wait_for_connection : List Bool → Option (List ℕ × List Bool)
unfolding connect_loop
wait_for_connection answers = connect_loop answers 1000

-- The pauses of `k` failures, the first of them after `i` others: a second doubled each time, up to
-- half a minute, in microseconds.
unfoldable pub pauses_from : ℕ → ℕ → List ℕ
pauses_from i zero = []
pauses_from i (suc k) = (min (1000 * 2 ^ i) max_backoff * 1000) ∷ pauses_from (suc i) k

next_backoff-min :
    (i : ℕ) → next_backoff (min (1000 * 2 ^ i) max_backoff) ≡ min (1000 * 2 ^ suc i) max_backoff
unfolding next_backoff
next_backoff-min i = let twice : 2 ^ suc i ≡ 2 * 2 ^ i = omega (arith, pow-suc 2 i) in ground arith

connect_loop-pauses :
    (k i : ℕ) (left : List Bool)
    → connect_loop (replicate k false ++ true ∷ left) (min (1000 * 2 ^ i) max_backoff)
      ≡ some (pauses_from i k, left)
unfolding connect_loop pauses_from
connect_loop-pauses zero i left = refl
connect_loop-pauses (suc k) i left =
    let small : min (1000 * 2 ^ i) max_backoff * 1000 % 2 ^ 32
        ≡ min (1000 * 2 ^ i) max_backoff * 1000 =
      omega arith in
    rw (next_backoff-min i, connect_loop-pauses k (suc i) left, small)

-- If the first connection succeeds after some failures, the function returns it after as many
-- pauses: a second, doubled each time, up to half a minute.
pub wait_for_connection-pauses :
    (k : ℕ) (left : List Bool)
    → wait_for_connection (replicate k false ++ true ∷ left) ≡ some (pauses_from 0 k, left)
unfolding wait_for_connection
wait_for_connection-pauses k left = connect_loop-pauses k 0 left
