-- ===== src/Metrics/Extremes.antt =====
-- The loops that keep the lowest and the highest latency, under interference.
use yurei_jsonrpc_client.Prelude.{
  ℕ, ◌≤◌, ◌≡◌, true, false, ltb, ◌==◌, none, some, List, [], ◌∷◌, ◌++◌, arith, min, max, Bool-cases,
  inl, inr,
}
use yurei_jsonrpc_client.Metrics.{Attempt, cell_after, lower_min, raise_max}

-- The other threads run the same loop, so they only lower the minimum: the cell after all of the
-- stores, if each of them lowers it.
abbrev pub Falls : ℕ → List Attempt → Type 0
Falls cell [] = Unit
Falls cell (a ∷ as') = (cell_after cell a.stored ≤ cell) × Falls (cell_after cell a.stored) as'

-- The loop that lowers the minimum ends with a cell at most the latency and at most what it held,
-- whatever lower values other threads store and however often an attempt fails for no reason.
pub lower_min-le :
    (as' : List Attempt) (cell current latency : ℕ) {r : ℕ}
    → Falls cell as'
    → cell ≤ current
    → lower_min as' cell current latency ≡ some r
    → (r ≤ latency) × (r ≤ cell)
unfolding lower_min
lower_min-le [] cell current latency f c h = ground arith
lower_min-le (a ∷ as') cell current latency {r} (f, g) c h =
    let later =
      lower_min-le as' (cell_after cell a.stored) (cell_after cell a.stored) latency {r = r} g
        (omega arith) in
    ground (arith, later)

-- The other threads only raise the maximum.
abbrev pub Rises : ℕ → List Attempt → Type 0
Rises cell [] = Unit
Rises cell (a ∷ as') = (cell ≤ cell_after cell a.stored) × Rises (cell_after cell a.stored) as'

-- The loop ends with a cell at least the latency and at least what it held.
pub raise_max-ge :
    (as' : List Attempt) (cell current latency : ℕ) {r : ℕ}
    → Rises cell as'
    → current ≤ cell
    → raise_max as' cell current latency ≡ some r
    → (latency ≤ r) × (cell ≤ r)
unfolding raise_max
raise_max-ge [] cell current latency f c h = ground arith
raise_max-ge (a ∷ as') cell current latency {r} (f, g) c h =
    let later =
      raise_max-ge as' (cell_after cell a.stored) (cell_after cell a.stored) latency {r = r} g
        (omega arith) in
    ground (arith, later)

-- An attempt that meets no store and does not fail for no reason.
abbrev pub quiet : Attempt
quiet = record { stored = none; spurious = false }

eq_self : (n : ℕ) → (n == n) ≡ true
eq_self n = ground arith

-- The loop that lowers the minimum, which has just loaded its cell, ends at an attempt that meets
-- no store and does not fail for no reason, if not before.
pub lower_min-ends :
    (before later : List Attempt) (cell latency : ℕ)
    → (r : ℕ) × (lower_min (before ++ quiet ∷ later) cell cell latency ≡ some r)
unfolding lower_min
lower_min-ends [] later cell latency = elim (Bool-cases (ltb latency cell)) [
  | inl go ↦ (latency, rw (go, eq_self cell))
  | inr stop ↦ (cell, rw stop)
]
lower_min-ends (a ∷ before) later cell latency =
    let next : ℕ = cell_after cell a.stored in
    let (r, e) = lower_min-ends before later next latency in
    elim (Bool-cases (ltb latency cell)) [
      | inr stop ↦ (cell, rw stop)
      | inl go ↦ elim (Bool-cases a.spurious) [
        | inl fails ↦ (r, rw (go, fails) e)
        | inr tries ↦ elim (Bool-cases (next == cell)) [
          | inl same ↦ (latency, rw (go, tries, same))
          | inr other ↦ (r, rw (go, tries, other) e)
        ]
      ]
    ]

pub raise_max-ends :
    (before later : List Attempt) (cell latency : ℕ)
    → (r : ℕ) × (raise_max (before ++ quiet ∷ later) cell cell latency ≡ some r)
unfolding raise_max
raise_max-ends [] later cell latency = elim (Bool-cases (ltb cell latency)) [
  | inl go ↦ (latency, rw (go, eq_self cell))
  | inr stop ↦ (cell, rw stop)
]
raise_max-ends (a ∷ before) later cell latency =
    let next : ℕ = cell_after cell a.stored in
    let (r, e) = raise_max-ends before later next latency in
    elim (Bool-cases (ltb cell latency)) [
      | inr stop ↦ (cell, rw stop)
      | inl go ↦ elim (Bool-cases a.spurious) [
        | inl fails ↦ (r, rw (go, fails) e)
        | inr tries ↦ elim (Bool-cases (next == cell)) [
          | inl same ↦ (latency, rw (go, tries, same))
          | inr other ↦ (r, rw (go, tries, other) e)
        ]
      ]
    ]

-- Without interference the loops compute the minimum and the maximum.
pub lower_min-quiet :
    (cell latency : ℕ) → lower_min (quiet ∷ []) cell cell latency ≡ some (min cell latency)
unfolding lower_min
lower_min-quiet cell latency = ground arith

pub raise_max-quiet :
    (cell latency : ℕ) → raise_max (quiet ∷ []) cell cell latency ≡ some (max cell latency)
unfolding raise_max
raise_max-quiet cell latency = ground arith
