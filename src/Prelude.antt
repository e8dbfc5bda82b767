-- ===== src/Prelude.antt =====
-- What every other module shares: the library's names, Boolean tests on numbers, lists measured and
-- indexed by native numbers, and the status codes of the C functions.
mod Tests
mod Lists
pub use Tests.*
pub use Lists.*
pub use Prim.Native.Nat.{ℕ, zero, suc, ◌+◌, ◌-◌, ◌*◌, ◌/◌, ◌%◌, ◌^◌, ◌≤◌, ◌<◌, min, max}
pub use mathlib.Core.Path.{subst, ◌≡◌, refl, sym, ap, ap₂, ◌∙◌}
pub use mathlib.Core.Logic.{◌≢◌, ◌↔◌, ◌⊎◌, inl, inr}
pub use mathlib.Core.Bool.{Bool, true, false, not, ◌&&◌, ◌||◌}
pub use mathlib.Core.Option.{Option, none, some}
pub use mathlib.Core.List.{List, [], ◌∷◌, ◌++◌, map, append-nil, append_assoc}
pub use native.Mathlib.Omega.{arith}
pub use native.Mathlib.Decide.{dec_lt, dec_le}

-- The codes 0 and -1 that the functions of the program return.
pub data Status : Type 0 where
  success failure : Status

-- The bytes of a C string before its terminator, or of a buffer.
abbrev pub Bytes : Type 0
Bytes = List ℕ

infixl 5 ◌>>=◌
abbrev pub ◌>>=◌ {ℓ κ} : {A : Type ℓ} {B : Type κ} → Option A → (A → Option B) → Option B
none >>= f = none
some a >>= f = f a

-- The value that a test of an optional value for NULL selects.
abbrev pub option_case {ℓ κ} : {A : Type ℓ} {B : Type κ} → Option A → B → (A → B) → B
option_case none b f = b
option_case (some a) b f = f a

pub eq_of_some {ℓ} : {A : Type ℓ} {a b : A} → some a ≡ some b → a ≡ b
eq_of_some h = cc

-- A chain that succeeds has a first step that does.
pub bind_some :
    {A B : Type 0} (o : Option A) {f : A → Option B} {b : B}
    → (o >>= f) ≡ some b
    → (a : A) × (o ≡ some a) × (f a ≡ some b)
bind_some none h = cc
bind_some (some a) h = (a, refl, h)
