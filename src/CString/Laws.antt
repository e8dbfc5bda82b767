-- ===== src/CString/Laws.antt =====
-- Facts about strings.
use yurei_jsonrpc_client.Prelude.{
  ◌∙◌, append-nil, false, sym, ◌==◌, ◌-◌, ap, ◌++◌, ◌+◌, ◌≢◌, ◌*◌, ◌≤◌, ℕ, All, ◌≡◌, refl, true,
  Bytes, [], ◌∷◌, arith,
}
use yurei_jsonrpc_client.CString.{from, up_to, same_ignoring_case}

pub same_ignoring_case_refl : (s : Bytes) → same_ignoring_case s s ≡ true
unfolding same_ignoring_case
same_ignoring_case_refl [] = refl
same_ignoring_case_refl (c ∷ s) = ground (arith, same_ignoring_case_refl s)

abbrev pub Digits : Bytes → Type 0
Digits s = All (λ c. (b'0' ≤ c) × (c ≤ b'9')) s

abbrev pub number : Bytes → ℕ → ℕ
number [] n = n
number (c ∷ s) n = number s (n * 10 + (c - b'0'))

module _ (d : ℕ) where
  pub up_to-append : (xs ys : Bytes) → All (λ c. c ≢ d) xs → up_to d (xs ++ ys) ≡ xs ++ up_to d ys
  unfolding up_to
  up_to-append [] ys h = refl
  up_to-append (x ∷ xs) ys h =
      let other : (x == d) ≡ false = ground (arith, h.0) in rw (other, up_to-append xs ys h.1)

  pub from-append : (xs ys : Bytes) → All (λ c. c ≢ d) xs → from d (xs ++ ys) ≡ from d ys
  unfolding from
  from-append [] ys h = refl
  from-append (x ∷ xs) ys h =
      let other : (x == d) ≡ false = ground (arith, h.0) in rw (other, from-append xs ys h.1)

pub from-none : (d : ℕ) (xs : Bytes) → All (λ c. c ≢ d) xs → from d xs ≡ []
from-none d xs h = ap (from d) (sym (append-nil xs)) ∙ from-append d xs [] h ∙ unfold from in refl
