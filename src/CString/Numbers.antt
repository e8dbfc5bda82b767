-- ===== src/CString/Numbers.antt =====
-- Numbers are read back from their digits.
use native.Mathlib.Nat.{pow-suc}
use yurei_jsonrpc_client.Prelude.{
  ◌≢◌, ℕ, zero, suc, ◌+◌, ◌-◌, ◌*◌, ◌/◌, ◌^◌, ◌≤◌, ◌<◌, ◌≡◌, refl, ap, ◌∙◌, true, false, ◌&&◌, ◌||◌,
  leb, ltb, ◌==◌, min, [], ◌∷◌, ◌++◌, arith, length, Bytes, Bool-cases, inl, inr,
}
use yurei_jsonrpc_client.CString.{
  digits_reversed, reverse_onto, print_u64, read_digits, is_digit, read_unsigned, unsigned_long,
  strtoul, skip_spaces, is_space,
}
use yurei_jsonrpc_client.CString.Laws.{Digits, number}

-- The value of digits, the last one first.
abbrev value_reversed : Bytes → ℕ
value_reversed [] = 0
value_reversed (c ∷ s) = value_reversed s * 10 + (c - b'0')

number-reverse_onto :
    (s out : Bytes) → number (reverse_onto s out) 0 ≡ number out (value_reversed s)
unfolding reverse_onto
number-reverse_onto [] out = refl
number-reverse_onto (c ∷ s) out = number-reverse_onto s (c ∷ out)

value_reversed-digits_reversed :
    (fuel n : ℕ) → n < 10 ^ fuel → value_reversed (digits_reversed fuel n) ≡ n
unfolding digits_reversed
value_reversed-digits_reversed zero n h = omega arith
value_reversed-digits_reversed (suc fuel) n h = elim (Bool-cases (ltb n 10)) [
  | inl small ↦ rw small (ground (arith, small))
  | inr big ↦
      let power = pow-suc 10 fuel in
      let ih = value_reversed-digits_reversed fuel (n / 10) (omega (arith, power)) in
      rw big (omega (arith, ih))
]

-- The fuel of 20 digits is enough.
pub number-print_u64 : (n : ℕ) → n < 2 ^ 64 → number (print_u64 n) 0 ≡ n
unfolding print_u64
number-print_u64 n h =
    number-reverse_onto (digits_reversed 20 n) []
    ∙ value_reversed-digits_reversed 20 n (omega arith)

Digits-reverse_onto : (s out : Bytes) → Digits s → Digits out → Digits (reverse_onto s out)
unfolding reverse_onto
Digits-reverse_onto [] out h k = k
Digits-reverse_onto (c ∷ s) out h k = Digits-reverse_onto s (c ∷ out) h.1 (h.0, k)

Digits-digits_reversed : (fuel n : ℕ) → Digits (digits_reversed fuel n)
unfolding digits_reversed
Digits-digits_reversed zero n = tt
Digits-digits_reversed (suc fuel) n = elim (Bool-cases (ltb n 10)) [
  | inl small ↦ rw small (omega arith)
  | inr big ↦ rw big ((omega arith, omega arith), Digits-digits_reversed fuel (n / 10))
]

pub Digits-print_u64 : (n : ℕ) → Digits (print_u64 n)
unfolding print_u64
Digits-print_u64 n = Digits-reverse_onto (digits_reversed 20 n) [] (Digits-digits_reversed 20 n) tt

-- A text that does not go on with a digit.
abbrev pub Stops : Bytes → Type 0
Stops [] = Unit {0}
Stops (c ∷ s) = is_digit c ≡ false

read_digits-number :
    (ds rest : Bytes) (n : ℕ)
    → Digits ds
    → Stops rest
    → read_digits (ds ++ rest) n ≡ (number ds n, rest)
unfolding read_digits
read_digits-number [] [] n h k = refl
read_digits-number [] (c ∷ s) n h k = rw k refl
read_digits-number (d ∷ ds) rest n h k =
    let digit : is_digit d ≡ true = ground (arith, h.0) in
    rw digit (read_digits-number ds rest (n * 10 + (d - b'0')) h.1 k)

unsigned_long-min : (n : ℕ) → unsigned_long false n ≡ min n (2 ^ 64 - 1)
unsigned_long-min n = ground arith

-- The greatest value of `unsigned long` stands for all that is out of range.
pub strtoul-number :
    (d : ℕ) (ds rest : Bytes)
    → Digits (d ∷ ds)
    → Stops rest
    → strtoul ((d ∷ ds) ++ rest) ≡ (min (number (d ∷ ds) 0) (2 ^ 64 - 1), rest)
unfolding strtoul skip_spaces is_space read_unsigned
strtoul-number d ds rest h k =
    let visible : (d == 32 || leb 9 d && leb d 13) ≡ false = ground (arith, h.0) in
    let plus : (d == b'+') ≡ false = ground (arith, h.0) in
    let minus : (d == b'-') ≡ false = ground (arith, h.0) in
    let digit : is_digit d ≡ true = ground (arith, h.0) in
    rw
      (
        visible,
        minus,
        plus,
        digit,
        read_digits-number ds rest (0 + (d - b'0')) h.1 k,
        unsigned_long-min (number ds (0 + (d - b'0'))),
      )
      refl

-- Without a digit nothing is read.
pub strtoul-word :
    (c : ℕ) (s : Bytes)
    → is_space c ≡ false
    → is_digit c ≡ false
    → (c == b'-') ≡ false
    → (c == b'+') ≡ false
    → strtoul (c ∷ s) ≡ (0, c ∷ s)
unfolding strtoul skip_spaces read_unsigned
strtoul-word c s visible word minus plus = rw (visible, minus, plus, word) refl

length-reverse_onto : (s out : Bytes) → length (reverse_onto s out) ≡ length s + length out
unfolding reverse_onto
length-reverse_onto [] out = omega arith
length-reverse_onto (c ∷ s) out = omega (arith, length-reverse_onto s (c ∷ out))

length-digits_reversed : (fuel n : ℕ) → length (digits_reversed fuel n) ≤ fuel
unfolding digits_reversed
length-digits_reversed zero n = omega arith
length-digits_reversed (suc fuel) n = ground (arith, length-digits_reversed fuel (n / 10))

pub length-print_u64 : (n : ℕ) → length (print_u64 n) ≤ 20
unfolding print_u64
length-print_u64 n =
    omega (arith, length-reverse_onto (digits_reversed 20 n) [], length-digits_reversed 20 n)

length-digits_reversed_positive : (fuel n : ℕ) → 0 < length (digits_reversed (suc fuel) n)
unfolding digits_reversed
length-digits_reversed_positive fuel n = omega arith

pub print_u64-ne : (n : ℕ) → print_u64 n ≢ []
unfolding print_u64
print_u64-ne n e =
    let none_there : length (reverse_onto (digits_reversed 20 n) []) ≡ 0 = ap length e in
    omega (
      arith,
      none_there,
      length-reverse_onto (digits_reversed 20 n) [],
      length-digits_reversed_positive 19 n,
    )
