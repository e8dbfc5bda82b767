-- ===== src/Parser/Base64/Table.antt =====
-- The table maps each character of the alphabet to its index, and nothing else but `=`.
use yurei_jsonrpc_client.CString.{is_space}
use yurei_jsonrpc_client.Prelude.{
  ==_iff, ℕ, zero, suc, ◌<◌, ◌≡◌, refl, Bool, true, false, not, ap, ◌&&◌, ◌==◌, Option, none, some,
  arith, get_or,
}
use yurei_jsonrpc_client.Parser.Base64.{alphabet, table_value}

-- A test at every number below `n`.
unfoldable pub all_below : ℕ → (ℕ → Bool) → Bool
all_below zero test = true
all_below (suc n) test = test n && all_below n test

pub all_below_sound :
    (n : ℕ) (test : ℕ → Bool) (k : ℕ) → all_below n test ≡ true → k < n → test k ≡ true
unfolding all_below
all_below_sound zero test k h below = absurd (omega arith)
all_below_sound (suc n) test k h below = ground (arith, all_below_sound n test k)

-- The character that stands for six bits.
abbrev pub letter : ℕ → ℕ
letter d = get_or alphabet d 0

abbrev is_value : ℕ → Option ℕ → Bool
is_value d none = false
is_value d (some k) = k == d

letters_checked : all_below 64 (λ d. is_value d (table_value (letter d))) ≡ true
unfolding all_below table_value
letters_checked = refl

letters_not_space : all_below 64 (λ d. not (is_space (letter d))) ≡ true
unfolding all_below is_space
letters_not_space = refl

-- A character that the loop reads as the six bits `d`.
pub record Sextet (c d : ℕ) : Type 0 where
  pub not_space : is_space c ≡ false
  pub value : table_value c ≡ some d
  pub small : d < 64

is_value_sound : (d : ℕ) (o : Option ℕ) → is_value d o ≡ true → o ≡ some d
is_value_sound d none h = cc
is_value_sound d (some k) h = ap some ((==_iff k d).0 h)

pub letter-Sextet : (d : ℕ) → d < 64 → Sextet (letter d) d
letter-Sextet d h = record {
  not_space =
      let t = all_below_sound 64 (λ k. not (is_space (letter k))) d letters_not_space h in
      ground arith;
  value =
      is_value_sound d _
        (all_below_sound 64 (λ k. is_value k (table_value (letter k))) d letters_checked h);
  small = h;
}

-- The padding character counts as six zero bits.
pub padding-Sextet : Sextet b'=' 0
unfolding table_value is_space
padding-Sextet = record { not_space = refl; value = refl; small = omega arith }
