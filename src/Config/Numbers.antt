-- ===== src/Config/Numbers.antt =====
-- The numbers among the settings.
use yurei_jsonrpc_client.Prelude.{
  length, if◌then◌else◌, subst, ℕ, ◌-◌, ◌%◌, ◌^◌, ◌<◌, ◌≡◌, refl, ap, ◌∙◌, false, min, [], ◌∷◌,
  ◌++◌, arith, Bytes, ◌==◌, append-nil, sym,
}
use yurei_jsonrpc_client.CString.{strtoul, is_space, is_digit, print_u64}
use yurei_jsonrpc_client.CString.Laws.{Digits, number}
use yurei_jsonrpc_client.CString.Numbers.{
  print_u64-ne, Stops, strtoul-number, strtoul-word, number-print_u64, Digits-print_u64,
}
use yurei_jsonrpc_client.Config.Settings.{set_numeric_uint32, set_numeric_size}

-- A value that starts with digits sets a 32-bit field to their number, at most 2^64 - 1, modulo
-- 2^32, if nothing follows the digits; if something follows that is no digit, the field keeps its
-- value.
pub set_numeric_uint32-Digits :
    (d : ℕ) (ds rest : Bytes) (field : ℕ)
    → Digits (d ∷ ds)
    → Stops rest
    → set_numeric_uint32 ((d ∷ ds) ++ rest) field
      ≡ (if length rest == 0 then min (number (d ∷ ds) 0) (2 ^ 64 - 1) % 2 ^ 32 else field)
unfolding set_numeric_uint32
set_numeric_uint32-Digits d ds [] field h k = rw (strtoul-number d ds [] h k) refl
set_numeric_uint32-Digits d ds (c ∷ s) field h k =
    rw (strtoul-number d ds (c ∷ s) h k) (ground arith)

pub set_numeric_uint32-word :
    (c : ℕ) (s : Bytes) (field : ℕ)
    → is_space c ≡ false
    → is_digit c ≡ false
    → (c == b'-') ≡ false
    → (c == b'+') ≡ false
    → set_numeric_uint32 (c ∷ s) field ≡ field
unfolding set_numeric_uint32
set_numeric_uint32-word c s field visible word minus plus =
    rw (strtoul-word c s visible word minus plus) refl

strtoul-print : (n : ℕ) (s : Bytes) → s ≡ print_u64 n → n < 2 ^ 64 → strtoul s ≡ (n, [])
strtoul-print n [] e h = absurd (print_u64-ne n (sym e))
strtoul-print n (d ∷ ds) e h =
    let value : number (d ∷ ds) 0 ≡ n = ap (λ (t : Bytes). number t 0) e ∙ number-print_u64 n h in
    let same : min (number (d ∷ ds) 0) (2 ^ 64 - 1) ≡ n = omega (arith, value) in
    ap strtoul (sym (append-nil (d ∷ ds)))
    ∙ strtoul-number d ds [] (subst Digits (sym e) (Digits-print_u64 n)) tt
    ∙ ap (λ (m : ℕ). (m, [])) same

-- A printed number is read back.
pub set_numeric_uint32-print_u64 :
    (n field : ℕ) → n < 2 ^ 32 → set_numeric_uint32 (print_u64 n) field ≡ n
set_numeric_uint32-print_u64 n field h = from_text (print_u64 n) refl
  where
    from_text : (s : Bytes) → s ≡ print_u64 n → set_numeric_uint32 s field ≡ n
    from_text [] e = absurd (print_u64-ne n (sym e))
    from_text (c ∷ s) e =
        unfold set_numeric_uint32 in rw (strtoul-print n (c ∷ s) e (omega arith)) (omega arith)

pub set_numeric_size-print_u64 :
    (n field : ℕ) → n < 2 ^ 64 → set_numeric_size (print_u64 n) field ≡ n
set_numeric_size-print_u64 n field h = from_text (print_u64 n) refl
  where
    from_text : (s : Bytes) → s ≡ print_u64 n → set_numeric_size s field ≡ n
    from_text [] e = absurd (print_u64-ne n (sym e))
    from_text (c ∷ s) e = unfold set_numeric_size in rw (strtoul-print n (c ∷ s) e h) (omega arith)
