-- ===== src/Logging/Plain.antt =====
-- Lines without color.
use yurei_jsonrpc_client.Prelude.{
  eq_of_some, subst, inr, inl, ltb, Bool-cases, ◌≤◌, ℕ, zero, suc, ◌-◌, ◌/◌, ◌≡◌, ◌≢◌, false, none,
  some, [], ◌∷◌, ◌++◌, arith, length, replicate, Bytes, All, All-append, All-map,
}
use yurei_jsonrpc_client.CString.{codes, print_u64}
use yurei_jsonrpc_client.CString.Numbers.{Digits-print_u64}
use yurei_jsonrpc_client.Logging.{
  rank, LogLevel, trace, Logger, level_to_string, level_to_color, pad_six, log_line, yurei_log,
}

-- A text without escape characters.
abbrev pub Plain : Bytes → Type 0
Plain s = All (λ c. c ≢ 27) s

Plain-append : (s t : Bytes) → Plain s → Plain t → Plain (s ++ t)
Plain-append s t h k = All-append (λ c. c ≢ 27) s t h k

Plain-replicate : (n : ℕ) → Plain (replicate n b'0')
Plain-replicate zero = tt
Plain-replicate (suc n) = (omega arith, Plain-replicate n)

Plain-print_u64 : (n : ℕ) → Plain (print_u64 n)
Plain-print_u64 n =
    All-map {P = λ c. (b'0' ≤ c) × (c ≤ b'9')} {Q = λ c. c ≢ 27} (λ c p same. omega (arith, p.0))
      (print_u64 n) (Digits-print_u64 n)

Plain-level_to_string : (l : LogLevel) → Plain (level_to_string l)
Plain-level_to_string trace = omega arith
Plain-level_to_string _ = omega arith

log_line-Plain :
    (logger : Logger) (level : LogLevel) (time : Bytes) (nanos : ℕ) (message : Bytes)
    → logger.color_enabled ≡ false
    → Plain time
    → Plain message
    → Plain (log_line logger level time nanos message)
unfolding log_line level_to_color
log_line-Plain logger level time nanos message off t m =
    let micros = print_u64 (nanos / 1000) in
    let padded =
      Plain-append (replicate (6 - length micros) b'0') micros (Plain-replicate (6 - length micros))
        (Plain-print_u64 (nanos / 1000)) in
    let end = Plain-append message (b'\n' ∷ []) m (omega arith) in
    let name =
      Plain-append (level_to_string level) (b']' ∷ b' ' ∷ (message ++ b'\n' ∷ []))
        (Plain-level_to_string level) (omega arith, (omega arith, end)) in
    rw off (
      Plain-append time
        (b'.'
          ∷ (pad_six micros
              ++ (codes " ["
                  ++ (level_to_string level ++ (b']' ∷ b' ' ∷ (message ++ b'\n' ∷ []))))))
        t
        (
          omega arith,
          Plain-append (pad_six micros)
              (codes " [" ++ (level_to_string level ++ (b']' ∷ b' ' ∷ (message ++ b'\n' ∷ []))))
              padded (omega arith, (omega arith, name)),
        ))

-- With the colors off, a line that is written has no escape character, if the time and the message
-- have none.
pub yurei_log-Plain :
    (logger : Logger) (level : LogLevel) (time : Bytes) (nanos : ℕ) (message : Bytes) {line : Bytes}
    → logger.color_enabled ≡ false
    → Plain time
    → Plain message
    → yurei_log logger level time nanos message ≡ some line
    → Plain line
unfolding yurei_log
yurei_log-Plain logger level time nanos message {line = line} off t m written =
    elim (Bool-cases (ltb (rank level) (rank logger.level))) [
      | inl below ↦ let none_some : none ≡ some line = rw below at written in cc
      | inr above ↦
          let same : some (log_line logger level time nanos message) ≡ some line =
            rw above at written in
          subst Plain (eq_of_some same) (log_line-Plain logger level time nanos message off t m)
    ]
