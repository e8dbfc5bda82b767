-- ===== src/Logging/Filter.antt =====
-- Which messages a configured logger writes.
use yurei_jsonrpc_client.Prelude.{
  subst, ℕ, ◌≤◌, ◌≡◌, ◌≢◌, ◌↔◌, refl, true, ltb, none, [], ◌∷◌, arith, Bytes, Bool-cases, inl, inr,
}
use yurei_jsonrpc_client.CString.{codes, same_ignoring_case, to_lower}
use yurei_jsonrpc_client.Config.Fields.{Config}
use yurei_jsonrpc_client.Logging.{
  LogLevel, trace, debug, info, warn, error, rank, Logger, yurei_log, level_named,
  configure_log_level,
}

-- The name of each level in a configuration.
abbrev pub level_name : LogLevel → Bytes
level_name trace = codes "trace"
level_name debug = codes "debug"
level_name info = codes "info"
level_name warn = codes "warn"
level_name error = codes "error"

-- Texts that are the same but for their case compare alike.
pub same_ignoring_case_congruent :
    (s t u : Bytes)
    → same_ignoring_case s t ≡ true
    → same_ignoring_case s u ≡ same_ignoring_case t u
unfolding same_ignoring_case
same_ignoring_case_congruent [] [] u h = refl
same_ignoring_case_congruent [] (d ∷ t) u h = cc
same_ignoring_case_congruent (c ∷ s) [] u h = cc
same_ignoring_case_congruent (c ∷ s) (d ∷ t) [] h = refl
same_ignoring_case_congruent (c ∷ s) (d ∷ t) (e ∷ u) h =
    let alike : to_lower c ≡ to_lower d = ground (arith, h) in
    let rest : same_ignoring_case s t ≡ true = ground (arith, h) in
    rw (alike, same_ignoring_case_congruent s t u rest)

level_named_names : (l : LogLevel) → level_named (level_name l) ≡ l
unfolding level_named same_ignoring_case to_lower
level_named_names trace = refl
level_named_names _ = refl

level_named-level_name :
    (s : Bytes) (l : LogLevel) → same_ignoring_case s (level_name l) ≡ true → level_named s ≡ l
unfolding level_named
level_named-level_name s l h =
    rw
      (
        same_ignoring_case_congruent s (level_name l) (codes "trace") h,
        same_ignoring_case_congruent s (level_name l) (codes "debug") h,
        same_ignoring_case_congruent s (level_name l) (codes "info") h,
        same_ignoring_case_congruent s (level_name l) (codes "warn") h,
      )
      (level_named_names l)

error_greatest : (l : LogLevel) → rank l ≤ rank error
error_greatest trace = omega arith
error_greatest _ = omega arith

yurei_log_iff :
    (logger : Logger) (m : LogLevel) (time : Bytes) (nanos : ℕ) (message : Bytes)
    → (yurei_log logger m time nanos message ≢ none) ↔ (rank logger.level ≤ rank m)
unfolding yurei_log
yurei_log_iff logger m time nanos message = elim (Bool-cases (ltb (rank m) (rank logger.level))) [
  | inl below ↦ (λ h. absurd (h (rw below refl)), λ h. absurd (ground (arith, below)))
  | inr above ↦ (λ h. ground (arith, above), λ h e. let none_some = rw above at e in cc)
]

-- With the name of a level in the configuration, in any case, a message is written exactly if its
-- level is not below that one, and errors are always written.
pub configure_log_level-filters :
    (config : Config) (logger : Logger) (l m : LogLevel) (time : Bytes) (nanos : ℕ)
    (message : Bytes)
    → same_ignoring_case config.log_level (level_name l) ≡ true
    → ((yurei_log (configure_log_level config logger) m time nanos message ≢ none)
        ↔ (rank l ≤ rank m))
      × (yurei_log (configure_log_level config logger) error time nanos message ≢ none)
unfolding configure_log_level
configure_log_level-filters config logger l m time nanos message named =
    let both = yurei_log_iff (configure_log_level config logger) m time nanos message in
    let same = level_named-level_name config.log_level l named in
    let always = yurei_log_iff (configure_log_level config logger) error time nanos message in
    (
      subst
          (λ (k : LogLevel).
            (yurei_log (configure_log_level config logger) m time nanos message ≢ none)
            ↔ (rank k ≤ rank m))
          same both,
      always.1 (error_greatest (level_named config.log_level)),
    )
