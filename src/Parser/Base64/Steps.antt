-- ===== src/Parser/Base64/Steps.antt =====
-- One round of the loop of `decode_base64`, on each of its branches.
use yurei_jsonrpc_client.Prelude.{
  refl, ℕ, suc, ◌+◌, ◌-◌, ◌*◌, ◌/◌, ◌%◌, ◌^◌, ◌≤◌, ◌<◌, ◌≡◌, true, false, leb, none, some, [], ◌∷◌,
  ◌++◌, arith, length, Bytes,
}
use yurei_jsonrpc_client.EventQueue.Event.{payload_max}
use yurei_jsonrpc_client.CString.{is_space}
use yurei_jsonrpc_client.Parser.Base64.{int_mod, table_value, decode_loop}

-- The characters that carry six bits each: those of the table, up to the first character that is
-- neither in it nor white space.
unfoldable pub sextets : Bytes → ℕ
sextets [] = 0
sextets (c ∷ cs) = elim (is_space c) [
  | true ↦ sextets cs
  | false ↦ elim (table_value c) [ none ↦ 0 | some d ↦ suc (sextets cs) ]
]

module _ (c : ℕ) (cs : Bytes) where
  pub sextets_space : is_space c ≡ true → sextets (c ∷ cs) ≡ sextets cs
  unfolding sextets
  sextets_space space = rw (space, sextets)

  pub sextets_stop : is_space c ≡ false → table_value c ≡ none → sextets (c ∷ cs) ≡ 0
  unfolding sextets
  sextets_stop other stop = rw (other, sextets) (rw stop)

  pub sextets_value :
      {d : ℕ} → is_space c ≡ false → table_value c ≡ some d → sextets (c ∷ cs) ≡ suc (sextets cs)
  unfolding sextets
  sextets_value other value = rw (other, sextets) (rw value)

module _ (c : ℕ) (cs : Bytes) (val held : ℕ) (out : Bytes) where
  pub decode_space :
      is_space c ≡ true → decode_loop (c ∷ cs) val held out ≡ decode_loop cs val held out
  unfolding decode_loop
  decode_space space = rw (space, decode_loop)

  pub decode_stop :
      is_space c ≡ false → table_value c ≡ none → decode_loop (c ∷ cs) val held out ≡ some out
  unfolding decode_loop
  decode_stop other stop = rw (other, decode_loop) (rw stop)

  pub decode_held :
      {d : ℕ}
      → is_space c ≡ false
      → table_value c ≡ some d
      → held + 6 < 8
      → decode_loop (c ∷ cs) val held out ≡ decode_loop cs ((val * 64 + d) % int_mod) (held + 6) out
  unfolding decode_loop
  decode_held other value h =
      let few : leb 8 (held + 6) ≡ false = ground arith in rw (other, decode_loop) (rw (value, few))

  pub decode_out :
      {d : ℕ}
      → is_space c ≡ false
      → table_value c ≡ some d
      → 8 ≤ held + 6
      → length out < payload_max
      → decode_loop (c ∷ cs) val held out
        ≡ decode_loop cs
            ((val * 64 + d) % int_mod)
            (held + 6 - 8)
            (out ++ ((val * 64 + d) % int_mod / 2 ^ (held + 6 - 8) % 256) ∷ [])
  unfolding decode_loop
  decode_out other value h room =
      let enough : leb 8 (held + 6) ≡ true = ground arith in
      let fits : leb payload_max (length out) ≡ false = ground arith in
      rw (other, decode_loop) (rw (value, enough, fits))

  pub decode_full :
      {d : ℕ}
      → is_space c ≡ false
      → table_value c ≡ some d
      → 8 ≤ held + 6
      → payload_max ≤ length out
      → decode_loop (c ∷ cs) val held out ≡ none
  unfolding decode_loop
  decode_full other value h room =
      let enough : leb 8 (held + 6) ≡ true = ground arith in
      let full : leb payload_max (length out) ≡ true = ground arith in
      rw (other, decode_loop) (rw (value, enough, full))

pub decode_end : (val held : ℕ) (out : Bytes) → decode_loop [] val held out ≡ some out
unfolding decode_loop
decode_end val held out = refl
