-- ===== src/Mentions.antt =====
-- `build_mentions_array`, which src/http_poller.c and src/websocket_client.c hold word for word: the
-- JSON array of the configured programs, written piece by piece into an array of characters.
mod Tests
use yurei_jsonrpc_client.Prelude.{
  ◌%◌, ◌^◌, ap, ◌∙◌, ℕ, suc, ◌+◌, ◌-◌, ◌≤◌, ◌<◌, ◌≡◌, refl, Bool, true, false, if◌then◌else◌,
  Option, none, some, List, [], ◌∷◌, ◌++◌, arith, length, length-append, take, take_all, Bytes,
  append_assoc, append-nil,
}
use yurei_jsonrpc_client.CString.{codes, copy_string}
use yurei_jsonrpc_client.Config.Fields.{Config}

-- The characters written so far, without the terminator, and the offset. `snprintf` cuts its output
-- off at the space left, and the offset grows by the length that it would have had.
pub record Output : Type 0 where
  pub text : Bytes
  pub offset : ℕ

-- `offset += snprintf(out + offset, len - offset, ...)`, with `len - offset` on `size_t`.
unfoldable pub write_piece : ℕ → Bytes → Output → Output
write_piece size piece out = record {
  text = take out.offset out.text ++ copy_string ((size + 2 ^ 64 - out.offset) % 2 ^ 64) piece;
  offset = out.offset + length piece;
}

abbrev pub quoted : Bytes → Bytes
quoted s = b'"' ∷ (s ++ b'"' ∷ [])

-- The state of the loop-free function: the output, and the flag `first`.
abbrev pub piece_for : Bool → Bytes → Bytes
piece_for true program = quoted program
piece_for false program = b',' ∷ quoted program

unfoldable pub write_program : ℕ → Bytes → Bool × Output → Bool × Output
write_program size [] state = state
write_program size (c ∷ s) (first, out) = (false, write_piece size (piece_for first (c ∷ s)) out)

unfoldable pub build_mentions_array : Config → ℕ → Bytes
unfolding write_piece write_program
build_mentions_array config size =
    let opened : Output = write_piece size (codes "[") (record { text = []; offset = 0 }) in
    let (first, out) =
      write_program size config.raydium_program
        (write_program size config.pumpfun_program (true, opened)) in
    let out' = if first then write_piece size (quoted config.pumpfun_program) out else out in
    (write_piece size (codes "]") out').text

-- The specification: the array of the programs that are set, or of one empty string.
unfoldable pub mentions : Bytes → Bytes → Bytes
mentions [] [] = codes "[\"\"]"
mentions (p ∷ ps) [] = b'[' ∷ (quoted (p ∷ ps) ++ b']' ∷ [])
mentions [] (r ∷ rs) = b'[' ∷ (quoted (r ∷ rs) ++ b']' ∷ [])
mentions (p ∷ ps) (r ∷ rs) = b'[' ∷ (quoted (p ∷ ps) ++ (b',' ∷ (quoted (r ∷ rs) ++ b']' ∷ [])))

-- The output that holds a text, nothing of it cut off.
abbrev holding : Bytes → Output
holding text = record { text = text; offset = length text }

-- A piece that fits is appended.
write_piece_fits :
    (text piece : Bytes) {out : Output}
    → out ≡ holding text
    → length text + length piece < 256
    → write_piece 256 piece out ≡ holding (text ++ piece)
unfolding write_piece
write_piece_fits text piece h small =
    let room : (256 + 2 ^ 64 - length text) % 2 ^ 64 ≡ 256 - length text = omega arith in
    rw (
      h,
      room,
      take_all (length text) text (omega arith),
      take_all (256 - length text - 1) piece (omega arith),
      length-append text piece,
    )

pub length-quoted : (s : Bytes) → length (quoted s) ≡ length s + 2
length-quoted s = omega (arith, length-append s (b'"' ∷ []))

abbrev with_programs : Config → Bytes → Bytes → Config
with_programs config p r = record config { pumpfun_program = p; raydium_program = r }

abbrev opened : Output
unfolding write_piece
opened = write_piece 256 (codes "[") (record { text = []; offset = 0 })

one_program :
    (s : Bytes)
    → length s < 64
    → (write_piece 256 (codes "]") (write_piece 256 (quoted s) opened)).text
      ≡ b'[' ∷ (quoted s ++ b']' ∷ [])
one_program s h =
    let l = length-quoted s in
    let at₁ =
      write_piece_fits (codes "[") (quoted s) {out = opened} (unfold write_piece in refl)
        (omega arith) in
    ap (λ (o : Output). o.text)
      (write_piece_fits (codes "[" ++ quoted s) (codes "]") at₁ (omega arith))

two_programs :
    (s t : Bytes)
    → length s < 64
    → length t < 64
    → (write_piece 256
        (codes "]")
        (write_piece 256 (b',' ∷ quoted t) (write_piece 256 (quoted s) opened))).text
      ≡ b'[' ∷ (quoted s ++ (b',' ∷ (quoted t ++ b']' ∷ [])))
two_programs s t hs ht =
    let ls = length-quoted s in
    let lt = length-quoted t in
    let la = length-append (quoted s) (b',' ∷ quoted t) in
    let at₁ =
      write_piece_fits (codes "[") (quoted s) {out = opened} (unfold write_piece in refl)
        (omega arith) in
    let at₂ = write_piece_fits (codes "[" ++ quoted s) (b',' ∷ quoted t) at₁ (omega arith) in
    let at₃ =
      write_piece_fits ((codes "[" ++ quoted s) ++ (b',' ∷ quoted t)) (codes "]") at₂
        (omega arith) in
    ap (λ (o : Output). o.text) at₃
    ∙ ap (λ (x : Bytes). b'[' ∷ x) (append_assoc (quoted s) (b',' ∷ quoted t) (codes "]"))

array_of :
    (config : Config) (p r : Bytes)
    → length p < 64
    → length r < 64
    → build_mentions_array (with_programs config p r) 256 ≡ mentions p r
unfolding build_mentions_array write_program mentions
array_of config [] [] hp hr = refl
array_of config (p ∷ ps) [] hp hr = one_program (p ∷ ps) hp
array_of config [] (r ∷ rs) hp hr = one_program (r ∷ rs) hr
array_of config (p ∷ ps) (r ∷ rs) hp hr = two_programs (p ∷ ps) (r ∷ rs) hp hr

-- The longest array has two programs of 63 characters.
pub length-mentions : (p r : Bytes) → length p < 64 → length r < 64 → length (mentions p r) ≤ 133
unfolding mentions
length-mentions [] [] hp hr = omega arith
length-mentions (p ∷ ps) [] hp hr =
    omega (arith, length-quoted (p ∷ ps), length-append (quoted (p ∷ ps)) (codes "]"))
length-mentions [] (r ∷ rs) hp hr =
    omega (arith, length-quoted (r ∷ rs), length-append (quoted (r ∷ rs)) (codes "]"))
length-mentions (p ∷ ps) (r ∷ rs) hp hr = omega (
  arith,
  length-quoted (p ∷ ps),
  length-quoted (r ∷ rs),
  length-append (quoted (r ∷ rs)) (codes "]"),
  length-append (quoted (p ∷ ps)) (b',' ∷ (quoted (r ∷ rs) ++ codes "]")),
)

-- With program ids that fit their arrays of 64 bytes, the array names the programs that are set,
-- or one empty string if none is: nothing of it is cut off.
pub build_mentions_array-mentions :
    (config : Config)
    → length config.pumpfun_program < 64
    → length config.raydium_program < 64
    → build_mentions_array config 256 ≡ mentions config.pumpfun_program config.raydium_program
build_mentions_array-mentions config hp hr =
    array_of config config.pumpfun_program config.raydium_program hp hr
