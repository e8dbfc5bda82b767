-- ===== src/Config/Entries.antt =====
-- Lines `KEY=value` are read as their key and value.
use yurei_jsonrpc_client.Prelude.{
  ℕ, ◌+◌, ◌≤◌, ◌<◌, ◌≡◌, ◌≢◌, refl, ap, ◌∙◌, sym, true, false, ◌==◌, some, List, [], ◌∷◌, ◌++◌,
  arith, length, length-append, take_all, Bytes, All, All-map, All-append, append-nil, append_assoc,
}
use yurei_jsonrpc_client.CString.{
  is_space, skip_spaces, skip_spaces_back, unless_space, up_to, from, until_nul,
}
use yurei_jsonrpc_client.CString.Laws.{up_to-append, from-append}
use yurei_jsonrpc_client.Config.Fields.{Config}
use yurei_jsonrpc_client.Config.Settings.{apply_key_value}
use yurei_jsonrpc_client.Config.Files.{
  trim, unless_comment, key_and_value, read_line, apply_line, apply_lines, load_env_file,
}
use yurei_jsonrpc_client.Config.Lines.{
  OneLine, ended, all_ended, joined_lines, file_lines-all_ended,
}

-- What the characters of a key are not.
abbrev pub KeyChar : ℕ → Type 0
KeyChar c = (is_space c ≡ false) × (c ≢ b'=') × (c ≢ b'#') × (c ≢ 0)

-- A value stands on one line and has no white space at its ends.
pub record IsValue (v : Bytes) : Type 0 where
  pub starts : skip_spaces v ≡ v
  pub ends : skip_spaces_back v ≡ v
  pub chars : All (λ c. (c ≢ b'\n') × (c ≢ 0)) v

abbrev pub Entry : Type 0
Entry = Bytes × Bytes

pub record IsEntry (e : Entry) : Type 0 where
  pub key_set : 0 < length e.0
  pub key : All KeyChar e.0
  pub value : IsValue e.1
  pub short : length e.0 + length e.1 < 510

abbrev pub entry_text : Entry → Bytes
entry_text (k, v) = k ++ b'=' ∷ v

until_nul-whole : (s : Bytes) → All (λ c. c ≢ 0) s → until_nul s ≡ s
unfolding until_nul
until_nul-whole [] h = refl
until_nul-whole (c ∷ s) h =
    let visible : (c == 0) ≡ false = ground (arith, h.0) in rw (visible, until_nul-whole s h.1) refl

skip_spaces-key : (k s : Bytes) → 0 < length k → All KeyChar k → skip_spaces (k ++ s) ≡ k ++ s
unfolding skip_spaces
skip_spaces-key [] s h a = absurd (omega arith)
skip_spaces-key (c ∷ k) s h a = rw a.0.0 refl

pub unless_space-visible : (c : ℕ) (s : Bytes) → is_space c ≡ false → unless_space c s ≡ c ∷ s
unless_space-visible c [] h = rw h refl
unless_space-visible c (d ∷ s) h = refl

skip_spaces_back-key :
    (k s : Bytes) → All KeyChar k → skip_spaces_back (k ++ s) ≡ k ++ skip_spaces_back s
unfolding skip_spaces_back
skip_spaces_back-key [] s h = refl
skip_spaces_back-key (c ∷ k) s h =
    rw (skip_spaces_back-key k s h.1) (unless_space-visible c (k ++ skip_spaces_back s) h.0.0)

skip_spaces_back-ended : (s : Bytes) → skip_spaces_back (ended s) ≡ skip_spaces_back s
unfolding skip_spaces_back
skip_spaces_back-ended [] = unfold is_space in refl
skip_spaces_back-ended (c ∷ s) = ap (unless_space c) (skip_spaces_back-ended s)

-- The line without its newline.
trim-entry : (e : Entry) → IsEntry e → trim 512 (ended (entry_text e)) ≡ entry_text e
unfolding trim
trim-entry (k, v) h =
    let front = skip_spaces-key k (b'=' ∷ ended v) h.key_set h.key in
    let moved = append_assoc k (b'=' ∷ v) (b'\n' ∷ []) in
    let equals : unless_space b'=' (skip_spaces_back v) ≡ b'=' ∷ skip_spaces_back v =
      unless_space-visible b'=' (skip_spaces_back v) (unfold is_space in refl) in
    let back : skip_spaces_back (k ++ b'=' ∷ ended v) ≡ k ++ b'=' ∷ v =
      skip_spaces_back-key k (b'=' ∷ ended v) h.key
      ∙ ap (λ (s : Bytes). k ++ unless_space b'=' s) (skip_spaces_back-ended v)
      ∙ ap (λ (s : Bytes). k ++ s) equals
      ∙ ap (λ (s : Bytes). k ++ b'=' ∷ s) h.value.ends in
    rw (moved, front, back)
      (take_all 511 (k ++ b'=' ∷ v) (omega (arith, length-append k (b'=' ∷ v), h.short)))

trim-key : (k : Bytes) → 0 < length k → All KeyChar k → length k ≤ 511 → trim 512 k ≡ k
unfolding trim
trim-key k set' h short =
    let whole = append-nil k in
    let front : skip_spaces k ≡ k = rw whole at (skip_spaces-key k [] set' h) in
    let nothing : skip_spaces_back [] ≡ [] = unfold skip_spaces_back in refl in
    let back : skip_spaces_back k ≡ k =
      ap skip_spaces_back (sym whole)
      ∙ skip_spaces_back-key k [] h
      ∙ ap (λ (s : Bytes). k ++ s) nothing
      ∙ whole in
    rw (front, back) (take_all 511 k short)

trim-value : (v : Bytes) → IsValue v → length v ≤ 511 → trim 512 v ≡ v
unfolding trim
trim-value v h short = rw (h.starts, h.ends) (take_all 511 v short)

unless_comment-entry :
    (e : Entry)
    → IsEntry e
    → unless_comment (entry_text e) ≡ key_and_value (entry_text e) (b'=' ∷ e.1)
unless_comment-entry ([], v) h = absurd (omega (arith, h.key_set))
unless_comment-entry (c ∷ k, v) h =
    let plain : (c == b'#') ≡ false = ground (arith, h.key.0.2) in
    let no_equals = All-map {P = KeyChar} {Q = λ c. c ≢ b'='} (λ c p. p.1) (c ∷ k) h.key in
    let onward : from b'=' ((c ∷ k) ++ b'=' ∷ v) ≡ b'=' ∷ v =
      from-append b'=' (c ∷ k) (b'=' ∷ v) no_equals ∙ unfold from in refl in
    rw (plain, onward) refl

key_and_value-entry : (e : Entry) → IsEntry e → key_and_value (entry_text e) (b'=' ∷ e.1) ≡ some e
key_and_value-entry (k, v) h =
    let no_equals = All-map {P = KeyChar} {Q = λ c. c ≢ b'='} (λ c p. p.1) k h.key in
    let before : up_to b'=' (k ++ b'=' ∷ v) ≡ k =
      up_to-append b'=' k (b'=' ∷ v) no_equals ∙ unfold up_to in append-nil k in
    rw
      (
        before,
        trim-key k h.key_set h.key (omega (arith, h.short)),
        trim-value v h.value (omega (arith, h.short)),
      )
      refl

entry_chars : (e : Entry) → IsEntry e → All (λ c. c ≢ 0) (ended (entry_text e))
entry_chars (k, v) h =
    let P : ℕ → Type 0 = λ c. c ≢ 0 in
    All-append P (k ++ b'=' ∷ v) (b'\n' ∷ [])
      (All-append P k (b'=' ∷ v) (All-map {P = KeyChar} {Q = P} (λ c p. p.3) k h.key) (
        omega arith,
        All-map {P = λ c. (c ≢ b'\n') × (c ≢ 0)} {Q = P} (λ c p. p.1) v h.value.chars,
      ))
      (omega arith)

-- The line of an entry is read as the entry.
pub read_line-entry : (e : Entry) → IsEntry e → read_line (ended (entry_text e)) ≡ some e
unfolding read_line
read_line-entry e h =
    rw (until_nul-whole (ended (entry_text e)) (entry_chars e h), trim-entry e h)
      (unless_comment-entry e h ∙ key_and_value-entry e h)

newline_is_space : is_space b'\n' ≡ true
unfolding is_space
newline_is_space = refl

entry_OneLine : (e : Entry) → IsEntry e → OneLine (entry_text e)
entry_OneLine (k, v) h =
    let P : ℕ → Type 0 = λ c. c ≢ b'\n' in
    All-append P k (b'=' ∷ v)
      (All-map {P = KeyChar} {Q = P}
        (λ c p same.
          let seen : is_space b'\n' ≡ false = rw same at p.0 in cc (newline_is_space, seen))
        k h.key)
      (omega arith, All-map {P = λ c. (c ≢ b'\n') × (c ≢ 0)} {Q = P} (λ c p. p.0) v h.value.chars)

abbrev pub entry_texts : List Entry → List Bytes
entry_texts [] = []
entry_texts (e ∷ es) = entry_text e ∷ entry_texts es

-- The file of some entries, a line for each.
abbrev pub print_entries : List Entry → Bytes
print_entries es = joined_lines (all_ended (entry_texts es))

abbrev pub apply_entries : List Entry → Config → Config
apply_entries [] c = c
apply_entries (e ∷ es) c = apply_entries es (apply_key_value e.0 e.1 c)

apply_lines-entries :
    (es : List Entry) (c : Config)
    → All IsEntry es
    → apply_lines (all_ended (entry_texts es)) c ≡ apply_entries es c
unfolding apply_lines
apply_lines-entries [] c h = refl
apply_lines-entries (e ∷ es) c h =
    let line : apply_line (ended (entry_text e)) c ≡ apply_key_value e.0 e.1 c =
      unfold apply_line in rw (read_line-entry e h.0) refl in
    ap (apply_lines (all_ended (entry_texts es))) line
    ∙ (apply_lines-entries es (apply_key_value e.0 e.1 c) h.1)

entry_texts_fit :
    (es : List Entry) → All IsEntry es → All (λ s. OneLine s × (length s < 511)) (entry_texts es)
entry_texts_fit [] h = tt
entry_texts_fit ((k, v) ∷ es) h = (
  (entry_OneLine (k, v) h.0, omega (arith, length-append k (b'=' ∷ v), h.0.short)),
  entry_texts_fit es h.1,
)

-- A file of entries applies them in order.
pub load_env_file-entries :
    (es : List Entry) (c : Config)
    → All IsEntry es
    → load_env_file (some (print_entries es)) c ≡ apply_entries es c
unfolding load_env_file
load_env_file-entries es c h =
    ap (λ (ls : List Bytes). apply_lines ls c)
      (file_lines-all_ended (entry_texts es) (entry_texts_fit es h))
    ∙ apply_lines-entries es c h
