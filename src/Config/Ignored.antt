-- ===== src/Config/Ignored.antt =====
-- The lines of a file that set nothing.
use yurei_jsonrpc_client.Prelude.{
  zero, suc, All-append, ◌≡◌, ◌≢◌, ◌<◌, ◌⊎◌, inl, inr, ℕ, refl, ap, ◌∙◌, sym, none, some, List, [],
  ◌∷◌, ◌++◌, arith, length, take, true, false, ◌==◌, Bytes, All, Bool-cases, append_assoc,
}
use yurei_jsonrpc_client.CString.{until_nul, skip_spaces, skip_spaces_back, is_space, unless_space}
use yurei_jsonrpc_client.CString.Laws.{from-none}
use yurei_jsonrpc_client.Config.Fields.{Config}
use yurei_jsonrpc_client.Config.Files.{
  trim, unless_comment, read_line, apply_line, apply_lines, load_env_file,
}
use yurei_jsonrpc_client.Config.Lines.{
  OneLine, ended, all_ended, joined_lines, file_lines-all_ended,
}
use yurei_jsonrpc_client.Config.Entries.{unless_space-visible}

-- White space and then a hash.
abbrev pub IsComment : Bytes → Type 0
IsComment s = (front rest : Bytes) × (s ≡ front ++ b'#' ∷ rest) × All (λ c. is_space c ≡ true) front

-- A comment, or a text without an equals sign; a line of white space is one.
abbrev pub IsIgnored : Bytes → Type 0
IsIgnored s = IsComment s ⊎ All (λ c. c ≢ b'=') s

module _ (P : ℕ → Type 0) where
  All-until_nul : (s : Bytes) → All P s → All P (until_nul s)
  unfolding until_nul
  All-until_nul [] h = tt
  All-until_nul (c ∷ s) h = elim (Bool-cases (c == 0)) [
    | inl nul ↦ rw nul tt
    | inr char ↦ rw char (h.0, All-until_nul s h.1)
  ]

  All-skip_spaces : (s : Bytes) → All P s → All P (skip_spaces s)
  unfolding skip_spaces
  All-skip_spaces [] h = tt
  All-skip_spaces (c ∷ s) h = elim (Bool-cases (is_space c)) [
    | inl space ↦ rw space (All-skip_spaces s h.1)
    | inr visible ↦ rw visible h
  ]

  All-unless_space : (c : ℕ) (s : Bytes) → P c → All P s → All P (unless_space c s)
  All-unless_space c [] p h = elim (Bool-cases (is_space c)) [
    | inl space ↦ rw space tt
    | inr visible ↦ rw visible (p, tt)
  ]
  All-unless_space c (d ∷ s) p h = (p, h)

  All-skip_spaces_back : (s : Bytes) → All P s → All P (skip_spaces_back s)
  unfolding skip_spaces_back
  All-skip_spaces_back [] h = tt
  All-skip_spaces_back (c ∷ s) h =
      All-unless_space c (skip_spaces_back s) h.0 (All-skip_spaces_back s h.1)

  All-take : (n : ℕ) (s : Bytes) → All P s → All P (take n s)
  All-take zero s h = tt
  All-take (suc n) [] h = tt
  All-take (suc n) (c ∷ s) h = (h.0, All-take n s h.1)

  All-trim : (size : ℕ) (s : Bytes) → All P s → All P (trim size s)
  unfolding trim
  All-trim size s h =
      All-take _ (skip_spaces_back (skip_spaces s))
        (All-skip_spaces_back (skip_spaces s) (All-skip_spaces s h))

unless_comment-no_equals : (s : Bytes) → All (λ c. c ≢ b'=') s → unless_comment s ≡ none
unless_comment-no_equals [] h = refl
unless_comment-no_equals (c ∷ s) h = elim (Bool-cases (c == b'#')) [
  | inl hash ↦ rw hash refl
  | inr other ↦ rw (other, from-none b'=' (c ∷ s) h) refl
]

-- The hash comes to the front.
comment_front :
    (front rest : Bytes)
    → All (λ c. is_space c ≡ true) front
    → skip_spaces (until_nul (front ++ b'#' ∷ rest)) ≡ b'#' ∷ until_nul rest
unfolding until_nul skip_spaces
comment_front [] rest h = unfold is_space in refl
comment_front (c ∷ front) rest h =
    let char : (c == 0) ≡ false = unfold is_space in ground (arith, h.0) in
    rw (char, h.0) (comment_front front rest h.1)

read_line-comment :
    (front rest : Bytes)
    → All (λ c. is_space c ≡ true) front
    → read_line (front ++ b'#' ∷ rest) ≡ none
unfolding read_line trim skip_spaces_back
read_line-comment front rest h =
    let visible : unless_space b'#' (skip_spaces_back (until_nul rest))
        ≡ b'#' ∷ skip_spaces_back (until_nul rest) =
      unless_space-visible b'#' (skip_spaces_back (until_nul rest)) (unfold is_space in refl) in
    rw (comment_front front rest h, visible) refl

pub read_line-IsIgnored : (s : Bytes) → IsIgnored s → read_line (ended s) ≡ none
read_line-IsIgnored s (inl (front, rest, is, spaces)) =
    rw (is, append_assoc front (b'#' ∷ rest) (b'\n' ∷ []))
      (read_line-comment front (rest ++ b'\n' ∷ []) spaces)
read_line-IsIgnored s (inr h) =
    let P : ℕ → Type 0 = λ c. c ≢ b'=' in
    unfold read_line in
    unless_comment-no_equals (trim 512 (until_nul (ended s))) (
      All-trim P 512 (until_nul (ended s))
        (All-until_nul P (ended s) (All-append P s (b'\n' ∷ []) h (omega arith))))

-- The file with these lines.
abbrev pub file_of : List Bytes → Bytes
file_of texts = joined_lines (all_ended texts)

abbrev pub IsLine : Bytes → Type 0
IsLine s = OneLine s × (length s < 511)

load_env_file-lines :
    (texts : List Bytes) (c : Config)
    → All IsLine texts
    → load_env_file (some (file_of texts)) c ≡ apply_lines (all_ended texts) c
unfolding load_env_file
load_env_file-lines texts c h =
    ap (λ (ls : List Bytes). apply_lines ls c) (file_lines-all_ended texts h)

apply_lines-drop :
    (xs ys : List Bytes) (t : Bytes) (c : Config)
    → IsIgnored t
    → apply_lines (all_ended (xs ++ t ∷ ys)) c ≡ apply_lines (all_ended (xs ++ ys)) c
unfolding apply_lines
apply_lines-drop [] ys t c ignored =
    let same : apply_line (ended t) c ≡ c =
      unfold apply_line in rw (read_line-IsIgnored t ignored) refl in
    ap (apply_lines (all_ended ys)) same
apply_lines-drop (x ∷ xs) ys t c ignored = apply_lines-drop xs ys t (apply_line (ended x) c) ignored

All-drop : (xs ys : List Bytes) (t : Bytes) → All IsLine (xs ++ t ∷ ys) → All IsLine (xs ++ ys)
All-drop [] ys t h = h.1
All-drop (x ∷ xs) ys t h = (h.0, All-drop xs ys t h.1)

-- In a file of lines shorter than 511 bytes, a line that is a comment behind white space, or that
-- has no equals sign, can be left out: what is loaded, over any configuration, is the same.
pub load_env_file-IsIgnored :
    (xs ys : List Bytes) (t : Bytes) (c : Config)
    → All IsLine (xs ++ t ∷ ys)
    → IsIgnored t
    → load_env_file (some (file_of (xs ++ t ∷ ys))) c ≡ load_env_file (some (file_of (xs ++ ys))) c
load_env_file-IsIgnored xs ys t c h ignored =
    load_env_file-lines (xs ++ t ∷ ys) c h
    ∙ apply_lines-drop xs ys t c ignored
    ∙ sym (load_env_file-lines (xs ++ ys) c (All-drop xs ys t h))
