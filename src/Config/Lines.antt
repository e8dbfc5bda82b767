-- ===== src/Config/Lines.antt =====
-- The lines that `fgets` gives of a file.
use yurei_jsonrpc_client.Prelude.{
  ℕ, zero, suc, ◌≤◌, ◌<◌, ◌≡◌, ◌≢◌, refl, ap, ◌∙◌, false, ◌==◌, List, [], ◌∷◌, ◌++◌, arith, length,
  length-append, Bytes, All, Bool-cases, inl, inr, append_assoc,
}
use yurei_jsonrpc_client.CString.{fgets}
use yurei_jsonrpc_client.Config.Files.{file_lines}

-- What one call of `fgets` does.
record Reads (n : ℕ) (s : Bytes) (line rest : Bytes) : Type 0 where
  whole : line ++ rest ≡ s
  fits : length line ≤ n
  moves : 0 < n → s ≢ [] → length rest < length s

fgets-Reads : (n : ℕ) (s : Bytes) → Reads n s (fgets n s).0 (fgets n s).1
unfolding fgets
fgets-Reads zero [] = record { whole = refl; fits = omega arith; moves = λ h e. absurd (e refl) }
fgets-Reads (suc n) [] = record { whole = refl; fits = omega arith; moves = λ h e. absurd (e refl) }
fgets-Reads zero (c ∷ s) = record {
  whole = refl;
  fits = omega arith;
  moves = λ h e. absurd (omega arith);
}
fgets-Reads (suc n) (c ∷ s) = elim (Bool-cases (c == b'\n')) [
  | inl newline ↦
      rw newline (record { whole = refl; fits = omega arith; moves = λ h e. omega arith })
  | inr other ↦
      let a = fgets-Reads n s in
      let total = ap length a.whole in
      let parts = length-append (fgets n s).0 (fgets n s).1 in
      rw other (record {
        whole = ap (λ (t : Bytes). c ∷ t) a.whole;
        fits = omega (arith, a.fits);
        moves = λ h e. omega (arith, total, parts);
      })
]

abbrev pub joined_lines : List Bytes → Bytes
joined_lines [] = []
joined_lines (l ∷ ls) = l ++ joined_lines ls

file_lines-fuel :
    (fuel : ℕ) (file : Bytes)
    → length file ≤ fuel
    → (joined_lines (file_lines fuel file) ≡ file)
      × All (λ l. length l ≤ 511) (file_lines fuel file)
unfolding file_lines
file_lines-fuel zero [] h = (refl, tt)
file_lines-fuel zero (c ∷ s) h = absurd (omega arith)
file_lines-fuel (suc fuel) [] h = (refl, tt)
file_lines-fuel (suc fuel) (c ∷ s) h =
    let a = fgets-Reads 511 (c ∷ s) in
    let shorter = a.moves (omega arith) (λ e. cc) in
    let later = file_lines-fuel fuel (fgets 511 (c ∷ s)).1 (omega (arith, shorter)) in
    (ap (λ (t : Bytes). (fgets 511 (c ∷ s)).0 ++ t) later.0 ∙ a.whole, (a.fits, later.1))

-- Reading a file by pieces of at most 511 bytes ends with as many rounds as the file has bytes,
-- and nothing of the file is lost.
pub file_lines-joined :
    (file : Bytes)
    → (joined_lines (file_lines (length file) file) ≡ file)
      × All (λ l. length l ≤ 511) (file_lines (length file) file)
file_lines-joined file = file_lines-fuel (length file) file (omega arith)

-- A line's text, without a newline.
abbrev pub OneLine : Bytes → Type 0
OneLine s = All (λ c. c ≢ b'\n') s

fgets-line :
    (n : ℕ) (s rest : Bytes)
    → OneLine s
    → length s < n
    → fgets n (s ++ b'\n' ∷ rest) ≡ (s ++ b'\n' ∷ [], rest)
unfolding fgets
fgets-line zero s rest h short = absurd (omega arith)
fgets-line (suc n) [] rest h short = refl
fgets-line (suc n) (c ∷ s) rest h short =
    let other : (c == b'\n') ≡ false = ground (arith, h.0) in
    rw (other, fgets-line n s rest h.1 (omega arith)) refl

-- Texts as the lines of a file.
abbrev pub ended : Bytes → Bytes
ended s = s ++ b'\n' ∷ []

abbrev pub all_ended : List Bytes → List Bytes
all_ended [] = []
all_ended (s ∷ ss) = ended s ∷ all_ended ss

file_lines-ended :
    (fuel : ℕ) (texts : List Bytes)
    → length texts ≤ fuel
    → All (λ s. OneLine s × (length s < 511)) texts
    → file_lines fuel (joined_lines (all_ended texts)) ≡ all_ended texts
unfolding file_lines
file_lines-ended zero [] h k = refl
file_lines-ended zero (s ∷ ss) h k = absurd (omega arith)
file_lines-ended (suc fuel) [] h k = refl
file_lines-ended (suc fuel) ([] ∷ ss) h k =
    let r = fgets-line 511 [] (joined_lines (all_ended ss)) tt (omega arith) in
    rw (r, file_lines-ended fuel ss (omega arith) k.1) refl
file_lines-ended (suc fuel) ((c ∷ s) ∷ ss) h k =
    let r = fgets-line 511 (c ∷ s) (joined_lines (all_ended ss)) k.0.0 k.0.1 in
    rw
      (
        append_assoc s (b'\n' ∷ []) (joined_lines (all_ended ss)),
        r,
        file_lines-ended fuel ss (omega arith) k.1,
      )
      refl

length-joined_lines : (texts : List Bytes) → length texts ≤ length (joined_lines (all_ended texts))
length-joined_lines [] = omega arith
length-joined_lines (s ∷ ss) = omega (
  arith,
  length-joined_lines ss,
  length-append (ended s) (joined_lines (all_ended ss)),
  length-append s (b'\n' ∷ []),
)

-- A file of lines that fit the array is read line by line.
pub file_lines-all_ended :
    (texts : List Bytes)
    → All (λ s. OneLine s × (length s < 511)) texts
    → file_lines (length (joined_lines (all_ended texts))) (joined_lines (all_ended texts))
      ≡ all_ended texts
file_lines-all_ended texts h =
    file_lines-ended (length (joined_lines (all_ended texts))) texts (length-joined_lines texts) h
