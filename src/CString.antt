-- ===== src/CString.antt =====
-- What the program uses of <string.h>, <strings.h>, <ctype.h> and <stdio.h>, on strings as the bytes
-- before their terminator.
use yurei_jsonrpc_client.Prelude.{
  ℕ, zero, suc, ◌+◌, ◌-◌, ◌*◌, ◌^◌, ◌/◌, ◌%◌, Bool, true, false, ◌&&◌, ◌||◌, leb, ltb, ◌==◌,
  if◌then◌else◌, Option, none, some, List, [], ◌∷◌, ◌++◌, take, Bytes,
}
use Prim.Native.Char.{code}
use Prim.Native.String.{String}
pub mod Laws
pub mod Numbers

-- The bytes of a text literal.
abbrev pub codes : String → Bytes
codes String.[] = []
codes (String.◌∷◌ c s) = code c ∷ codes s

-- `isspace` of the C locale.
unfoldable pub is_space : ℕ → Bool
is_space c = c == 32 || leb 9 c && leb c 13

unfoldable pub to_lower : ℕ → ℕ
to_lower c = if leb b'A' c && leb c b'Z' then c + 32 else c

-- `strcasecmp(a, b) == 0`
unfoldable pub same_ignoring_case : Bytes → Bytes → Bool
unfolding to_lower
same_ignoring_case [] [] = true
same_ignoring_case (a ∷ as') (b ∷ bs) = to_lower a == to_lower b && same_ignoring_case as' bs
same_ignoring_case _ _ = false

-- The rest of a string behind a prefix.
unfoldable pub after_prefix : Bytes → Bytes → Option Bytes
after_prefix [] s = some s
after_prefix (p ∷ ps) [] = none
after_prefix (p ∷ ps) (c ∷ s) = if p == c then after_prefix ps s else none

abbrev first_some : Option Bytes → Option Bytes → Option Bytes
first_some (some r) _ = some r
first_some none o = o

-- `strstr(s, needle)`: what follows the needle's first occurrence.
unfoldable pub after_first : Bytes → Bytes → Option Bytes
unfolding after_prefix
after_first needle [] = after_prefix needle []
after_first needle (c ∷ s) = first_some (after_prefix needle (c ∷ s)) (after_first needle s)

-- A pointer moved over white space.
unfoldable pub skip_spaces : Bytes → Bytes
unfolding is_space
skip_spaces [] = []
skip_spaces (c ∷ s) = if is_space c then skip_spaces s else c ∷ s

-- `snprintf(dst, size, "%s", s)` into an array of `size` bytes.
abbrev pub copy_string : ℕ → Bytes → Bytes
copy_string size s = take (size - 1) s

-- The digits of a number, the last one first, with fuel.
unfoldable pub digits_reversed : ℕ → ℕ → Bytes
digits_reversed zero n = []
digits_reversed (suc fuel) n =
    let rest = digits_reversed fuel (n / 10) in (b'0' + n % 10) ∷ (if ltb n 10 then [] else rest)

unfoldable pub reverse_onto : Bytes → Bytes → Bytes
reverse_onto [] out = out
reverse_onto (c ∷ s) out = reverse_onto s (c ∷ out)

-- `PRIu64` of a number below 2 ^ 64, which has at most 20 digits.
unfoldable pub print_u64 : ℕ → Bytes
unfolding digits_reversed reverse_onto
print_u64 n = reverse_onto (digits_reversed 20 n) []

-- A string up to a character, and from it on, empty without one: `strchr`.
unfoldable pub up_to : ℕ → Bytes → Bytes
up_to d [] = []
up_to d (c ∷ s) = let rest = up_to d s in if c == d then [] else c ∷ rest

unfoldable pub from : ℕ → Bytes → Bytes
from d [] = []
from d (c ∷ s) = let rest = from d s in if c == d then c ∷ s else rest

-- What follows the first character.
abbrev pub rest_of : Bytes → Bytes
rest_of [] = []
rest_of (c ∷ s) = s

-- Bytes that are passed on as a pointer are read up to the first 0.
unfoldable pub until_nul : Bytes → Bytes
until_nul [] = []
until_nul (c ∷ s) = if c == 0 then [] else c ∷ until_nul s

-- The text without the white space at its end.
abbrev pub unless_space : ℕ → Bytes → Bytes
unless_space c [] = if is_space c then [] else c ∷ []
unless_space c (d ∷ s) = c ∷ d ∷ s

unfoldable pub skip_spaces_back : Bytes → Bytes
skip_spaces_back [] = []
skip_spaces_back (c ∷ s) = unless_space c (skip_spaces_back s)

abbrev pub is_digit : ℕ → Bool
is_digit c = leb b'0' c && leb c b'9'

-- The value of the leading digits behind `n`, and what follows them.
unfoldable pub read_digits : Bytes → ℕ → ℕ × Bytes
read_digits [] n = (n, [])
read_digits (c ∷ s) n =
    let rest = read_digits s (n * 10 + (c - b'0')) in if is_digit c then rest else (n, c ∷ s)

-- The value of `strtoul` for the digits read: the greatest one out of range, and modulo 2 ^ 64 behind
-- a minus sign.
abbrev pub unsigned_long : Bool → ℕ → ℕ
unsigned_long negative n =
    if leb (2 ^ 64) n then 2 ^ 64 - 1 else if negative then (2 ^ 64 - n) % 2 ^ 64 else n

-- Without any digit nothing is read: the value is 0, and what follows is the whole text.
unfoldable pub read_unsigned : Bool → Bytes → Bytes → ℕ × Bytes
unfolding read_digits
read_unsigned negative whole [] = (0, whole)
read_unsigned negative whole (c ∷ s) =
    let (n, rest) = read_digits (c ∷ s) 0 in
    if is_digit c then (unsigned_long negative n, rest) else (0, whole)

abbrev pub read_signed : Bytes → Bytes → ℕ × Bytes
read_signed whole [] = (0, whole)
read_signed whole (c ∷ s) =
    if c == b'-'
    then read_unsigned true whole s
    else if c == b'+'
    then read_unsigned false whole s
    else read_unsigned false whole (c ∷ s)

-- `strtoul(s, &end, 10)`: the value, and the text at `end`.
unfoldable pub strtoul : Bytes → ℕ × Bytes
unfolding read_unsigned skip_spaces
strtoul s = read_signed s (skip_spaces s)

-- `fgets` with room for `n` characters beside the terminator: the line, and what is left of the file.
unfoldable pub fgets : ℕ → Bytes → Bytes × Bytes
fgets n [] = ([], [])
fgets zero (c ∷ s) = ([], c ∷ s)
fgets (suc n) (c ∷ s) =
    let (line, rest) = fgets n s in if c == b'\n' then (c ∷ [], s) else (c ∷ line, rest)
