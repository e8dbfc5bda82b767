-- ===== src/Parser/Base64/RoundTrip.antt =====
-- Decoding what an RFC 4648 encoder wrote.
use yurei_jsonrpc_client.Parser.Base64.Steps.{decode_out, decode_end, decode_held}
use yurei_jsonrpc_client.Prelude.{
  ℕ, ◌+◌, ◌*◌, ◌/◌, ◌%◌, ◌^◌, ◌≤◌, ◌<◌, ◌≡◌, ap, ◌∙◌, some, [], ◌∷◌, ◌++◌, append_assoc, append-nil,
  arith, length, length-append, replicate, All, Bytes,
}
use yurei_jsonrpc_client.EventQueue.Event.{payload_max}
use yurei_jsonrpc_client.Parser.Base64.{int_mod, decode_loop, decode_base64}
use yurei_jsonrpc_client.Parser.Base64.Table.{letter, Sextet, letter-Sextet, padding-Sextet}

-- The encoding of RFC 4648 with its padding: the specification.
unfoldable pub encode : Bytes → Bytes
encode [] = []
encode (a ∷ []) = letter (a / 4) ∷ letter (a % 4 * 16) ∷ b'=' ∷ b'=' ∷ []
encode (a ∷ b ∷ []) =
    letter (a / 4) ∷ letter (a % 4 * 16 + b / 16) ∷ letter (b % 16 * 4) ∷ b'=' ∷ []
encode (a ∷ b ∷ c ∷ rest) =
    letter (a / 4)
    ∷ letter (a % 4 * 16 + b / 16)
    ∷ letter (b % 16 * 4 + c / 64)
    ∷ letter (c % 64)
    ∷ encode rest

-- The padding characters at the end of the encoding.
unfoldable pub padding : Bytes → ℕ
padding [] = 0
padding (a ∷ []) = 2
padding (a ∷ b ∷ []) = 1
padding (a ∷ b ∷ c ∷ rest) = padding rest

-- The 32 bits of `val` after two more characters.
abbrev two_more : ℕ → ℕ → ℕ → ℕ
two_more v d e = ((v * 64 + d) % int_mod * 64 + e) % int_mod

first_byte : (v d e : ℕ) → d < 64 → e < 64 → two_more v d e / 2 ^ 4 % 256 ≡ d * 4 + e / 16
first_byte v d e hd he = omega arith

second_byte : (v d e : ℕ) → d < 64 → e < 64 → two_more v d e / 2 ^ 2 % 256 ≡ d % 16 * 16 + e / 4
second_byte v d e hd he = omega arith

third_byte : (v d e : ℕ) → d < 64 → e < 64 → two_more v d e / 2 ^ 0 % 256 ≡ d % 4 * 64 + e
third_byte v d e hd he = omega arith

regroup : (out : Bytes) (x y z : ℕ) → ((out ++ x ∷ []) ++ y ∷ []) ++ z ∷ [] ≡ out ++ x ∷ y ∷ z ∷ []
regroup out x y z = simp append_assoc

pub decode_quad :
    {c1 c2 c3 c4 d1 d2 d3 d4 : ℕ}
    → Sextet c1 d1
    → Sextet c2 d2
    → Sextet c3 d3
    → Sextet c4 d4
    → (cs : Bytes) (val : ℕ) (out : Bytes) → length out + 3 ≤ payload_max
    → (v : ℕ) × (decode_loop (c1 ∷ c2 ∷ c3 ∷ c4 ∷ cs) val 0 out
        ≡ decode_loop cs v 0
            (out ++ (d1 * 4 + d2 / 16) ∷ (d2 % 16 * 16 + d3 / 4) ∷ (d3 % 4 * 64 + d4) ∷ []))
decode_quad {c1} {c2} {c3} {c4} {d1} {d2} {d3} {d4} x1 x2 x3 x4 cs val out room =
    let v1 : ℕ = (val * 64 + d1) % int_mod in
    let v2 : ℕ = (v1 * 64 + d2) % int_mod in
    let v3 : ℕ = (v2 * 64 + d3) % int_mod in
    let v4 : ℕ = (v3 * 64 + d4) % int_mod in
    let b1 : ℕ = d1 * 4 + d2 / 16 in
    let b2 : ℕ = d2 % 16 * 16 + d3 / 4 in
    let one : Bytes = out ++ b1 ∷ [] in
    let two : Bytes = one ++ b2 ∷ [] in
    let grown = length-append out (b1 ∷ []) in
    let grown' = length-append one (b2 ∷ []) in
    (
      v4,
      decode_held c1 (c2 ∷ c3 ∷ c4 ∷ cs) val 0 out x1.not_space x1.value (omega arith)
          ∙ decode_out c2 (c3 ∷ c4 ∷ cs) v1 6 out x2.not_space x2.value (omega arith) (omega arith)
          ∙ rw (first_byte val d1 d2 x1.small x2.small) (
              decode_out c3 (c4 ∷ cs) v2 4 one x3.not_space x3.value (omega arith) (omega arith)
              ∙ rw (second_byte v1 d2 d3 x2.small x3.small) (
                  decode_out c4 cs v3 2 two x4.not_space x4.value (omega arith) (omega arith)
                  ∙ rw (third_byte v2 d3 d4 x3.small x4.small, regroup))),
    )

-- The same, with names for the three bytes.
decode_group :
    {c1 c2 c3 c4 d1 d2 d3 d4 : ℕ} (x y z : ℕ)
    → Sextet c1 d1
    → Sextet c2 d2
    → Sextet c3 d3
    → Sextet c4 d4
    → (cs : Bytes) (val : ℕ) (out : Bytes) → length out + 3 ≤ payload_max
    → d1 * 4 + d2 / 16 ≡ x
    → d2 % 16 * 16 + d3 / 4 ≡ y
    → d3 % 4 * 64 + d4 ≡ z
    → (v : ℕ) × (decode_loop (c1 ∷ c2 ∷ c3 ∷ c4 ∷ cs) val 0 out
        ≡ decode_loop cs v 0 (out ++ x ∷ y ∷ z ∷ []))
decode_group x y z x1 x2 x3 x4 cs val out room ex ey ez =
    let (v, e) = decode_quad x1 x2 x3 x4 cs val out room in (v, rw (← ex, ← ey, ← ez) e)

-- The loop on an encoding, from any state between two groups of four characters.
decode_loop-encode :
    (bs : Bytes) (val : ℕ) (out : Bytes)
    → All (λ b. b < 256) bs
    → length out + (length bs + padding bs) ≤ payload_max
    → decode_loop (encode bs) val 0 out ≡ some (out ++ (bs ++ replicate (padding bs) 0))
unfolding encode padding
decode_loop-encode [] val out small room = rw append-nil (decode_end val 0 out)
decode_loop-encode (a ∷ []) val out small room =
    let d1 = letter-Sextet (a / 4) (omega arith) in
    let d2 = letter-Sextet (a % 4 * 16) (omega arith) in
    let g =
      decode_group a 0 0 d1 d2 padding-Sextet padding-Sextet [] val out (omega arith) (omega arith)
        (omega arith) (omega arith) in
    g.1 ∙ decode_end g.0 0 (out ++ a ∷ 0 ∷ 0 ∷ [])
decode_loop-encode (a ∷ b ∷ []) val out small room =
    let d1 = letter-Sextet (a / 4) (omega arith) in
    let d2 = letter-Sextet (a % 4 * 16 + b / 16) (omega arith) in
    let d3 = letter-Sextet (b % 16 * 4) (omega arith) in
    let g =
      decode_group a b 0 d1 d2 d3 padding-Sextet [] val out (omega arith) (omega arith)
        (omega arith) (omega arith) in
    g.1 ∙ decode_end g.0 0 (out ++ a ∷ b ∷ 0 ∷ [])
decode_loop-encode (a ∷ b ∷ c ∷ rest) val out small room =
    let d1 = letter-Sextet (a / 4) (omega arith) in
    let d2 = letter-Sextet (a % 4 * 16 + b / 16) (omega arith) in
    let d3 = letter-Sextet (b % 16 * 4 + c / 64) (omega arith) in
    let d4 = letter-Sextet (c % 64) (omega arith) in
    let g =
      decode_group a b c d1 d2 d3 d4 (encode rest) val out (omega arith) (omega arith) (omega arith)
        (omega arith) in
    let out' : Bytes = out ++ a ∷ b ∷ c ∷ [] in
    let grown = length-append out (a ∷ b ∷ c ∷ []) in
    g.1
    ∙ decode_loop-encode rest g.0 out' small.1.1.1 (omega arith)
    ∙ ap some (append_assoc out (a ∷ b ∷ c ∷ []) (rest ++ replicate (padding rest) 0))

-- Decoding the padded encoding of some bytes gives back the bytes followed by one zero byte for
-- each padding character, if all of that fits the payload.
pub decode_base64-encode :
    (bs : Bytes)
    → All (λ b. b < 256) bs
    → length bs + padding bs ≤ payload_max
    → decode_base64 (encode bs) ≡ some (bs ++ replicate (padding bs) 0)
unfolding decode_base64
decode_base64-encode bs small room = decode_loop-encode bs 0 [] small (omega arith)
