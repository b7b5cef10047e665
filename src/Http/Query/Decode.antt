-- ===== src/Http/Query/Decode.antt =====
-- parser.c: how the value of a parameter is decoded.
use soter.Base.{
  ℕ, zero, suc, ◌+◌, ◌/◌, ◌%◌, ◌≤◌, ◌<◌, ◌≡◌, refl, ap, true, some, inl, inr, [], ◌∷◌, arith, leb,
  if◌then◌else◌, length, All, Option-cases,
}
use soter.Http.{Bytes, lower}
use soter.Http.Query.{is_xdigit, hex_value, hex_pair, escape, decode}

-- Never more is written than there is room for.
pub length-decode : (room : ℕ) (src : Bytes) → length (decode room src) ≤ room
unfolding decode
length-decode zero src = omega arith
length-decode (suc room) [] = omega arith
length-decode (suc room) (c ∷ cs) = elim (Option-cases (escape c cs)) [
  | inl none1 ↦ rw (decode, none1) (omega (arith, length-decode room cs))
  | inr ((byte, rest), some1) ↦ rw (decode, some1) (omega (arith, length-decode room rest))
]

-- A digit as it is written in an escape.
abbrev pub hex_digit : ℕ → ℕ
hex_digit d = if leb d 9 then 48 + d else 55 + d

-- Every byte as an escape.
abbrev pub encode : Bytes → Bytes
encode [] = []
encode (b ∷ bs) = b'%' ∷ hex_digit (b / 16) ∷ hex_digit (b % 16) ∷ encode bs

is_xdigit-hex_digit : (d : ℕ) → d < 16 → is_xdigit (hex_digit d) ≡ true
unfolding is_xdigit
is_xdigit-hex_digit d h = ground arith

hex_value-hex_digit : (d : ℕ) → d < 16 → hex_value (hex_digit d) ≡ d
unfolding hex_value lower
hex_value-hex_digit d h = ground arith

hex_pair-encode :
    (b : ℕ) (rest : Bytes)
    → b < 256
    → hex_pair (hex_digit (b / 16) ∷ hex_digit (b % 16) ∷ rest) ≡ some (b, rest)
unfolding hex_pair
hex_pair-encode b rest h =
    rw
      (
        hex_pair,
        is_xdigit-hex_digit (b / 16) (omega (arith, h)),
        is_xdigit-hex_digit (b % 16) (omega arith),
        hex_value-hex_digit (b / 16) (omega (arith, h)),
        hex_value-hex_digit (b % 16) (omega arith),
      )
      (ap (λ x. some (x, rest)) (omega arith))

-- Bytes that were written as escapes are decoded to what they were, when there is room.
pub decode-encode :
    (room : ℕ) (bs : Bytes)
    → All (λ b. b < 256) bs
    → length bs ≤ room
    → decode room (encode bs) ≡ bs
unfolding decode escape
decode-encode zero [] h fits = refl
decode-encode (suc room) [] h fits = refl
decode-encode zero (b ∷ bs) h fits = absurd (omega (arith, fits))
decode-encode (suc room) (b ∷ bs) (hb, hs) fits =
    rw (decode, hex_pair-encode b (encode bs) hb)
      (ap (λ t. b ∷ t) (decode-encode room bs hs (omega (arith, fits))))
