-- ===== src/Http/Decimal.antt =====
-- What `snprintf` prints for "%zu" and "%d" of a number that is not negative, and that
-- `parse_content_length` of parser.c reads it back.
use native.Mathlib.Nat.{pow-suc}
use soter.Base.{
  ℕ, zero, suc, ◌+◌, ◌-◌, ◌*◌, ◌/◌, ◌%◌, ◌^◌, ◌≤◌, ◌<◌, ◌≡◌, refl, ap, ◌∙◌, inl, inr, some, [], ◌∷◌,
  ◌++◌, arith, ltb, length, All, All-append, Bool-cases, if◌then◌else◌, length-append, ltb→lt,
}
use soter.Http.{Bytes, digits, skip_space, parse_content_length, max_body_size}

-- The digits of a number, of which there are at most as many as rounds.
unfoldable pub decimal_from : ℕ → ℕ → Bytes
decimal_from zero n = []
decimal_from (suc rounds) n =
    let rest = decimal_from rounds (n / 10) ++ ((48 + n % 10) ∷ []) in
    if ltb n 10 then (48 + n) ∷ [] else rest

-- A `size_t` has at most twenty digits.
unfoldable pub decimal : ℕ → Bytes
unfolding decimal_from
decimal n = decimal_from 20 n

abbrev pub IsDigit : ℕ → Type 0
IsDigit c = (48 ≤ c) × (c ≤ 57)

decimal_from-IsDigit : (rounds n : ℕ) → All IsDigit (decimal_from rounds n)
unfolding decimal_from
decimal_from-IsDigit zero n = tt
decimal_from-IsDigit (suc rounds) n = elim (Bool-cases (ltb n 10)) [
  | inl one ↦ rw one ((omega arith, omega (arith, ltb→lt n 10 one)), tt)
  | inr more ↦ rw more (
      All-append IsDigit (decimal_from rounds (n / 10)) _ (decimal_from-IsDigit rounds (n / 10))
        ((omega arith, omega arith), tt))
]

decimal_from-pos : (rounds n : ℕ) → 1 ≤ length (decimal_from (suc rounds) n)
unfolding decimal_from
decimal_from-pos rounds n = elim (Bool-cases (ltb n 10)) [
  | inl one ↦ rw one (omega arith)
  | inr more ↦
      rw more (omega (arith, length-append (decimal_from rounds (n / 10)) ((48 + n % 10) ∷ [])))
]

digits_snoc :
    (xs : Bytes) (out v d : ℕ)
    → digits out xs ≡ some v
    → d < 10
    → v * 10 + d ≤ max_body_size
    → digits out (xs ++ ((48 + d) ∷ [])) ≡ some (v * 10 + d)
unfolding digits
digits_snoc [] out v d h small fits = ground arith
digits_snoc (c ∷ cs) out v d h small fits = ground (arith, digits_snoc cs (out * 10 + (c - 48)) v d)

one_digit : (n : ℕ) → n < 10 → digits 0 ((48 + n) ∷ []) ≡ some n
unfolding digits
one_digit n h = ground arith

digits-decimal_from :
    (rounds n : ℕ) → n < 10 ^ rounds → n ≤ max_body_size → digits 0 (decimal_from rounds n) ≡ some n
unfolding decimal_from digits
digits-decimal_from zero n h fits = ap some (omega (arith, h))
digits-decimal_from (suc rounds) n h fits = elim (Bool-cases (ltb n 10)) [
  | inl one ↦ rw one (one_digit n (ltb→lt n 10 one))
  | inr more ↦ rw more (
      digits_snoc (decimal_from rounds (n / 10)) 0 (n / 10) (n % 10)
        (digits-decimal_from rounds (n / 10) (omega (arith, h, pow-suc 10 rounds)) (omega arith))
        (omega arith) (omega arith)
      ∙ ap some (omega arith))
]

skip_space-IsDigit : (xs : Bytes) → All IsDigit xs → skip_space xs ≡ xs
unfolding skip_space
skip_space-IsDigit [] h = refl
skip_space-IsDigit (c ∷ cs) (hc, hs) = ground arith

-- The parser reads a length of at most 10 MB as it was printed.
pub parse_content_length-decimal :
    (n : ℕ) → n ≤ max_body_size → parse_content_length (decimal n) ≡ some n
unfolding decimal
parse_content_length-decimal n h =
    through (decimal_from 20 n) (decimal_from-IsDigit 20 n) (decimal_from-pos 19 n)
      (digits-decimal_from 20 n (omega arith) h)
  where
    through :
        (xs : Bytes)
        → All IsDigit xs
        → 1 ≤ length xs
        → digits 0 xs ≡ some n
        → parse_content_length xs ≡ some n
    through [] d p e = absurd (omega arith)
    through (c ∷ cs) d p e = unfold parse_content_length in (rw (skip_space-IsDigit (c ∷ cs) d) e)

pub decimal-IsDigit : (n : ℕ) → All IsDigit (decimal n)
unfolding decimal
decimal-IsDigit n = decimal_from-IsDigit 20 n

decimal_from-length : (rounds n : ℕ) → length (decimal_from rounds n) ≤ rounds
unfolding decimal_from
decimal_from-length zero n = omega arith
decimal_from-length (suc rounds) n = elim (Bool-cases (ltb n 10)) [
  | inl one ↦ rw one (omega arith)
  | inr more ↦ rw more (
      omega (
        arith,
        length-append (decimal_from rounds (n / 10)) ((48 + n % 10) ∷ []),
        decimal_from-length rounds (n / 10),
      ))
]

pub length-decimal : (n : ℕ) → length (decimal n) ≤ 20
unfolding decimal
length-decimal n = decimal_from-length 20 n
