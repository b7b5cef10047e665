-- ===== src/Natpunch/Attributes.antt =====
-- stun.c: the loop over the attributes ends, and steps over what it does not know.
use soter.Base.{
  ℕ, zero, suc, ◌+◌, ◌*◌, ◌/◌, ◌≤◌, ◌<◌, ◌≡◌, refl, sym, ap, ◌∙◌, Bool, true, false, some, List, [],
  ◌∷◌, ◌++◌, arith, ltb, eqb, length, take, drop, length-append, drop-append, All, append_assoc,
  Bool-cases, Option-cases, inl, inr, le→not-ltb, not-ltb→le,
}
use soter.Natpunch.{
  Found, unfinished, be_from, word_at, is_xor, xor_mapped, mapped, attribute, scan,
}

abbrev pub is_unfinished : Found → Bool
is_unfinished unfinished = true
is_unfinished _ = false

xor_mapped-ends : (buf : List ℕ) (pos : ℕ) → is_unfinished (xor_mapped buf pos) ≡ false
unfolding xor_mapped
xor_mapped-ends buf pos = elim (Option-cases (word_at buf (pos + 6) 2)) [
  | inl e ↦ rw (xor_mapped, e) refl
  | inr (port, e) ↦ elim (Option-cases (word_at buf (pos + 8) 4)) [
    | inl f ↦ rw (xor_mapped, e, f) refl
    | inr (ip, f) ↦ rw (xor_mapped, e, f) refl
  ]
]

mapped-ends : (buf : List ℕ) (pos : ℕ) → is_unfinished (mapped buf pos) ≡ false
unfolding mapped
mapped-ends buf pos = elim (Option-cases (word_at buf (pos + 5) 1)) [
  | inl e ↦ rw (mapped, e) refl
  | inr (family, e) ↦ elim (Bool-cases (eqb family 1)) [
    | inr g ↦ rw (mapped, e, g) refl
    | inl g ↦ elim (Option-cases (word_at buf (pos + 6) 2)) [
      | inl f ↦ rw (mapped, e, g, f) refl
      | inr (port, f) ↦ elim (Option-cases (word_at buf (pos + 8) 4)) [
        | inl h ↦ rw (mapped, e, g, f, h) refl
        | inr (ip, h) ↦ rw (mapped, e, g, f, h) refl
      ]
    ]
  ]
]

attribute-ends :
    (buf : List ℕ) (pos type len : ℕ) (rest : Found)
    → is_unfinished rest ≡ false
    → is_unfinished (attribute buf pos type len rest) ≡ false
unfolding attribute
attribute-ends buf pos type len rest e =
    ground (arith, e, xor_mapped-ends buf pos, mapped-ends buf pos)

scan-round :
    (n : ℕ) (buf : List ℕ) (pos end_pos : ℕ)
    → ((len : ℕ)
        → pos + 4 ≤ end_pos
        → is_unfinished (scan n buf (pos + (4 + (len + 3) / 4 * 4)) end_pos) ≡ false)
    → is_unfinished (scan (suc n) buf pos end_pos) ≡ false
unfolding scan
scan-round n buf pos end_pos later = elim (Bool-cases (ltb end_pos (pos + 4))) [
  | inl over ↦ rw (scan, over) refl
  | inr on ↦ elim (Option-cases (word_at buf pos 2)) [
    | inl e ↦ rw (scan, on, e) refl
    | inr (type, e) ↦ elim (Option-cases (word_at buf (pos + 2) 2)) [
      | inl f ↦ rw (scan, on, e, f) refl
      | inr (len, f) ↦
          rw (scan, on, e, f)
            (attribute-ends buf pos type len (scan n buf (pos + (4 + (len + 3) / 4 * 4)) end_pos)
              (later len (not-ltb→le end_pos (pos + 4) on)))
    ]
  ]
]

-- A round goes at least four bytes further.
pub scan-ends :
    (n : ℕ) (buf : List ℕ) (pos end_pos : ℕ)
    → end_pos < pos + 4 * suc n
    → is_unfinished (scan (suc n) buf pos end_pos) ≡ false
scan-ends zero buf pos end_pos h =
    scan-round zero buf pos end_pos (λ len on. absurd (omega (arith, h, on)))
scan-ends (suc m) buf pos end_pos h =
    scan-round (suc m) buf pos end_pos
      (λ len on. scan-ends m buf (pos + (4 + (len + 3) / 4 * 4)) end_pos (omega (arith, h)))

-- A word that lies at some place of the list that follows what is before.
pub word_at-behind :
    (before rest : List ℕ) (k n : ℕ)
    → k + n ≤ length rest
    → word_at (before ++ rest) (length before + k) n ≡ some (be_from 0 (take n (drop k rest)))
unfolding word_at
word_at-behind before rest k n h =
    rw
      (
        word_at,
        le→not-ltb (length (before ++ rest)) (length before + k + n)
            (omega (arith, h, length-append before rest)),
        drop-append before rest (length before + k) k refl,
      )
      refl

-- An attribute that is not an address: its first four bytes and its body, padded.
pub record Other : Type 0 where
  pub type_high : ℕ
  pub type_low : ℕ
  pub len_high : ℕ
  pub len_low : ℕ
  pub body : List ℕ

abbrev pub type_of : Other → ℕ
type_of a = be_from 0 (a.type_high ∷ a.type_low ∷ [])

abbrev pub len_of : Other → ℕ
len_of a = be_from 0 (a.len_high ∷ a.len_low ∷ [])

abbrev pub bytes_of : Other → List ℕ
bytes_of a = a.type_high ∷ a.type_low ∷ a.len_high ∷ a.len_low ∷ a.body

abbrev pub all_bytes : List Other → List ℕ
all_bytes [] = []
all_bytes (a ∷ more) = bytes_of a ++ all_bytes more

-- Its body is as long as it says, rounded up, and its type is neither of the known ones.
pub record IsOther (a : Other) : Type 0 where
  pub padded : length a.body ≡ (len_of a + 3) / 4 * 4
  pub not_xor : is_xor (type_of a) ≡ false
  pub not_mapped : eqb (type_of a) 1 ≡ false

scan-other :
    (n : ℕ) (before rest : List ℕ) (a : Other) (end_pos : ℕ)
    → IsOther a
    → length before + 4 ≤ end_pos
    → scan (suc n) (before ++ (bytes_of a ++ rest)) (length before) end_pos
      ≡ scan n (before ++ (bytes_of a ++ rest)) (length before + length (bytes_of a)) end_pos
unfolding scan attribute be_from
scan-other n before rest a end_pos is room =
    let tail : List ℕ = bytes_of a ++ rest in
    let long : 4 ≤ length tail = omega (arith, length-append (bytes_of a) rest) in
    let type : word_at (before ++ tail) (length before) 2 ≡ some (type_of a) =
      ap (λ i. word_at (before ++ tail) i 2) (omega arith)
      ∙ word_at-behind before tail 0 2 (omega (arith, long)) in
    let len : word_at (before ++ tail) (length before + 2) 2 ≡ some (len_of a) =
      word_at-behind before tail 2 2 (omega (arith, long)) in
    rw
      (
        scan,
        le→not-ltb end_pos (length before + 4) room,
        type,
        len,
        attribute,
        is.not_xor,
        is.not_mapped,
      )
      (ap (λ k. scan n (before ++ tail) (length before + k) end_pos) (omega (arith, is.padded)))

-- So many rounds step over all of them.
pub scan-others :
    (n : ℕ) (before rest : List ℕ) (others : List Other) (end_pos : ℕ)
    → All IsOther others
    → length before + length (all_bytes others) ≤ end_pos
    → scan (length others + n) (before ++ (all_bytes others ++ rest)) (length before) end_pos
      ≡ scan n
          (before ++ (all_bytes others ++ rest))
          (length before + length (all_bytes others))
          end_pos
scan-others n before rest [] end_pos is room =
    let same : 0 + n ≡ n = omega arith in
    let here : length before ≡ length before + 0 = omega arith in
    λ i. scan (same i) (before ++ rest) (here i) end_pos
scan-others n before rest (a ∷ more) end_pos (is, are) room =
    let front : List ℕ = before ++ bytes_of a in
    let behind : List ℕ = all_bytes more ++ rest in
    let split : before ++ ((bytes_of a ++ all_bytes more) ++ rest)
        ≡ before ++ (bytes_of a ++ behind) =
      ap (λ t. before ++ t) (append_assoc (bytes_of a) (all_bytes more) rest) in
    let moved : front ++ behind ≡ before ++ (bytes_of a ++ behind) =
      append_assoc before (bytes_of a) behind in
    let count : suc (length more) + n ≡ suc (length more + n) = omega arith in
    let sizes = length-append (bytes_of a) (all_bytes more) in
    let place : length front ≡ length before + length (bytes_of a) =
      length-append before (bytes_of a) in
    let total : length front + length (all_bytes more)
        ≡ length before + length (bytes_of a ++ all_bytes more) =
      omega (arith, sizes, place) in
    (λ i. scan (count i) (split i) (length before) end_pos)
    ∙ scan-other (length more + n) before behind a end_pos is (omega (arith, room, sizes))
    ∙ (λ i. scan (length more + n) (sym moved i) (sym place i) end_pos)
    ∙ scan-others n front rest more end_pos are (omega (arith, room, total))
    ∙ (λ i. scan n ((moved ∙ sym split) i) (total i) end_pos)
