-- ===== src/Natpunch/Mapped.antt =====
-- stun.c: the address that an answer holds.
use Prim.Native.Nat.{bit_xor}
use soter.Base.{
  ℕ, suc, ◌+◌, ◌≤◌, ◌<◌, ◌≡◌, refl, ap, ◌∙◌, true, some, List, [], ◌∷◌, ◌++◌, arith, length, drop,
  length-append, All, le→not-ltb, lt→ltb,
}
use soter.Natpunch.{
  discovered, overread, be_from, word_at, is_xor, xor_mapped, attribute, scan, parse, buffer_size,
  header_size, magic_cookie,
}
use soter.Natpunch.Attributes.{Other, IsOther, all_bytes, word_at-behind}
use soter.Natpunch.Answers.{answer, reach}

-- An attribute of a mapped address that is at least as long as it must be.
scan-xor :
    (n : ℕ) (before rest : List ℕ) (type_high type_low len_high len_low end_pos : ℕ)
    → is_xor (be_from 0 (type_high ∷ type_low ∷ [])) ≡ true
    → 8 ≤ be_from 0 (len_high ∷ len_low ∷ [])
    → length before + 4 ≤ end_pos
    → let buf = before ++ (type_high ∷ type_low ∷ len_high ∷ len_low ∷ rest) in
      scan (suc n) buf (length before) end_pos ≡ xor_mapped buf (length before)
unfolding scan attribute be_from
scan-xor n before rest type_high type_low len_high len_low end_pos known long room =
    let tail : List ℕ = type_high ∷ type_low ∷ len_high ∷ len_low ∷ rest in
    let len : ℕ = be_from 0 (len_high ∷ len_low ∷ []) in
    let type_there : word_at (before ++ tail) (length before) 2
        ≡ some (be_from 0 (type_high ∷ type_low ∷ [])) =
      ap (λ i. word_at (before ++ tail) i 2) (omega arith)
      ∙ word_at-behind before tail 0 2 (omega arith) in
    let len_there : word_at (before ++ tail) (length before + 2) 2 ≡ some len =
      word_at-behind before tail 2 2 (omega arith) in
    rw
      (
        scan,
        le→not-ltb end_pos (length before + 4) room,
        type_there,
        len_there,
        attribute,
        known,
        le→not-ltb len 8 long,
      )
      refl

eight : 8 ≤ be_from 0 (0 ∷ 8 ∷ [])
unfolding be_from
eight = omega arith

-- An answer of at most 1024 bytes, that announces its length, with any other attributes in any number
-- before the address, is read as that address: the bytes that came are, combined with the cookie, the IP
-- address and the port.
pub parse-mapped_address :
    (len_high len_low type_high p1 p0 i3 i2 i1 i0 : ℕ) (id : List ℕ) (others : List Other)
    → length id ≡ 12
    → All IsOther others
    → is_xor (be_from 0 (type_high ∷ 0x20 ∷ [])) ≡ true
    → be_from 0 (len_high ∷ len_low ∷ []) ≡ length (all_bytes others) + 12
    → header_size + (length (all_bytes others) + 12) ≤ buffer_size
    → parse (
        answer len_high len_low id others
          (type_high ∷ 0x20 ∷ 0 ∷ 8 ∷ 0 ∷ 1 ∷ p1 ∷ p0 ∷ i3 ∷ i2 ∷ i1 ∷ i0 ∷ []))
      ≡ discovered
          (bit_xor (be_from 0 (i3 ∷ i2 ∷ i1 ∷ i0 ∷ [])) magic_cookie)
          (bit_xor (be_from 0 (p1 ∷ p0 ∷ [])) 0x2112)
unfolding xor_mapped
parse-mapped_address len_high len_low type_high p1 p0 i3 i2 i1 i0 id others twelve are known
      announced fits =
    let rest : List ℕ = type_high ∷ 0x20 ∷ 0 ∷ 8 ∷ 0 ∷ 1 ∷ p1 ∷ p0 ∷ i3 ∷ i2 ∷ i1 ∷ i0 ∷ [] in
    let (n, before, zeros, place, whole, e) =
      reach len_high len_low id others rest twelve are announced fits in
    let tail : List ℕ = rest ++ zeros in
    let twelve_more : 12 ≤ length tail = omega (arith, length-append rest zeros) in
    e
    ∙ scan-xor n before (drop 4 tail) type_high 0x20 0 8 (length before + 12) known eight
        (omega arith)
    ∙ rw
        (
          xor_mapped,
          word_at-behind before tail 6 2 (omega (arith, twelve_more)),
          word_at-behind before tail 8 4 (omega (arith, twelve_more)),
        )
        refl

-- An answer that fills the buffer up to the head of such an attribute makes the code read behind the
-- buffer.
pub parse-overread :
    (len_high len_low type_high type_low size_high size_low : ℕ) (id : List ℕ) (others : List Other)
    → length id ≡ 12
    → All IsOther others
    → is_xor (be_from 0 (type_high ∷ type_low ∷ [])) ≡ true
    → 8 ≤ be_from 0 (size_high ∷ size_low ∷ [])
    → be_from 0 (len_high ∷ len_low ∷ []) ≡ 1004
    → length (all_bytes others) ≡ 1000
    → parse (answer len_high len_low id others (type_high ∷ type_low ∷ size_high ∷ size_low ∷ []))
      ≡ overread
unfolding xor_mapped word_at
parse-overread len_high len_low type_high type_low size_high size_low id others twelve are known
      long announced full =
    let rest : List ℕ = type_high ∷ type_low ∷ size_high ∷ size_low ∷ [] in
    let (n, before, zeros, place, whole, e) =
      reach len_high len_low id others rest twelve are (omega (arith, announced, full))
        (omega (arith, full)) in
    let buf : List ℕ = before ++ (rest ++ zeros) in
    let behind : length buf < length before + 6 + 2 =
      omega (arith, whole, place, full, length-append before (rest ++ zeros)) in
    e
    ∙ scan-xor n before zeros type_high type_low size_high size_low (length before + 4) known long
        (omega arith)
    ∙ rw (xor_mapped, word_at, lt→ltb (length buf) (length before + 6 + 2) behind) refl
