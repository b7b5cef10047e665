-- ===== src/Http/Fields.antt =====
-- parser.c: header fields, printed as api.c does and read back.
use soter.Base.{
  All-map, ℕ, suc, ◌+◌, ◌≤◌, ◌<◌, ◌≡◌, refl, sym, ap, ap₂, ◌∙◌, true, false, some, List, [], ◌∷◌,
  ◌++◌, map, arith, eqb, length, All, All-append, length-append, append_assoc, take-length-append,
  drop-append, lt→ltb,
}
use mathlib.Core.List.{append-nil}
use soter.Http.{
  Bytes, Header, Parsed, skip_blanks, store_header, take_line, parse_content_length, max_headers,
  max_header_size, max_body_size, same_letters, content_length_key,
}
use soter.Http.Search.{Free, find_byte-append}
use soter.Http.Decimal.{
  decimal, IsDigit, decimal-IsDigit, length-decimal, parse_content_length-decimal,
}
use soter.Http.Headers.{run_lines}
use soter.Http.Build.{length_header}

-- `"%s: %s\r\n"` without its CRLF.
abbrev pub rendered : Header → Bytes
rendered h = h.key ++ (b':' ∷ 32 ∷ h.value)

-- A header that can be printed and read back: its value does not begin with a blank.
pub record IsField (h : Header) : Type 0 where
  pub key_colon : Free b':' h.key
  pub key_line : Free 13 h.key
  pub value_line : Free 13 h.value
  pub value_start : skip_blanks h.value ≡ h.value
  pub key_short : length h.key < max_header_size
  pub value_short : length h.value < max_header_size

pub rendered-Free : (h : Header) → IsField h → Free 13 (rendered h)
rendered-Free h f =
    All-append (λ b. eqb b 13 ≡ false) h.key (b':' ∷ 32 ∷ h.value) f.key_line
      (refl, (refl, f.value_line))

pub take_line-rendered :
    (p : Parsed) (h : Header) → IsField h → take_line p (rendered h) ≡ store_header p h.key h.value
unfolding take_line skip_blanks
take_line-rendered p h f =
    rw (take_line, find_byte-append b':' h.key (32 ∷ h.value) f.key_colon)
      (ap₂ (store_header p) (take-length-append h.key (b':' ∷ 32 ∷ h.value) (length h.key) refl) (
        ap skip_blanks
          (drop-append h.key (b':' ∷ 32 ∷ h.value) (suc (length h.key)) 1 (omega arith))
        ∙ f.value_start))

-- What a header that fits adds.
pub store_header-other :
    (p : Parsed) (h : Header)
    → IsField h
    → length p.headers < max_headers
    → same_letters h.key content_length_key ≡ false
    → store_header p h.key h.value ≡ some (record p { headers = p.headers ++ (h ∷ []) })
unfolding store_header
store_header-other p h f room other =
    rw
      (
        store_header,
        lt→ltb (length p.headers) max_headers room,
        lt→ltb (length h.key) max_header_size f.key_short,
        lt→ltb (length h.value) max_header_size f.value_short,
        other,
      )
      refl

pub store_header-length :
    (p : Parsed) (h : Header) (n : ℕ)
    → IsField h
    → length p.headers < max_headers
    → same_letters h.key content_length_key ≡ true
    → parse_content_length h.value ≡ some n
    → store_header p h.key h.value
      ≡ some (record { headers = p.headers ++ (h ∷ []); content_length = n })
unfolding store_header
store_header-length p h n f room same parsed =
    rw
      (
        store_header,
        lt→ltb (length p.headers) max_headers room,
        lt→ltb (length h.key) max_header_size f.key_short,
        lt→ltb (length h.value) max_header_size f.value_short,
        same,
        parsed,
      )
      refl

digit-not-13 : (c : ℕ) → IsDigit c → eqb c 13 ≡ false
digit-not-13 c h = ground arith

skip_blanks-IsDigit : (xs : Bytes) → All IsDigit xs → skip_blanks xs ≡ xs
unfolding skip_blanks
skip_blanks-IsDigit [] h = refl
skip_blanks-IsDigit (c ∷ cs) (hc, hs) = ground arith

pub length_header-IsField : (n : ℕ) → IsField (length_header n)
length_header-IsField n = record {
  key_colon = (
    refl,
    (
      refl,
      (
        refl,
        (refl, (refl, (refl, (refl, (refl, (refl, (refl, (refl, (refl, (refl, (refl, tt))))))))))),
      ),
    ),
  );
  key_line = (
    refl,
    (
      refl,
      (
        refl,
        (refl, (refl, (refl, (refl, (refl, (refl, (refl, (refl, (refl, (refl, (refl, tt))))))))))),
      ),
    ),
  );
  value_line = All-map IsDigit (λ c. eqb c 13 ≡ false) digit-not-13 (decimal n) (decimal-IsDigit n);
  value_start = skip_blanks-IsDigit (decimal n) (decimal-IsDigit n);
  key_short = omega arith;
  value_short = omega (arith, length-decimal n);
}

-- A field that is not the announced length.
abbrev pub IsOther : Header → Type 0
IsOther h = IsField h × (same_letters h.key content_length_key ≡ false)

-- Header lines that fit are stored in their order.
pub run_lines-others :
    (p : Parsed) (hs : List Header)
    → All IsOther hs
    → length p.headers + length hs ≤ max_headers
    → run_lines p (map rendered hs) ≡ some (record p { headers = p.headers ++ hs })
unfolding run_lines
run_lines-others p [] h few = ap (λ t. some (record p { headers = t })) (sym (append-nil p.headers))
run_lines-others p (x ∷ hs) ((f, other), rest) few =
    let q : Parsed = record p { headers = p.headers ++ (x ∷ []) } in
    let stored : take_line p (rendered x) ≡ some q =
      take_line-rendered p x f ∙ store_header-other p x f (omega (arith, few)) other in
    rw (run_lines, stored)
      (run_lines-others q hs rest (omega (arith, few, length-append p.headers (x ∷ [])))
        ∙ ap (λ t. some (record p { headers = t })) (append_assoc p.headers (x ∷ []) hs))

-- The announced length is read back.
pub length_header-stored :
    (p : Parsed) (n : ℕ)
    → length p.headers < max_headers
    → n ≤ max_body_size
    → take_line p (rendered (length_header n))
      ≡ some (record { headers = p.headers ++ (length_header n ∷ []); content_length = n })
unfolding same_letters
length_header-stored p n room fits =
    take_line-rendered p (length_header n) (length_header-IsField n)
    ∙ store_header-length p (length_header n) n (length_header-IsField n) room refl
        (parse_content_length-decimal n fits)
