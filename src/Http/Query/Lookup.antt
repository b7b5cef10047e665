-- ===== src/Http/Query/Lookup.antt =====
-- parser.c: which value `uhttp_get_query_param` finds.
use soter.Base.{
  eqb_flip, pos→not-eqb, ℕ, zero, suc, ◌-◌, ◌≤◌, ◌<◌, ◌≡◌, refl, sym, ap, ap₂, ◌∙◌, true, false,
  Option, none, some, inl, inr, List, [], ◌∷◌, ◌++◌, arith, eqb, length, drop, All, All-append,
  Bool-cases, length-append, append_assoc, drop-append, take-length-append, eqb_refl, eqb→eq,
}
use soter.Http.{Bytes, starts_with, find_byte}
use soter.Http.Search.{Free, find_byte-append}
use soter.Http.Query.{
  decode, matches, up_to_amp, inside_param, search, found, skip_mark, get_query_param,
}

-- The text of a query, without a mark before it.
abbrev pub query_text : List (Bytes × Bytes) → Bytes
query_text [] = []
query_text ((k, v) ∷ []) = k ++ (b'=' ∷ v)
query_text ((k, v) ∷ p ∷ ps) = k ++ (b'=' ∷ (v ++ (b'&' ∷ query_text (p ∷ ps))))

abbrev pub IsPair : Bytes × Bytes → Type 0
IsPair (k, v) = Free b'=' k × Free b'&' k × Free b'&' v

matches-same : (name rest : Bytes) → matches name (name ++ (b'=' ∷ rest)) ≡ true
unfolding matches starts_with
matches-same [] rest = refl
matches-same (n ∷ ns) rest = rw (eqb_refl n) (matches-same ns rest)

matches-other :
    (name k rest : Bytes)
    → Free b'=' name
    → Free b'=' k
    → ¬ (name ≡ k)
    → matches name (k ++ (b'=' ∷ rest)) ≡ false
unfolding matches starts_with
matches-other [] [] rest hn hk h = absurd (h refl)
matches-other [] (k ∷ ks) rest hn (hk, hks) h = rw (eqb_flip k b'=' hk) refl
matches-other (n ∷ ns) [] rest (hn, hns) hk h = rw hn refl
matches-other (n ∷ ns) (k ∷ ks) rest (hn, hns) (hk, hks) h = elim (Bool-cases (eqb n k)) [
  | inr apart ↦ rw apart refl
  | inl same ↦
      rw same (matches-other ns ks rest hns hks λ e. h (ap₂ (λ x xs. x ∷ xs) (eqb→eq n k same) e))
]

search-match :
    (rounds : ℕ) (name : Bytes) (prev : Option ℕ) (p : Bytes)
    → 1 ≤ length p
    → inside_param prev ≡ false
    → matches name p ≡ true
    → search (suc rounds) name prev p ≡ some (up_to_amp (drop (suc (length name)) p))
unfolding search
search-match rounds name prev [] long start h = absurd (omega (arith, long))
search-match rounds name prev (c ∷ cs) long start h = rw (search, start, h) refl

search-jump :
    (rounds : ℕ) (name : Bytes) (prev : Option ℕ) (p : Bytes) (i : ℕ)
    → 1 ≤ length p
    → inside_param prev ≡ false
    → matches name p ≡ false
    → find_byte b'&' p ≡ some i
    → search (suc rounds) name prev p ≡ search rounds name (some b'&') (drop (suc i) p)
unfolding search
search-jump rounds name prev [] i long start h at = absurd (omega (arith, long))
search-jump rounds name prev (c ∷ cs) i long start h at = rw (search, start, h, at) refl

find_byte-none : (c : ℕ) (xs : Bytes) → Free c xs → find_byte c xs ≡ none
unfolding find_byte
find_byte-none c [] h = refl
find_byte-none c (x ∷ xs) (hx, hs) = rw (find_byte, hx, find_byte-none c xs hs) refl

up_to_amp-last : (v : Bytes) → Free b'&' v → up_to_amp v ≡ v
unfolding up_to_amp
up_to_amp-last v h = rw (up_to_amp, find_byte-none b'&' v h) refl

up_to_amp-append : (v rest : Bytes) → Free b'&' v → up_to_amp (v ++ (b'&' ∷ rest)) ≡ v
unfolding up_to_amp
up_to_amp-append v rest h =
    rw (up_to_amp, find_byte-append b'&' v rest h)
      (take-length-append v (b'&' ∷ rest) (length v) refl)

-- What stands behind the name and its '='.
value_behind : (name rest : Bytes) → drop (suc (length name)) (name ++ (b'=' ∷ rest)) ≡ rest
value_behind name rest = drop-append name (b'=' ∷ rest) (suc (length name)) 1 (omega arith)

-- A parameter of another name is stepped over.
search-other :
    (rounds : ℕ) (name k w : Bytes) (prev : Option ℕ) (rest : Bytes)
    → Free b'=' name
    → IsPair (k, w)
    → ¬ (name ≡ k)
    → inside_param prev ≡ false
    → search (suc rounds) name prev (k ++ (b'=' ∷ (w ++ (b'&' ∷ rest))))
      ≡ search rounds name (some b'&') rest
search-other rounds name k w prev rest hn (hk, hk', hw) apart start =
    let first : Bytes = k ++ (b'=' ∷ w) in
    let p : Bytes = k ++ (b'=' ∷ (w ++ (b'&' ∷ rest))) in
    let split : p ≡ first ++ (b'&' ∷ rest) = sym (append_assoc k (b'=' ∷ w) (b'&' ∷ rest)) in
    let at : find_byte b'&' p ≡ some (length first) =
      ap (find_byte b'&') split
      ∙ find_byte-append b'&' first rest
          (All-append (λ b. eqb b b'&' ≡ false) k (b'=' ∷ w) hk' (refl, hw)) in
    search-jump rounds name prev p (length first)
      (omega (arith, length-append k (b'=' ∷ (w ++ (b'&' ∷ rest))))) start
      (matches-other name k (w ++ (b'&' ∷ rest)) hn hk apart) at
    ∙ ap (search rounds name (some b'&')) (
        ap (drop (suc (length first))) split
        ∙ drop-append first (b'&' ∷ rest) (suc (length first)) 1 (omega arith))

query_text-more :
    (k w : Bytes) (before : List (Bytes × Bytes)) (x : Bytes × Bytes) (after : List (Bytes × Bytes))
    → query_text ((k, w) ∷ (before ++ (x ∷ after)))
      ≡ k ++ (b'=' ∷ (w ++ (b'&' ∷ query_text (before ++ (x ∷ after)))))
query_text-more k w [] x after = refl
query_text-more k w (b ∷ before) x after = refl

-- A parameter before the one that is looked for.
abbrev pub IsBefore : Bytes → Bytes × Bytes → Type 0
IsBefore name p = IsPair p × (¬ (name ≡ p.0))

search-query_text :
    (rounds : ℕ) (name v : Bytes) (prev : Option ℕ) (before after : List (Bytes × Bytes))
    → All (IsBefore name) before
    → IsPair (name, v)
    → inside_param prev ≡ false
    → length (query_text (before ++ ((name, v) ∷ after))) ≤ rounds
    → search rounds name prev (query_text (before ++ ((name, v) ∷ after))) ≡ some v
unfolding inside_param
search-query_text zero name v prev [] [] hb hp start enough =
    absurd (omega (arith, enough, length-append name (b'=' ∷ v)))
search-query_text zero name v prev [] (x ∷ after) hb hp start enough =
    absurd
      (omega (arith, enough, length-append name (b'=' ∷ (v ++ (b'&' ∷ query_text (x ∷ after))))))
search-query_text (suc rounds) name v prev [] [] hb hp start enough =
    search-match rounds name prev (name ++ (b'=' ∷ v))
      (omega (arith, length-append name (b'=' ∷ v))) start (matches-same name v)
    ∙ ap some (ap up_to_amp (value_behind name v) ∙ up_to_amp-last v hp.2)
search-query_text (suc rounds) name v prev [] (x ∷ after) hb hp start enough =
    let rest : Bytes = v ++ (b'&' ∷ query_text (x ∷ after)) in
    search-match rounds name prev (name ++ (b'=' ∷ rest))
      (omega (arith, length-append name (b'=' ∷ rest))) start (matches-same name rest)
    ∙ ap some
        (ap up_to_amp (value_behind name rest) ∙ up_to_amp-append v (query_text (x ∷ after)) hp.2)
search-query_text zero name v prev ((k, w) ∷ before) after ((hk, apart), hb) hp start enough =
    let rest : Bytes = query_text (before ++ ((name, v) ∷ after)) in
    absurd (
      omega (
        arith,
        enough,
        ap length (query_text-more k w before (name, v) after),
        length-append k (b'=' ∷ (w ++ (b'&' ∷ rest))),
      ))
search-query_text (suc rounds) name v prev ((k, w) ∷ before) after ((hk, apart), hb) hp start
      enough =
    let rest : Bytes = query_text (before ++ ((name, v) ∷ after)) in
    let more = query_text-more k w before (name, v) after in
    let shorter : length rest ≤ rounds = omega (
      arith,
      enough,
      ap length more,
      length-append k (b'=' ∷ (w ++ (b'&' ∷ rest))),
      length-append w (b'&' ∷ rest),
    ) in
    ap (search (suc rounds) name prev) more
    ∙ search-other rounds name k w prev rest hp.0 hk apart start
    ∙ search-query_text rounds name v (some b'&') before after hb hp refl shorter

-- In a query of `name=value` parts after its mark, the value of the first part with the name that is
-- looked for is found and decoded, cut off where the room ends.
pub get_query_param-query_text :
    (n : ℕ) (name v : Bytes) (before after : List (Bytes × Bytes)) (max_out_size : ℕ)
    → All (IsBefore (n ∷ name)) before
    → IsPair (n ∷ name, v)
    → 0 < max_out_size
    → get_query_param true
        (some (b'?' ∷ query_text (before ++ ((n ∷ name, v) ∷ after))))
        (n ∷ name)
        max_out_size
      ≡ found (decode (max_out_size - 1) v)
unfolding get_query_param skip_mark inside_param
get_query_param-query_text n name v before after max_out_size hb hp room =
    let text : Bytes = query_text (before ++ ((n ∷ name, v) ∷ after)) in
    rw
      (
        get_query_param,
        pos→not-eqb max_out_size room,
        search-query_text (length text) (n ∷ name) v none before after hb hp refl (omega arith),
      )
      refl
