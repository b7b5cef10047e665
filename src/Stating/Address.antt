-- ===== src/Stating/Address.antt =====
-- code/devcore/lownet/src/core.c on the memory of a `naddr_t`, as requests carry one: `ln_hton` and
-- `ln_ntoh` copy the text into a new structure and convert the port.
use soter.Base.{
  ℕ, ◌+◌, ◌-◌, ◌<◌, ◌≡◌, refl, sym, ap, ◌∙◌, false, Option, none, some, List, [], ◌∷◌, ◌++◌, arith,
  ltb, eqb, if◌then◌else◌, length, take, drop, replicate, u32_mod, All, length-append,
  length-replicate, suc, take-length, take-length-append, drop-append, lt→ltb,
}
use soter.Proto.Machine.{Host}

-- The text up to its end.
unfoldable pub c_text : List ℕ → List ℕ
c_text [] = []
c_text (c ∷ cs) = let rest = c_text cs in if eqb c 0 then [] else c ∷ rest

-- `strcpy` from one array of `size` bytes into another, which is all zeros; `none` where there is no
-- end in the array, so that the copy runs over the end of the other.
pub strcpy : ℕ → List ℕ → Option (List ℕ)
unfolding c_text
strcpy size bytes =
    let text = c_text (take size bytes) in
    if ltb (length text) size then some (text ++ replicate (size - length text) 0) else none

-- An address of a family, which is 0 for `nADDR_IPV4` and 1 for `nADDR_IPV6`: the text, the port,
-- zeros, and the family.
abbrev pub laid_out : Host → ℕ → List ℕ → List ℕ → ℕ → List ℕ
laid_out host family ip port zeros = ip ++ (port ++ (replicate zeros 0 ++ host.bytes_of family))

abbrev pub made : Option (List ℕ) → (List ℕ → List ℕ) → Option (List ℕ)
made none f = none
made (some ip) f = some (f ip)

-- `ln_hton` with what `htons` does to the two bytes of a port, and `ln_ntoh` with `ntohs`; `none` is a
-- copy that runs over.  The union is 48 bytes long and stands before the family.
pub converted : Host → (List ℕ → List ℕ) → List ℕ → Option (List ℕ)
unfolding strcpy
converted host swap addr =
    let family = host.word_of (take 4 (drop 48 addr)) in
    if eqb family 0
    then made (strcpy 16 addr) (λ ip. laid_out host 0 ip (swap (take 2 (drop 16 addr))) 30)
    else if eqb family 1
    then made (strcpy 46 addr) (λ ip. laid_out host 1 ip (swap (take 2 (drop 46 addr))) 0)
    else some (replicate 52 0)

-- An address that `ln_make4` or `ln_make6` made, of a text without zeros that fits.
pub data IsAddress (host : Host) : List ℕ → Type 0 where
  is_v4 :
      (text port : List ℕ)
      → All (λ c. eqb c 0 ≡ false) text
      → length text < 16
      → length port ≡ 2
      → IsAddress host (laid_out host 0 (text ++ replicate (16 - length text) 0) port 30)
  is_v6 :
      (text port : List ℕ)
      → All (λ c. eqb c 0 ≡ false) text
      → length text < 46
      → length port ≡ 2
      → IsAddress host (laid_out host 1 (text ++ replicate (46 - length text) 0) port 0)

c_text-zeros :
    (text : List ℕ) (n : ℕ) (rest : List ℕ)
    → All (λ c. eqb c 0 ≡ false) text
    → c_text (text ++ (0 ∷ rest)) ≡ text
unfolding c_text
c_text-zeros [] n rest h = refl
c_text-zeros (c ∷ text) n rest (h, hs) = rw h (ap (λ t. c ∷ t) (c_text-zeros text n rest hs))

-- Text and zeros that fill an array.
padded :
    (size : ℕ) (text : List ℕ)
    → length text < size
    → length (text ++ replicate (size - length text) 0) ≡ size
padded size text short = omega (
  arith,
  length-append text (replicate (size - length text) 0),
  length-replicate {A = ℕ} (size - length text) 0,
  short,
)

strcpy-padded :
    (size : ℕ) (text rest : List ℕ)
    → All (λ c. eqb c 0 ≡ false) text
    → length text < size
    → let ip = text ++ replicate (size - length text) 0 in strcpy size (ip ++ rest) ≡ some ip
unfolding strcpy
strcpy-padded size text rest real short =
    let ip : List ℕ = text ++ replicate (size - length text) 0 in
    let whole : take size (ip ++ rest) ≡ ip =
      take-length-append ip rest size (sym (padded size text short)) in
    let split : replicate (size - length text) 0 ≡ 0 ∷ replicate (size - length text - 1) 0 =
      let one_more : size - length text ≡ suc (size - length text - 1) = omega (arith, short) in
      ap (λ n. replicate n 0) one_more in
    let read : c_text (take size (ip ++ rest)) ≡ text =
      ap c_text (whole ∙ ap (λ z. text ++ z) split)
      ∙ c_text-zeros text 0 (replicate (size - length text - 1) 0) real in
    rw (strcpy, read, lt→ltb (length text) size short) refl

-- Where the family and the port stand.
module _ (host : Host) (family zeros : ℕ) (ip port : List ℕ) (two : length port ≡ 2)
    (fills : length ip + zeros ≡ 46) where
  abbrev at_end : List ℕ
  at_end = replicate zeros 0 ++ host.bytes_of family

  abbrev all : List ℕ
  all = laid_out host family ip port zeros

  family-laid_out : family < u32_mod → host.word_of (take 4 (drop 48 all)) ≡ family
  family-laid_out small =
      let past_ip : drop 48 all ≡ drop (2 + zeros) (port ++ at_end) =
        drop-append ip (port ++ at_end) 48 (2 + zeros) (omega (arith, fills)) in
      let past_port : drop (2 + zeros) (port ++ at_end) ≡ drop zeros at_end =
        drop-append port at_end (2 + zeros) zeros (omega (arith, two)) in
      let past_zeros : drop zeros at_end ≡ host.bytes_of family =
        drop-append (replicate zeros 0) (host.bytes_of family) zeros 0
          (omega (arith, length-replicate {A = ℕ} zeros 0)) in
      let whole : take 4 (host.bytes_of family) ≡ host.bytes_of family =
        ap (λ n. take n (host.bytes_of family)) (sym (host.length-bytes_of family))
        ∙ take-length (host.bytes_of family) in
      ap (λ b. host.word_of (take 4 b)) (past_ip ∙ past_port ∙ past_zeros)
      ∙ ap host.word_of whole
      ∙ host.word_of-bytes_of family small

  port-laid_out : take 2 (drop (length ip) all) ≡ port
  port-laid_out =
      ap (take 2) (drop-append ip (port ++ at_end) (length ip) 0 (omega arith))
      ∙ take-length-append port at_end 2 (sym two)

  length-laid_out : length all ≡ 52
  length-laid_out = omega (
    arith,
    length-append ip (port ++ at_end),
    length-append port at_end,
    length-append (replicate zeros 0) (host.bytes_of family),
    length-replicate {A = ℕ} zeros 0,
    host.length-bytes_of family,
    two,
    fills,
  )

module _ (host : Host) (swap : List ℕ → List ℕ) where
  converted-v4 :
      (text port : List ℕ)
      → All (λ c. eqb c 0 ≡ false) text
      → length text < 16
      → length port ≡ 2
      → let ip = text ++ replicate (16 - length text) 0 in
        converted host swap (laid_out host 0 ip port 30) ≡ some (laid_out host 0 ip (swap port) 30)
  unfolding converted
  converted-v4 text port real short two =
      let ip : List ℕ = text ++ replicate (16 - length text) 0 in
      let long : length ip ≡ 16 = padded 16 text short in
      let fam = family-laid_out host 0 30 ip port two (omega (arith, long)) (omega arith) in
      let at : take 2 (drop 16 (laid_out host 0 ip port 30)) ≡ port =
        ap (λ n. take 2 (drop n (laid_out host 0 ip port 30))) (sym long)
        ∙ port-laid_out host 0 30 ip port two (omega (arith, long)) in
      rw (converted, fam, strcpy-padded 16 text _ real short, at) refl

  converted-v6 :
      (text port : List ℕ)
      → All (λ c. eqb c 0 ≡ false) text
      → length text < 46
      → length port ≡ 2
      → let ip = text ++ replicate (46 - length text) 0 in
        converted host swap (laid_out host 1 ip port 0) ≡ some (laid_out host 1 ip (swap port) 0)
  unfolding converted
  converted-v6 text port real short two =
      let ip : List ℕ = text ++ replicate (46 - length text) 0 in
      let long : length ip ≡ 46 = padded 46 text short in
      let fam = family-laid_out host 1 0 ip port two (omega (arith, long)) (omega arith) in
      let at : take 2 (drop 46 (laid_out host 1 ip port 0)) ≡ port =
        ap (λ n. take 2 (drop n (laid_out host 1 ip port 0))) (sym long)
        ∙ port-laid_out host 1 0 ip port two (omega (arith, long)) in
      rw (converted, fam, strcpy-padded 46 text _ real short, at) refl

-- `htons` and `ntohs` on the two bytes of a port are each other's inverse.
pub record IsOrder (htons ntohs : List ℕ → List ℕ) : Type 0 where
  pub length-htons : (p : List ℕ) → length p ≡ 2 → length (htons p) ≡ 2
  pub ntohs-htons : (p : List ℕ) → length p ≡ 2 → ntohs (htons p) ≡ p

-- An address in network order: it is 52 bytes long, and is the address again in host order.
pub record InOrder (host : Host) (htons ntohs : List ℕ → List ℕ) (addr net : List ℕ) : Type 0 where
  pub to_net : converted host htons addr ≡ some net
  pub to_host : converted host ntohs net ≡ some addr
  pub size : length net ≡ 52

pub converted_twice :
    (host : Host) (htons ntohs : List ℕ → List ℕ) (addr : List ℕ)
    → IsOrder htons ntohs
    → IsAddress host addr
    → (net : List ℕ) × InOrder host htons ntohs addr net
converted_twice host htons ntohs addr order (is_v4 text port real short two) =
    let ip : List ℕ = text ++ replicate (16 - length text) 0 in
    let two' : length (htons port) ≡ 2 = order.length-htons port two in
    let fills : length ip + 30 ≡ 46 = omega (arith, padded 16 text short) in
    (
      laid_out host 0 ip (htons port) 30,
      record {
        to_net = converted-v4 host htons text port real short two;
        to_host =
            converted-v4 host ntohs text (htons port) real short two'
            ∙ ap (λ p. some (laid_out host 0 ip p 30)) (order.ntohs-htons port two);
        size = length-laid_out host 0 30 ip (htons port) two' fills;
      },
    )
converted_twice host htons ntohs addr order (is_v6 text port real short two) =
    let ip : List ℕ = text ++ replicate (46 - length text) 0 in
    let two' : length (htons port) ≡ 2 = order.length-htons port two in
    let fills : length ip + 0 ≡ 46 = omega (arith, padded 46 text short) in
    (
      laid_out host 1 ip (htons port) 0,
      record {
        to_net = converted-v6 host htons text port real short two;
        to_host =
            converted-v6 host ntohs text (htons port) real short two'
            ∙ ap (λ p. some (laid_out host 1 ip p 0)) (order.ntohs-htons port two);
        size = length-laid_out host 1 0 ip (htons port) two' fills;
      },
    )
