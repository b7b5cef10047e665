-- ===== src/Stating/Layout.antt =====
-- state.c: a request in memory.
use soter.Base.{
  ℕ, ◌+◌, ◌<◌, ◌≡◌, sym, ap, ◌∙◌, List, ◌++◌, arith, length, take, drop, u32_mod, size_mod,
  length-append, take-length-append, drop-append, take-length,
}
use soter.Proto.Machine.{Host}
use soter.Crypto.Library.{Sodium}
use soter.Stating.{StateRequest, request_size, request_image, request_of}
use soter.Stating.Machine.{Wide, IsWide}

-- The fields have their widths.
pub record Fits (req : StateRequest) : Type 0 where
  pub length_addr : length req.addr ≡ 52
  pub length_pubkey : length req.pubkey ≡ 32
  pub length_signature : length req.signature ≡ 64
  pub uid_lt : req.uid < u32_mod
  pub type_lt : req.type < u32_mod
  pub nonce_lt : req.nonce < u32_mod
  pub timestamp_lt : req.timestamp < size_mod

-- The `n` bytes from the `d`th on, a field of `d - m` bytes being before them.
after :
    (n d m : ℕ) (xs ys : List ℕ)
    → d ≡ length xs + m
    → take n (drop d (xs ++ ys)) ≡ take n (drop m ys)
after n d m xs ys e = ap (take n) (drop-append xs ys d m e)

at_front : (n : ℕ) (xs ys : List ℕ) → length xs ≡ n → take n (xs ++ ys) ≡ xs
at_front n xs ys e = take-length-append xs ys n (sym e)

module _ (host : Host) (wide : Wide) (sodium : Sodium) (laws : IsWide host wide) where
  pub length-request_image :
      (req : StateRequest) → Fits req → length (request_image host wide sodium req) ≡ request_size
  unfolding request_image
  length-request_image req fits =
      let t6 : List ℕ = host.bytes_of req.nonce ++ wide.bytes_of64 req.timestamp in
      let t5 : List ℕ = host.bytes_of req.type ++ t6 in
      let t4 : List ℕ = req.signature ++ t5 in
      let t3 : List ℕ = req.pubkey ++ t4 in
      let t2 : List ℕ = host.bytes_of req.uid ++ t3 in
      omega (
        arith,
        length-append req.addr t2,
        length-append (host.bytes_of req.uid) t3,
        length-append req.pubkey t4,
        length-append req.signature t5,
        length-append (host.bytes_of req.type) t6,
        length-append (host.bytes_of req.nonce) (wide.bytes_of64 req.timestamp),
        host.length-bytes_of req.uid,
        host.length-bytes_of req.type,
        host.length-bytes_of req.nonce,
        laws.length-bytes_of64 req.timestamp,
        fits.length_addr,
        fits.length_pubkey,
        fits.length_signature,
      )

  pub request_of-request_image :
      (req : StateRequest)
      → Fits req
      → request_of host wide sodium (request_image host wide sodium req) ≡ req
  unfolding request_of request_image
  request_of-request_image req fits =
      let b2 : List ℕ = host.bytes_of req.uid in
      let b5 : List ℕ = host.bytes_of req.type in
      let b6 : List ℕ = host.bytes_of req.nonce in
      let b7 : List ℕ = wide.bytes_of64 req.timestamp in
      let e2 : length b2 ≡ 4 = host.length-bytes_of req.uid in
      let e5 : length b5 ≡ 4 = host.length-bytes_of req.type in
      let e6 : length b6 ≡ 4 = host.length-bytes_of req.nonce in
      let t6 : List ℕ = b6 ++ b7 in
      let t5 : List ℕ = b5 ++ t6 in
      let t4 : List ℕ = req.signature ++ t5 in
      let t3 : List ℕ = req.pubkey ++ t4 in
      let t2 : List ℕ = b2 ++ t3 in
      let ea = fits.length_addr in
      let ep = fits.length_pubkey in
      let es = fits.length_signature in
      let f1 : take 52 (req.addr ++ t2) ≡ req.addr = at_front 52 req.addr t2 ea in
      let f2 : take 4 (drop 52 (req.addr ++ t2)) ≡ b2 =
        after 4 52 0 req.addr t2 (omega (arith, ea)) ∙ at_front 4 b2 t3 e2 in
      let f3 : take 32 (drop 56 (req.addr ++ t2)) ≡ req.pubkey =
        after 32 56 4 req.addr t2 (omega (arith, ea))
        ∙ after 32 4 0 b2 t3 (omega (arith, e2))
        ∙ at_front 32 req.pubkey t4 ep in
      let f4 : take 64 (drop 88 (req.addr ++ t2)) ≡ req.signature =
        after 64 88 36 req.addr t2 (omega (arith, ea))
        ∙ after 64 36 32 b2 t3 (omega (arith, e2))
        ∙ after 64 32 0 req.pubkey t4 (omega (arith, ep))
        ∙ at_front 64 req.signature t5 es in
      let behind : (n m : ℕ) → take n (drop (152 + m) (req.addr ++ t2)) ≡ take n (drop m t5) =
        λ n m.
          after n (152 + m) (100 + m) req.addr t2 (omega (arith, ea))
          ∙ after n (100 + m) (96 + m) b2 t3 (omega (arith, e2))
          ∙ after n (96 + m) (64 + m) req.pubkey t4 (omega (arith, ep))
          ∙ after n (64 + m) m req.signature t5 (omega (arith, es)) in
      let f5 : take 4 (drop 152 (req.addr ++ t2)) ≡ b5 = behind 4 0 ∙ at_front 4 b5 t6 e5 in
      let f6 : take 4 (drop 156 (req.addr ++ t2)) ≡ b6 =
        behind 4 4 ∙ after 4 4 0 b5 t6 (omega (arith, e5)) ∙ at_front 4 b6 b7 e6 in
      let f7 : take 8 (drop 160 (req.addr ++ t2)) ≡ b7 =
        behind 8 8
        ∙ after 8 8 4 b5 t6 (omega (arith, e5))
        ∙ after 8 4 0 b6 b7 (omega (arith, e6))
        ∙ ap (λ k. take k b7) (sym (laws.length-bytes_of64 req.timestamp))
        ∙ take-length b7 in
      let g2 = ap host.word_of f2 ∙ host.word_of-bytes_of req.uid fits.uid_lt in
      let g5 = ap host.word_of f5 ∙ host.word_of-bytes_of req.type fits.type_lt in
      let g6 = ap host.word_of f6 ∙ host.word_of-bytes_of req.nonce fits.nonce_lt in
      let g7 = ap wide.word_of64 f7 ∙ laws.word_of64-bytes_of64 req.timestamp fits.timestamp_lt in
      λ i. record {
        addr = f1 i;
        uid = g2 i;
        pubkey = f3 i;
        signature = f4 i;
        type = g5 i;
        nonce = g6 i;
        timestamp = g7 i;
      }
