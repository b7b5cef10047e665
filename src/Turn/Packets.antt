-- ===== src/Turn/Packets.antt =====
-- packets.c: a request as it is made and as it is read.
use soter.Base.{
  ℕ, zero, suc, ◌+◌, ◌-◌, ◌≤◌, ◌≡◌, refl, ap, ◌∙◌, false, List, [], ◌∷◌, ◌++◌, arith, eqb, length,
  take, drop, length-append, length-drop, drop-append, le→not-ltb,
}
use soter.Proto.Machine.{Host}
use soter.Turn.{
  RequestType, TurnRequest, address_size, header_size, dropped, req_make, request_image, word_at,
  req_recv,
}

-- What is taken and dropped inside the first of two lists.
take-inside : (n : ℕ) (xs ys : List ℕ) → n ≤ length xs → take n (xs ++ ys) ≡ take n xs
take-inside zero xs ys h = refl
take-inside (suc n) [] ys h = absurd (omega (arith, h))
take-inside (suc n) (x ∷ xs) ys h = ap (λ t. x ∷ t) (take-inside n xs ys (omega (arith, h)))

drop-inside : (n : ℕ) (xs ys : List ℕ) → n ≤ length xs → drop n (xs ++ ys) ≡ drop n xs ++ ys
drop-inside zero xs ys h = refl
drop-inside (suc n) [] ys h = absurd (omega (arith, h))
drop-inside (suc n) (x ∷ xs) ys h = drop-inside n xs ys (omega (arith, h))

module _ (host : Host) where
  -- The word that is read as the data's size lies inside the address.
  size_word :
      (r : TurnRequest)
      → length r.to_whom ≡ address_size
      → word_at host 56 (request_image host r) ≡ host.word_of (take 4 (drop 44 r.to_whom))
  unfolding request_image
  size_word r whole =
      let behind : List ℕ = host.bytes_of r.d_size ++ r.data_bytes in
      let three : List ℕ = r.to_whom ++ behind in
      let words : drop 56 (request_image host r) ≡ drop 44 three =
        drop-append (host.bytes_of r.type) _ 56 52 (omega (arith, host.length-bytes_of r.type))
        ∙ drop-append (host.bytes_of r.to_uid) _ 52 48
            (omega (arith, host.length-bytes_of r.to_uid))
        ∙ drop-append (host.bytes_of r.truid) three 48 44
            (omega (arith, host.length-bytes_of r.truid)) in
      let inside : take 4 (drop 44 three) ≡ take 4 (drop 44 r.to_whom) =
        ap (take 4) (drop-inside 44 r.to_whom behind (omega (arith, whole)))
        ∙ take-inside 4 (drop 44 r.to_whom) behind
            (omega (arith, whole, length-drop 44 r.to_whom)) in
      ap host.word_of (ap (take 4) words ∙ inside)

  length-request_image :
      (r : TurnRequest)
      → length r.to_whom ≡ address_size
      → length (request_image host r) ≡ header_size + length r.data_bytes
  unfolding request_image
  length-request_image r whole =
      let behind : List ℕ = host.bytes_of r.d_size ++ r.data_bytes in
      omega (
        arith,
        whole,
        length-append (host.bytes_of r.type)
            (host.bytes_of r.to_uid ++ (host.bytes_of r.truid ++ (r.to_whom ++ behind))),
        length-append (host.bytes_of r.to_uid) (host.bytes_of r.truid ++ (r.to_whom ++ behind)),
        length-append (host.bytes_of r.truid) (r.to_whom ++ behind),
        length-append r.to_whom behind,
        length-append (host.bytes_of r.d_size) r.data_bytes,
        host.length-bytes_of r.type,
        host.length-bytes_of r.to_uid,
        host.length-bytes_of r.truid,
        host.length-bytes_of r.d_size,
      )

  -- The fields are read in another order than that in which they are sent: a request that was made
  -- and arrives whole is dropped, unless the four bytes of its address from the 44th on happen to be the
  -- length of its data.
  pub req_recv-req_make :
      (hton : List ℕ → List ℕ) (type : RequestType) (to_whom : List ℕ) (to_uid truid : ℕ)
      (payload : List ℕ)
      → length (hton to_whom) ≡ address_size
      → eqb (host.ntohl (host.word_of (take 4 (drop 44 (hton to_whom))))) (length payload) ≡ false
      → let r = req_make host hton type to_whom to_uid truid payload (length payload) in
        req_recv host (request_image host r) (header_size + length payload) ≡ dropped
  unfolding req_recv req_make
  req_recv-req_make hton type to_whom to_uid truid payload whole other =
      let n : ℕ = length payload in
      let r : TurnRequest = req_make host hton type to_whom to_uid truid payload n in
      let long : header_size ≤ length (request_image host r) =
        omega (arith, length-request_image r whole) in
      rw
        (
          req_recv,
          le→not-ltb (header_size + n) header_size (omega arith),
          le→not-ltb (length (request_image host r)) header_size long,
          size_word r whole,
          size_left n,
          other,
        )
        refl
    where
      size_left : (n : ℕ) → (header_size + n) - header_size ≡ n
      size_left n = omega arith
