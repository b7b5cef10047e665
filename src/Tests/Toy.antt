-- ===== src/Tests/Toy.antt =====
-- libsodium replaced by what hides nothing: the tag of a ciphertext is its nonce, every signature is right,
-- and a key's hash is the key.
use soter.Base.{
  ℕ, ◌-◌, ◌≡◌, ◌≢◌, refl, sym, ap, ap₂, ◌∙◌, Bool, true, false, ◌&&◌, none, some, List, [], ◌∷◌,
  ◌++◌, arith, eqb, eqb_refl, eqb→eq, if◌then◌else◌, length, take, drop, replicate, length-append,
  take-length-append, drop-length-append, Bool-cases, inl, inr,
}
use soter.Crypto.{KeyPair, Sign}
use soter.Crypto.Library.{Sodium, IsCipher, IsSignPair}

abbrev same_list : List ℕ → List ℕ → Bool
same_list [] [] = true
same_list [] (y ∷ ys) = false
same_list (x ∷ xs) [] = false
same_list (x ∷ xs) (y ∷ ys) = eqb x y && same_list xs ys

same_list_refl : (xs : List ℕ) → same_list xs xs ≡ true
same_list_refl [] = refl
same_list_refl (x ∷ xs) = rw (eqb_refl x) (same_list_refl xs)

same_list-eq : (xs ys : List ℕ) → same_list xs ys ≡ true → xs ≡ ys
same_list-eq [] [] e = refl
same_list-eq [] (y ∷ ys) e = cc
same_list-eq (x ∷ xs) [] e = cc
same_list-eq (x ∷ xs) (y ∷ ys) e = elim (Bool-cases (eqb x y)) [
  | inl same ↦
      ap₂ (λ a rest. a ∷ rest) (eqb→eq x y same)
        (same_list-eq xs ys (sym (ap (λ b. b && same_list xs ys) same) ∙ e))
  | inr other ↦ cc
]

-- A nonce of twelve bytes as a tag of sixteen.
abbrev tag : List ℕ → List ℕ
tag n = n ++ (0 ∷ 0 ∷ 0 ∷ 0 ∷ [])

abbrev pub toy : Sodium
toy = record {
  seal = λ m n k. m ++ tag n;
  unseal = λ c n k.
      if same_list (drop (length c - 16) c) (tag n) then some (take (length c - 16) c) else none;
  sign_detached = λ m s. replicate 64 0;
  verify_detached = λ signature m p. true;
  server_keys = λ own secret other. some (record { rx = 1 ∷ []; tx = 2 ∷ [] });
  client_keys = λ own secret other. some (record { rx = 2 ∷ []; tx = 1 ∷ [] });
  sha256 = λ xs. xs;
  bin2base64 = λ xs. xs;
  base642bin = λ n xs. some xs;
  word64_bytes = λ x. x ∷ replicate 7 0;
}

body_of : (m n : List ℕ) → length n ≡ 12 → length (m ++ tag n) - 16 ≡ length m
body_of m n e = omega (arith, e, length-append m (tag n), length-append n (0 ∷ 0 ∷ 0 ∷ 0 ∷ []))

tag-apart : (n n' : List ℕ) → length n ≡ 12 → length n' ≡ 12 → n ≢ n' → tag n ≢ tag n'
tag-apart n n' e e' other same = other (
    sym (take-length-append n (0 ∷ 0 ∷ 0 ∷ 0 ∷ []) 12 (sym e))
    ∙ ap (take 12) same
    ∙ take-length-append n' (0 ∷ 0 ∷ 0 ∷ 0 ∷ []) 12 (sym e'))

abbrev first_of : List ℕ → ℕ
first_of [] = 0
first_of (x ∷ xs) = x

pub toy-IsCipher : IsCipher toy
toy-IsCipher = record {
  length-seal =
      λ m n k e. omega (arith, e, length-append m (tag n), length-append n (0 ∷ 0 ∷ 0 ∷ 0 ∷ []));
  unseal-seal = λ m n k e.
      let size = body_of m n e in
      rw
        (
          size,
          drop-length-append m (tag n) (length m) refl,
          same_list_refl (tag n),
          take-length-append m (tag n) (length m) refl,
        )
        refl;
  unseal_other = λ m n n' k e e' other.
      let size = body_of m n e in
      elim (Bool-cases (same_list (tag n) (tag n'))) [
        | inl same ↦ absurd (tag-apart n n' e e' other (same_list-eq (tag n) (tag n') same))
        | inr apart ↦ rw (size, drop-length-append m (tag n) (length m) refl, apart) refl
      ];
  length-word64_bytes = λ x. refl;
  word64_apart = λ x y hx hy e. ap first_of e;
}

-- The identity of a number.
abbrev pub identity : ℕ → Sign
identity x = record { id_pub = 0 ∷ 0 ∷ 0 ∷ x ∷ replicate 28 0; id_sec = [] }

pub identity-IsSignPair : (x : ℕ) → IsSignPair toy (identity x).id_pub (identity x).id_sec
identity-IsSignPair x = record {
  length_public = refl;
  length-signed = λ m. refl;
  verifies = λ m. refl;
}

abbrev pub keys_of : ℕ → KeyPair
keys_of x = record { public_key = replicate 32 x; private_key = x ∷ [] }
