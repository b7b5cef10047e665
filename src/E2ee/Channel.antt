-- ===== src/E2ee/Channel.antt =====
-- connection.c: messages after the handshake.
use soter.Base.{
  ℕ, ◌≤◌, ◌<◌, ◌≡◌, ◌≢◌, refl, sym, ap, ap₂, ◌∙◌, Bool, true, false, Option, none, some, List, [],
  ◌∷◌, map, arith, length, drop, add_size, size_mod, All, le→not-ltb,
}
use soter.Crypto.{encrypt, decrypt, nonce_bytes, tag_size}
use soter.Crypto.Library.{Sodium, IsCipher}
use soter.E2ee.{Connection, handshake_ended, has_ended, biggest_size, e2ee_encrypt, e2ee_decrypt}

-- What the one seals, the other can open next.
pub record OneWay (a b : Connection) : Type 0 where
  pub from_ended : a.hstate ≡ handshake_ended
  pub to_ended : b.hstate ≡ handshake_ended
  pub same_key : a.skeys.tx ≡ b.skeys.rx
  pub same_nonce : a.tx_nonce ≡ b.rx_nonce

unfoldable pub Linked : Connection → Connection → Type 0
Linked a b = OneWay a b × OneWay b a

module _ (sodium : Sodium) where
  -- One message from `a` to `b`: what `b` makes of it, and both afterwards.
  unfoldable pub one_way :
      Connection → Connection → List ℕ → Option (List ℕ) × (Connection × Connection)
  unfolding e2ee_encrypt e2ee_decrypt
  one_way a b m =
      let sealed = e2ee_encrypt sodium a m in
      elim sealed.0 [
        | none ↦ (none, (sealed.1, b))
        | some c ↦ let opened = e2ee_decrypt sodium b c in (opened.0, (sealed.1, opened.1))
      ]

  -- A conversation: `true` marks the messages of the first.
  unfoldable pub talk : Connection → Connection → List (Bool × List ℕ) → List (Option (List ℕ))
  unfolding one_way
  talk a b [] = []
  talk a b ((true, m) ∷ ms) = let r = one_way a b m in r.0 ∷ talk r.1.0 r.1.1 ms
  talk a b ((false, m) ∷ ms) = let r = one_way b a m in r.0 ∷ talk r.1.1 r.1.0 ms

  pub e2ee_encrypt-ended :
      (a : Connection) (m : List ℕ)
      → a.hstate ≡ handshake_ended
      → length m ≤ biggest_size
      → e2ee_encrypt sodium a m ≡ (
        some (sodium.seal m (nonce_bytes sodium a.tx_nonce) a.skeys.tx),
        record a { tx_nonce = add_size a.tx_nonce 1 },
      )
  unfolding e2ee_encrypt encrypt
  e2ee_encrypt-ended a m e short =
      rw (e2ee_encrypt, ap has_ended e, le→not-ltb biggest_size (length m) short, encrypt) refl

  e2ee_decrypt-opened :
      (b : Connection) (c m : List ℕ)
      → b.hstate ≡ handshake_ended
      → tag_size ≤ length c
      → sodium.unseal c (nonce_bytes sodium b.rx_nonce) b.skeys.rx ≡ some m
      → e2ee_decrypt sodium b c ≡ (some m, record b { rx_nonce = add_size b.rx_nonce 1 })
  unfolding e2ee_decrypt decrypt
  e2ee_decrypt-opened b c m e long opens =
      rw (e2ee_decrypt, ap has_ended e, le→not-ltb (length c) tag_size long, decrypt, opens) refl

  e2ee_decrypt-closed :
      (b : Connection) (c : List ℕ)
      → b.hstate ≡ handshake_ended
      → tag_size ≤ length c
      → sodium.unseal c (nonce_bytes sodium b.rx_nonce) b.skeys.rx ≡ none
      → e2ee_decrypt sodium b c ≡ (none, b)
  unfolding e2ee_decrypt decrypt
  e2ee_decrypt-closed b c e long closed =
      rw (e2ee_decrypt, ap has_ended e, le→not-ltb (length c) tag_size long, decrypt, closed) refl

  module _ (cipher : IsCipher sodium) where
    length-nonce_bytes : (x : ℕ) → length (nonce_bytes sodium x) ≡ 12
    unfolding nonce_bytes
    length-nonce_bytes x = omega (arith, cipher.length-word64_bytes x)

    nonce_bytes-apart :
        (x y : ℕ)
        → x < size_mod
        → y < size_mod
        → x ≢ y
        → nonce_bytes sodium x ≢ nonce_bytes sodium y
    unfolding nonce_bytes
    nonce_bytes-apart x y hx hy other e = other (cipher.word64_apart x y hx hy (ap (drop 4) e))

    sealed_long :
        (m k : List ℕ) (x : ℕ) → tag_size ≤ length (sodium.seal m (nonce_bytes sodium x) k)
    sealed_long m k x =
        omega (arith, cipher.length-seal m (nonce_bytes sodium x) k (length-nonce_bytes x))

    abbrev sealed_by : Connection → List ℕ → List ℕ
    sealed_by a m = sodium.seal m (nonce_bytes sodium a.tx_nonce) a.skeys.tx

    one_way-OneWay :
        (a b : Connection) (m : List ℕ)
        → OneWay a b
        → length m ≤ biggest_size
        → one_way a b m ≡ (
          some m,
          (
            record a { tx_nonce = add_size a.tx_nonce 1 },
            record b { rx_nonce = add_size b.rx_nonce 1 },
          ),
        )
    unfolding one_way
    one_way-OneWay a b m w short =
        rw
          (
            one_way,
            e2ee_encrypt-ended a m w.from_ended short,
            e2ee_decrypt-opened b (sealed_by a m) m w.to_ended (sealed_long m a.skeys.tx a.tx_nonce)
                (ap₂ (λ x k. sodium.unseal (sealed_by a m) (nonce_bytes sodium x) k)
                    (sym w.same_nonce) (sym w.same_key)
                  ∙ cipher.unseal-seal m (nonce_bytes sodium a.tx_nonce) a.skeys.tx
                      (length-nonce_bytes a.tx_nonce)),
          )
          (ap (λ r. (some m, (r.1, record b { rx_nonce = add_size b.rx_nonce 1 })))
            (e2ee_encrypt-ended a m w.from_ended short))

    -- Two linked nodes hear all that the other says, in whatever order they take turns, however
    -- long they talk.
    pub talk-Linked :
        (a b : Connection) (ms : List (Bool × List ℕ))
        → Linked a b
        → All (λ m. length m.1 ≤ biggest_size) ms
        → talk a b ms ≡ map (λ m. some m.1) ms
    unfolding talk Linked
    talk-Linked a b [] l shorts = refl
    talk-Linked a b ((true, m) ∷ ms) (there, back) (short, shorts) =
        rw (one_way-OneWay a b m there short) (
          ap (λ t. some m ∷ t)
            (talk-Linked (record a { tx_nonce = add_size a.tx_nonce 1 })
              (record b { rx_nonce = add_size b.rx_nonce 1 }) ms
              (
                record {
                  from_ended = there.from_ended;
                  to_ended = there.to_ended;
                  same_key = there.same_key;
                  same_nonce = ap (λ x. add_size x 1) there.same_nonce;
                },
                record {
                  from_ended = back.from_ended;
                  to_ended = back.to_ended;
                  same_key = back.same_key;
                  same_nonce = back.same_nonce;
                },
              )
              shorts))
    talk-Linked a b ((false, m) ∷ ms) (there, back) (short, shorts) =
        rw (one_way-OneWay b a m back short) (
          ap (λ t. some m ∷ t)
            (talk-Linked (record a { rx_nonce = add_size a.rx_nonce 1 })
              (record b { tx_nonce = add_size b.tx_nonce 1 }) ms
              (
                record {
                  from_ended = there.from_ended;
                  to_ended = there.to_ended;
                  same_key = there.same_key;
                  same_nonce = there.same_nonce;
                },
                record {
                  from_ended = back.from_ended;
                  to_ended = back.to_ended;
                  same_key = back.same_key;
                  same_nonce = ap (λ x. add_size x 1) back.same_nonce;
                },
              )
              shorts))

    pub one_way-late :
        (a b : Connection) (m : List ℕ)
        → a.hstate ≡ handshake_ended
        → b.hstate ≡ handshake_ended
        → a.skeys.tx ≡ b.skeys.rx
        → b.rx_nonce < a.tx_nonce
        → a.tx_nonce < size_mod
        → length m ≤ biggest_size
        → one_way a b m ≡ (none, (record a { tx_nonce = add_size a.tx_nonce 1 }, b))
    unfolding one_way
    one_way-late a b m ea eb key late bound short =
        rw
          (
            one_way,
            e2ee_encrypt-ended a m ea short,
            e2ee_decrypt-closed b (sealed_by a m) eb (sealed_long m a.skeys.tx a.tx_nonce) (
                ap (λ k. sodium.unseal (sealed_by a m) (nonce_bytes sodium b.rx_nonce) k) (sym key)
                ∙ cipher.unseal_other m (nonce_bytes sodium a.tx_nonce)
                    (nonce_bytes sodium b.rx_nonce) a.skeys.tx (length-nonce_bytes a.tx_nonce)
                    (length-nonce_bytes b.rx_nonce)
                    (nonce_bytes-apart a.tx_nonce b.rx_nonce bound (omega (arith, late, bound))
                      (λ e. omega (arith, late, e)))),
          )
          (ap (λ r. (none, (r.1, b))) (e2ee_encrypt-ended a m ea short))
