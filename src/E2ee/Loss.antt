-- ===== src/E2ee/Loss.antt =====
-- connection.c: what becomes of a channel that loses a packet.
use soter.Base.{
  ℕ, suc, ◌+◌, ◌≤◌, ◌<◌, ◌≡◌, refl, ap, Bool, true, none, List, [], ◌∷◌, map, arith, length,
  add_size, size_mod, All,
}
use soter.Crypto.Library.{Sodium, IsCipher}
use soter.E2ee.{Connection, handshake_ended, biggest_size, e2ee_encrypt}
use soter.E2ee.Channel.{OneWay, talk, e2ee_encrypt-ended, one_way-late}

-- Messages of the first alone.
abbrev pub monologue : List (List ℕ) → List (Bool × List ℕ)
monologue = map (λ m. (true, m))

module _ (sodium : Sodium) (cipher : IsCipher sodium) where
  talk_late :
      (a b : Connection) (ms : List (List ℕ))
      → a.hstate ≡ handshake_ended
      → b.hstate ≡ handshake_ended
      → a.skeys.tx ≡ b.skeys.rx
      → b.rx_nonce < a.tx_nonce
      → a.tx_nonce + length ms < size_mod
      → All (λ m. length m ≤ biggest_size) ms
      → talk sodium a b (monologue ms) ≡ map (λ m. none) ms
  unfolding talk
  talk_late a b [] ea eb key late bound shorts = refl
  talk_late a b (m ∷ ms) ea eb key late bound (short, shorts) =
      let plain : add_size a.tx_nonce 1 ≡ a.tx_nonce + 1 = omega (arith, bound) in
      rw (one_way-late sodium cipher a b m ea eb key late (omega (arith, bound)) short) (
        ap (λ t. none ∷ t)
          (talk_late (record a { tx_nonce = add_size a.tx_nonce 1 }) b ms ea eb key
            (omega (arith, late, plain)) (omega (arith, bound, plain)) shorts))

  -- Two nodes, the one of which can hear the other: once a single sealed message does not arrive, none
  -- of those that follow is accepted, up to 2 ^ 64 messages.
  pub talk_lost :
      (a b : Connection) (lost : List ℕ) (ms : List (List ℕ))
      → OneWay a b
      → length lost ≤ biggest_size
      → All (λ m. length m ≤ biggest_size) ms
      → a.tx_nonce + suc (length ms) < size_mod
      → talk sodium (e2ee_encrypt sodium a lost).1 b (monologue ms) ≡ map (λ m. none) ms
  talk_lost a b lost ms w short shorts bound =
      let plain : add_size a.tx_nonce 1 ≡ a.tx_nonce + 1 = omega (arith, bound) in
      rw (e2ee_encrypt-ended sodium a lost w.from_ended short) (
        talk_late (record a { tx_nonce = add_size a.tx_nonce 1 }) b ms w.from_ended w.to_ended
          w.same_key (omega (arith, plain, w.same_nonce)) (omega (arith, bound, plain)) shorts)
