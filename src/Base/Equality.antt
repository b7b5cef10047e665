-- ===== src/Base/Equality.antt =====
-- Equality of stored values as `memcmp(a, b, size) == 0` decides it.
use Prim.Native.Nat.{ℕ}
use mathlib.Core.Path.{◌≡◌, refl}
use mathlib.Core.Logic.{◌↔◌}
use mathlib.Core.Bool.{Bool, true}
use native.Mathlib.Omega.{arith}
use soter.Base.Tests.{eqb}

pub eqb_iff : (a b : ℕ) → (eqb a b ≡ true) ↔ (a ≡ b)
eqb_iff a b = ground arith

-- What `memcmp` compares.
pub record MemEq {ℓ} (A : Type ℓ) : Type ℓ where
  pub same_bytes : A → A → Bool
  pub same_bytes_iff : (a b : A) → (same_bytes a b ≡ true) ↔ (a ≡ b)

instance abbrev pub nat_bytes : MemEq ℕ
nat_bytes = record { same_bytes = eqb; same_bytes_iff = eqb_iff }

infix 50 ◌==◌
abbrev pub ◌==◌ {ℓ} : {A : Type ℓ} ⦃e : MemEq A⦄ → A → A → Bool
◌==◌ ⦃e⦄ = e.same_bytes

pub ==-refl {ℓ} : {A : Type ℓ} ⦃e : MemEq A⦄ (a : A) → (a == a) ≡ true
==-refl ⦃e⦄ a = (e.same_bytes_iff a a).1 refl

-- The two truths of `==` between keys, for a proof that compares three of them.
pub ==-eq {ℓ} : {A : Type ℓ} ⦃e : MemEq A⦄ (a b : A) → (a == b) ≡ true → a ≡ b
==-eq ⦃e⦄ a b = (e.same_bytes_iff a b).0
