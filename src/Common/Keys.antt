-- ===== src/Common/Keys.antt =====
-- Equality with a Boolean test, as an interface: `==` of Go on comparable types.
use Prim.Native.Nat.{ℕ}
use Prim.Native.String.{String}
use mathlib.Core.Bool.{Bool, true}
use mathlib.Core.Logic.{◌↔◌}
use mathlib.Core.Path.{◌≡◌, refl}
use text.Mathlib.Text.{◌==◌ as str_eq}
use text.Mathlib.TextEquality.{eq_iff}
use everoute.Common.Tests.{nat_beq, nat_beq_iff}

-- `beq` decides equality
pub record Eq {ℓ} (K : Type ℓ) : Type ℓ where
  pub beq : K → K → Bool
  pub beq_iff : (j k : K) → (beq j k ≡ true) ↔ (j ≡ k)

module _ {ℓ} {K : Type ℓ} ⦃d : Eq K⦄ where
  pub beq_refl : (k : K) → d.beq k k ≡ true
  beq_refl k = (d.beq_iff k k).1 refl

  infix 50 ◌==◌
  abbrev pub ◌==◌ : K → K → Bool
  j == k = d.beq j k

instance abbrev pub string_eq : Eq String
string_eq = record { beq = str_eq; beq_iff = eq_iff }

instance abbrev pub nat_eq : Eq ℕ
nat_eq = record { beq = nat_beq; beq_iff = nat_beq_iff }
