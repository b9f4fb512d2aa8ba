-- ===== src/Prelude/Equality.antt =====
-- One Boolean equality for numbers (identifiers, times) and texts.
use Prim.Native.Nat.{ℕ}
use Prim.Native.String.{String}
use mathlib.Core.Path.{◌≡◌, refl}
use mathlib.Core.Logic.{◌↔◌, ◌≢◌, inl, inr}
use mathlib.Core.Bool.{Bool, true, false}
use text.Mathlib.Text.{◌==◌ as string_beq}
use text.Mathlib.TextEquality.{eq_iff}
use healpipe.Prelude.Tests.{nat_beq, nat_beq_iff, Bool-cases}

pub record Eq {ℓ} (A : Type ℓ) : Type ℓ where
  pub same : A → A → Bool
  pub same_iff : (x y : A) → (same x y ≡ true) ↔ (x ≡ y)

infix 50 ◌==◌
abbrev pub ◌==◌ {ℓ} : {A : Type ℓ} ⦃e : Eq A⦄ → A → A → Bool
◌==◌ ⦃e⦄ a b = e.same a b

instance abbrev pub string_eq : Eq String
string_eq = record { same = string_beq; same_iff = eq_iff }

instance abbrev pub nat_eq : Eq ℕ
nat_eq = record { same = nat_beq; same_iff = nat_beq_iff }

module _ {ℓ} {A : Type ℓ} ⦃e : Eq A⦄ where
  pub ==_refl : (a : A) → (a == a) ≡ true
  ==_refl a = (e.same_iff a a).1 refl

  pub ==_false : (a b : A) → a ≢ b → (a == b) ≡ false
  ==_false a b h = elim (Bool-cases (a == b)) [
    | inl t ↦ absurd (h ((e.same_iff a b).0 t))
    | inr f ↦ f
  ]

  pub ==_ne : (a b : A) → (a == b) ≡ false → a ≢ b
  ==_ne a b f h = cc ((e.same_iff a b).1 h)
