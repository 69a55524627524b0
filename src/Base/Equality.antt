-- ===== src/Base/Equality.antt =====
-- Decidable equality as an interface, for the keys of tables: numbers stand for `Uuid`s.
use Prim.Native.Nat.{ℕ}
use Prim.Native.String.{String}
use mathlib.Core.Path.{◌≡◌}
use mathlib.Core.Logic.{◌↔◌}
use mathlib.Core.Bool.{Bool, true, ◌&&◌}
use native.Mathlib.Omega.{arith}
use text.Mathlib.Text.{◌==◌ as str_eq}
use text.Mathlib.TextEquality.{eq_iff}
use nextapi.Base.Tests.{eqb, eqb_iff}

pub record Eq {ℓ} (A : Type ℓ) : Type ℓ where
  pub test : A → A → Bool
  pub test_iff : (x y : A) → (test x y ≡ true) ↔ (x ≡ y)

infix 50 ◌==◌
abbrev pub ◌==◌ {ℓ} : {K : Type ℓ} ⦃same : Eq K⦄ → K → K → Bool
◌==◌ ⦃same⦄ = same.test

instance abbrev pub ℕ_eq : Eq ℕ
ℕ_eq = record { test = eqb; test_iff = eqb_iff }

instance abbrev pub String_eq : Eq String
String_eq = record { test = str_eq; test_iff = eq_iff }

and_true : (x y : Bool) → (x && y) ≡ true → (x ≡ true) × (y ≡ true)
and_true x y h = ground arith

module _ {ℓ κ} {A : Type ℓ} {B : Type κ} ⦃e : Eq A⦄ ⦃f : Eq B⦄ where
  abbrev pub pair_test : A × B → A × B → Bool
  pair_test (a, b) (c, d) = e.test a c && f.test b d

  pub pair_test_iff : (p q : A × B) → (pair_test p q ≡ true) ↔ (p ≡ q)
  pair_test_iff (a, b) (c, d) = (
    λ h.
        let (h₀, h₁) = and_true (e.test a c) (f.test b d) h in
        λ i. ((e.test_iff a c).0 h₀ i, (f.test_iff b d).0 h₁ i),
    λ h.
        let h₀ : e.test a c ≡ true = (e.test_iff a c).1 (λ i. (h i).0) in
        let h₁ : f.test b d ≡ true = (f.test_iff b d).1 (λ i. (h i).1) in rw (h₀, h₁),
  )

  instance abbrev pub pair_eq : Eq (A × B)
  pair_eq = record { test = pair_test; test_iff = pair_test_iff }

pub text_eq : (a b : String) → (a == b) ≡ true → a ≡ b
text_eq a b h = (eq_iff a b).0 h
