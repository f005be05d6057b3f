-- ===== src/Base/Keys.antt =====
-- Equality of keys (`===`) as an interface; numbers and texts are keys.
use Prim.Native.Nat.{ℕ}
use Prim.Native.String.{String}
use mathlib.Core.Path.{◌≡◌, refl}
use mathlib.Core.Bool.{Bool, true, false}
use mathlib.Core.Logic.{◌↔◌, ◌⊎◌, inl, inr, ◌≢◌}
use text.Mathlib.Text.{◌==◌ as str_eq}
use text.Mathlib.TextEquality.{eq_iff}
use native.Mathlib.Omega.{arith}
use anvilkit_plugin_collab_y.Base.Bools.{nat_beq, nat_beq_iff, Bool-cases}

unfoldable pub String_discrete : Discrete String
String_discrete s t = elim (Bool-cases (str_eq s t)) [
  | inl e ↦ yes ((eq_iff s t).0 e)
  | inr e ↦ no (λ p. cc (e, (eq_iff s t).1 p))
]

-- A decision procedure as a Boolean test.
abbrev pub same {ℓ} : {A : Type ℓ} → Discrete A → A → A → Bool
same d a b = elim (d a b) [ yes _ ↦ true | no _ ↦ false ]

pub same_iff {ℓ} : {A : Type ℓ} (d : Discrete A) (a b : A) → (same d a b ≡ true) ↔ (a ≡ b)
same_iff d a b = (λ h. ground arith, λ h. ground arith)

pub record Keyed {ℓ} (K : Type ℓ) : Type ℓ where
  pub same_key : K → K → Bool
  pub same_key_iff : (x y : K) → (same_key x y ≡ true) ↔ (x ≡ y)

abbrev pub eq_of_discrete {ℓ} : {A : Type ℓ} → Discrete A → Keyed A
eq_of_discrete d = record { same_key = same d; same_key_iff = same_iff d }

instance abbrev pub string_eq : Keyed String
string_eq = record { same_key_iff = eq_iff; same_key = str_eq }

instance abbrev pub nat_eq : Keyed ℕ
nat_eq = record { same_key_iff = nat_beq_iff; same_key = nat_beq }

module _ {ℓ} {K : Type ℓ} ⦃key : Keyed K⦄ where
  infix 50 ◌==◌
  abbrev pub ◌==◌ : K → K → Bool
  x == y = key.same_key x y

  pub beq-cases : (x y : K) → ((x == y) ≡ true) × (x ≡ y) ⊎ ((x == y) ≡ false) × (x ≢ y)
  beq-cases x y = elim (Bool-cases (x == y)) [
    | inl t ↦ inl (t, (key.same_key_iff x y).0 t)
    | inr f ↦ inr (f, λ q. cc ((key.same_key_iff x y).1 q))
  ]

  pub beq-eq : (x y : K) → (x == y) ≡ true → x ≡ y
  beq-eq x y t = (key.same_key_iff x y).0 t

  pub beq_refl : (x : K) → (x == x) ≡ true
  beq_refl x = (key.same_key_iff x x).1 refl
