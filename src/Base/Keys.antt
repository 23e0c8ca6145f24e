-- ===== src/Base/Keys.antt =====
-- Keys with a decidable equality: the map keys of the program are byte arrays, texts and numbers.
use Prim.Native.Nat.{ℕ}
use mathlib.Core.Path.{◌≡◌, refl}
use mathlib.Core.Logic.{◌↔◌}
use mathlib.Core.Bool.{Bool, true, false, ◌&&◌}
use mathlib.Core.List.{List, [], ◌∷◌}
use native.Mathlib.Omega.{arith}
use link_mesh.Base.Tests.{eqb, eqb_iff}

-- `Vec<u8>`, `[u8; N]`; a Rust `String` or `str` is the list of its UTF-8 bytes.
abbrev pub Bytes : Type 0
Bytes = List ℕ

abbrev pub Text : Type 0
Text = List ℕ

pub record Eq {ℓ} (K : Type ℓ) : Type ℓ where
  pub beq : K → K → Bool
  pub beq_iff : (a b : K) → (beq a b ≡ true) ↔ (a ≡ b)

infix 50 ◌==◌
abbrev pub ◌==◌ {ℓ} : {K : Type ℓ} ⦃e : Eq K⦄ → K → K → Bool
◌==◌ ⦃e⦄ = e.beq

abbrev pub beq_bytes : Bytes → Bytes → Bool
beq_bytes [] [] = true
beq_bytes [] (y ∷ ys) = false
beq_bytes (x ∷ xs) [] = false
beq_bytes (x ∷ xs) (y ∷ ys) = eqb x y && beq_bytes xs ys

pub beq_bytes_iff : (a b : Bytes) → (beq_bytes a b ≡ true) ↔ (a ≡ b)
beq_bytes_iff [] [] = (λ _. refl, λ _. refl)
beq_bytes_iff [] (y ∷ ys) = (λ h. cc, λ h. cc)
beq_bytes_iff (x ∷ xs) [] = (λ h. cc, λ h. cc)
beq_bytes_iff (x ∷ xs) (y ∷ ys) =
    (λ h. ground (arith, beq_bytes_iff xs ys), λ h. ground (arith, beq_bytes_iff xs ys))

instance abbrev pub nat_eq : Eq ℕ
nat_eq = record { beq = eqb; beq_iff = eqb_iff }

instance abbrev pub bytes_eq : Eq Bytes
bytes_eq = record { beq = beq_bytes; beq_iff = beq_bytes_iff }

module _ {ℓ} {K : Type ℓ} ⦃e : Eq K⦄ where
  pub eq_refl : (a : K) → (a == a) ≡ true
  eq_refl a = (e.beq_iff a a).1 refl

  pub eq-of-eq : (a b : K) → (a == b) ≡ true → a ≡ b
  eq-of-eq a b = (e.beq_iff a b).0

  pub eq_false : (a b : K) → ¬ (a ≡ b) → (a == b) ≡ false
  eq_false a b h = ground (arith, e.beq_iff a b)
