-- ===== src/Base/Int.antt =====
-- The integers, for Go's `int` where a value may be negative.
use Prim.Native.Nat.{ℕ, suc, ◌+◌, ◌≤◌, ◌<◌}
use mathlib.Core.Path.{◌≡◌, ap}
use mathlib.Core.Logic.{◌↔◌}
use mathlib.Core.Bool.{Bool, true, false, ◌||◌}
use native.Mathlib.Omega.{arith}
use backend_v.Base.Tests.{ltb, ◌==◌, ==_iff}

-- `negsuc n` is -(n + 1).
pub data ℤ : Type 0 where
  pos : ℕ → ℤ
  negsuc : ℕ → ℤ

abbrev pub pos_part : ℤ → ℕ
pos_part (pos n) = n
pos_part (negsuc n) = 0

abbrev pub neg_part : ℤ → ℕ
neg_part (pos n) = 0
neg_part (negsuc n) = suc n

infix 50 ◌<ℤ◌ ◌≤ℤ◌
abbrev pub ◌<ℤ◌ : ℤ → ℤ → Type 0
a <ℤ b = pos_part a + neg_part b < pos_part b + neg_part a

abbrev pub ◌≤ℤ◌ : ℤ → ℤ → Type 0
a ≤ℤ b = pos_part a + neg_part b ≤ pos_part b + neg_part a

-- The test `a < b`.
abbrev pub ltb_ℤ : ℤ → ℤ → Bool
ltb_ℤ a b = ltb (pos_part a + neg_part b) (pos_part b + neg_part a)

pub ltb_ℤ_iff : (a b : ℤ) → (ltb_ℤ a b ≡ true) ↔ (a <ℤ b)
ltb_ℤ_iff a b = ground arith

abbrev pub eq_ℤ : ℤ → ℤ → Bool
eq_ℤ (pos m) (pos n) = m == n
eq_ℤ (negsuc m) (negsuc n) = m == n
eq_ℤ _ _ = false

pub eq_ℤ_iff : (a b : ℤ) → (eq_ℤ a b ≡ true) ↔ (a ≡ b)
eq_ℤ_iff (pos m) (pos n) = (λ h. ap pos ((==_iff m n).0 h), λ h. (==_iff m n).1 (ap pos_part h))
eq_ℤ_iff (negsuc m) (negsuc n) =
    (λ h. ap negsuc ((==_iff m n).0 h), λ h. ground (arith, ap neg_part h))
eq_ℤ_iff (pos m) (negsuc n) = (λ h. absurd (cc h), λ h. absurd (cc h))
eq_ℤ_iff (negsuc m) (pos n) = (λ h. absurd (cc h), λ h. absurd (cc h))

abbrev pub outside : ℤ → ℤ → ℤ → Bool
outside lo hi n = ltb_ℤ n lo || ltb_ℤ hi n

pub ltb_ge : (a b : ℤ) → (ltb_ℤ a b ≡ false) ↔ (b ≤ℤ a)
ltb_ge a b = (λ h. ground (arith, h), λ h. ground (arith, h))

pub ltb_ℤ_total : (p q : ℤ) → ltb_ℤ q p ≡ false → eq_ℤ p q ≡ false → ltb_ℤ p q ≡ true
ltb_ℤ_total (pos m) (pos n) h k = ground (arith, h, k)
ltb_ℤ_total (negsuc m) (negsuc n) h k = ground (arith, h, k)
ltb_ℤ_total (pos m) (negsuc n) h k = ground (arith, h)
ltb_ℤ_total (negsuc m) (pos n) h k = ground arith
