-- ===== src/Prelude/Int.antt =====
-- Signed integers over the native numbers: the deltas of the credit ledger.
use Prim.Native.Nat.{ℕ, suc, ◌+◌, ◌-◌}
use mathlib.Core.Path.{◌≡◌}
use mathlib.Core.Bool.{Bool}
use mathlib.Core.List.{List, [], ◌∷◌, ◌++◌}
use native.Mathlib.Omega.{arith}
use ssambee_be.Prelude.Tests.{leb, if◌then◌else◌}

-- `negsuc n` is -(n + 1).
pub data ℤ : Type 0 where
  pos : ℕ → ℤ
  negsuc : ℕ → ℤ

abbrev pub pos_part : ℤ → ℕ
pos_part (pos n) = n
pos_part (negsuc n) = 0

abbrev pub neg_part : ℤ → ℕ
neg_part (pos n) = 0
neg_part (negsuc n) = suc n

-- a - b, as an integer.
abbrev pub sub_ℕ : ℕ → ℕ → ℤ
sub_ℕ a b = if leb b a then pos (a - b) else negsuc (b - a - 1)

-- `-n`
pub negate : ℕ → ℤ
negate n = sub_ℕ 0 n

pub negate_pos : (n : ℕ) → pos_part (negate n) ≡ 0
unfolding negate
negate_pos n = ground arith

pub negate_neg : (n : ℕ) → neg_part (negate n) ≡ n
unfolding negate
negate_neg n = ground arith

infixl 65 ◌+ℤ◌
pub ◌+ℤ◌ : ℤ → ℤ → ℤ
a +ℤ b = sub_ℕ (pos_part a + pos_part b) (neg_part a + neg_part b)

abbrev pub leb_ℤ : ℤ → ℤ → Bool
leb_ℤ a b = leb (pos_part a + neg_part b) (pos_part b + neg_part a)

pub +ℤ_parts :
    (a b : ℤ)
    → pos_part (a +ℤ b) + neg_part a + neg_part b ≡ neg_part (a +ℤ b) + pos_part a + pos_part b
unfolding ◌+ℤ◌
+ℤ_parts a b = ground arith

pub eq_of_parts : (a b : ℤ) → pos_part a + neg_part b ≡ pos_part b + neg_part a → a ≡ b
eq_of_parts a b h = ground arith

pub ruleset int_laws = (arith, +ℤ_parts, eq_of_parts, negate_pos, negate_neg)

-- The sum of a signed measure over a list.
abbrev pub total_by {ℓ} : {A : Type ℓ} → (A → ℤ) → List A → ℤ
total_by f [] = pos 0
total_by f (x ∷ xs) = f x +ℤ total_by f xs

pub total_by-append {ℓ} :
    {A : Type ℓ} (f : A → ℤ) (xs ys : List A)
    → total_by f (xs ++ ys) ≡ total_by f xs +ℤ total_by f ys
total_by-append f [] ys = omega int_laws
total_by-append f (x ∷ xs) ys = rw (total_by-append f xs ys) (omega int_laws)
