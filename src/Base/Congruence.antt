-- ===== src/Base/Congruence.antt =====
-- Congruence of numbers modulo m, with its two multiples of m as the witness.
use sparse_branch_machine.Base.Tests
use Prim.Native.Nat.{ℕ, ◌+◌, ◌-◌, ◌*◌, ◌/◌, ◌%◌, ◌<◌}
use mathlib.Core.Path.{◌≡◌, refl, sym, ap}
use mathlib.Core.Logic.{inl, inr}
use native.Mathlib.Omega.{arith}
use native.Mathlib.Nat.{div-add-mod}

pub record Cong (m a b : ℕ) : Type 0 where
  pub left : ℕ
  pub right : ℕ
  pub balance : a + left * m ≡ b + right * m

module _ (m : ℕ) where
  pub Cong-refl : (a : ℕ) → Cong m a a
  Cong-refl a = record { left = 0; right = 0; balance = refl }

  pub Cong-sym : {a b : ℕ} → Cong m a b → Cong m b a
  Cong-sym c = record { left = c.right; right = c.left; balance = sym c.balance }

  pub Cong-trans : {a b c : ℕ} → Cong m a b → Cong m b c → Cong m a c
  Cong-trans p q = record {
    left = p.left + q.left;
    right = p.right + q.right;
    balance = omega (arith, p.balance, q.balance);
  }

  pub Cong-add : {a b c d : ℕ} → Cong m a b → Cong m c d → Cong m (a + c) (b + d)
  Cong-add p q = record {
    left = p.left + q.left;
    right = p.right + q.right;
    balance = omega (arith, p.balance, q.balance);
  }

  pub Cong-scale : {a b : ℕ} (k : ℕ) → Cong m a b → Cong m (k * a) (k * b)
  Cong-scale k p = record {
    left = k * p.left;
    right = k * p.right;
    balance = omega (arith, ap (λ (t : ℕ). k * t) p.balance);
  }

  pub Cong-mod : (a : ℕ) → Cong m (a % m) a
  Cong-mod a = record { left = a / m; right = 0; balance = omega (arith, div-add-mod a m) }

  pub Cong-drop : (a k : ℕ) → Cong m (a + k * m) a
  Cong-drop a k = record { left = 0; right = k; balance = omega arith }

  no_gap : (a b x y : ℕ) → a < m → a + x * m ≡ b + y * m → x < y → ⊥
  no_gap a b x y h e l =
      let split : y ≡ x + 1 + (y - x - 1) = omega arith in
      let d : ℕ = y - x - 1 in omega (arith, ap (λ (t : ℕ). t * m) split)

  -- Two residues that are congruent are equal.
  pub Cong-eq : {a b : ℕ} → a < m → b < m → Cong m a b → a ≡ b
  Cong-eq {a} {b} ha hb c = elim (Tests.compare_cases c.left c.right) [
    | inl l ↦ absurd (no_gap a b c.left c.right ha c.balance l)
    | inr (inl e) ↦ omega (arith, c.balance, ap (λ (t : ℕ). t * m) e)
    | inr (inr g) ↦ absurd (no_gap b a c.right c.left hb (sym c.balance) g)
  ]

  pub Cong-eq-mod : {a b : ℕ} → b < m → Cong m a b → a % m ≡ b
  Cong-eq-mod {a} {b} h c = Cong-eq (omega arith) h (Cong-trans (Cong-mod a) c)
