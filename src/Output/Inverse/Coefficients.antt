-- ===== src/Output/Inverse/Coefficients.antt =====
-- The coefficients of the loop of `modular_inverse`: each one times the value is congruent to its
-- remainder, and both stay within the modulus.
use native.Mathlib.Nat.{div-add-mod}
use sparse_branch_machine.Base.{
  ℕ, zero, suc, ◌+◌, ◌-◌, ◌*◌, ◌/◌, ◌%◌, ◌<◌, ◌≡◌, arith, ◌==◌, ok, inl, inr, Bool-cases, ap, subst,
}
use sparse_branch_machine.Base.Int.{
  ℤ, pos, negsuc, ◌-ℤ◌, scale, pos_part, neg_part, -ℤ_parts, scale_parts,
}
use sparse_branch_machine.Output.Inverse.{Euclid, euclid_step, euclid_loop, reduce}
use sparse_branch_machine.Base.Congruence.{Cong}

-- c * v ≡ r modulo m, for a signed c.
abbrev pub Represents : ℕ → ℕ → ℤ → ℕ → Type 0
Represents m v c r = Cong m (pos_part c * v) (neg_part c * v + r)

-- From two remainders to the next one.
Represents-step :
    (m v q : ℕ) (p c : ℤ) (r n reduced : ℕ)
    → reduced + q * n ≡ r
    → Represents m v p r
    → Represents m v c n
    → Represents m v (p -ℤ scale q c) reduced
Represents-step m v q p c r n reduced e hp hc =
    let d : ℤ = p -ℤ scale q c in
    record {
      left = hp.left + q * hc.right;
      right = hp.right + q * hc.left;
      balance = omega (
        arith,
        hp.balance,
        ap (λ (t : ℕ). q * t) hc.balance,
        ap (λ (t : ℕ). t * v) (-ℤ_parts p (scale q c)),
        ap (λ (t : ℕ). t * v) (scale_parts q c),
      );
    }

-- The loop keeps both coefficients in their congruences.
pub record IsBezout (m v : ℕ) (s : Euclid) : Type 0 where
  pub previous : Represents m v s.previous s.remainder
  pub current : Represents m v s.current s.next_remainder

pub divides_up : (a b : ℕ) → a - a / b * b + a / b * b ≡ a
divides_up a b = omega (arith, div-add-mod a b)

euclid_step-IsBezout : (m v : ℕ) (s : Euclid) → IsBezout m v s → IsBezout m v (euclid_step s)
unfolding euclid_step
euclid_step-IsBezout m v s b = record {
  previous = b.current;
  current =
      Represents-step m v (s.remainder / s.next_remainder) s.previous s.current s.remainder
        s.next_remainder _ (divides_up s.remainder s.next_remainder) b.previous b.current;
}

pub euclid_loop-IsBezout :
    (m v fuel : ℕ) (s r : Euclid) → euclid_loop fuel s ≡ ok r → IsBezout m v s → IsBezout m v r
unfolding euclid_loop
euclid_loop-IsBezout m v zero s r e b = absurd (cc)
euclid_loop-IsBezout m v (suc fuel) s r e b = elim (Bool-cases (s.next_remainder == 0)) [
  | inl done ↦ subst (IsBezout m v) (ground arith) b
  | inr more ↦
      euclid_loop-IsBezout m v fuel (euclid_step s) r (rw (more, euclid_loop) at e)
        (euclid_step-IsBezout m v s b)
]

-- The canonical residue of a coefficient represents the same remainder.
pub reduce-Cong : (m v r : ℕ) (c : ℤ) → 0 < m → Represents m v c r → Cong m (reduce c m * v) r
unfolding reduce
reduce-Cong m v r (pos n) h rep = record {
  left = rep.left + n / m * v;
  right = rep.right;
  balance = omega (arith, rep.balance, ap (λ (t : ℕ). t * v) (div-add-mod n m));
}
reduce-Cong m v r (negsuc n) h rep =
    let k = suc n / m in
    let split = ap (λ (t : ℕ). t * v) (div-add-mod (suc n) m) in
    elim (Bool-cases (suc n % m == 0)) [
      | inl whole ↦
          let none_left : suc n % m ≡ 0 = ground arith in
          rw whole (record {
            left = rep.left;
            right = rep.right + k * v;
            balance = omega (arith, rep.balance, split, ap (λ (t : ℕ). t * v) none_left);
          })
      | inr part ↦
          let fill : m - suc n % m + suc n % m ≡ m = omega arith in
          rw part (record {
            left = rep.left;
            right = rep.right + k * v + v;
            balance = omega (arith, rep.balance, split, ap (λ (t : ℕ). t * v) fill);
          })
    ]

pub reduce-lt : (c : ℤ) (m : ℕ) → 0 < m → reduce c m < m
unfolding reduce
reduce-lt (pos n) m h = omega arith
reduce-lt (negsuc n) m h = ground arith
