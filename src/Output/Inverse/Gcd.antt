-- ===== src/Output/Inverse/Gcd.antt =====
-- Laws of `gcd`, and what the loop of `modular_inverse` leaves in its remainder.
use native.Mathlib.Nat.{div-add-mod}
use sparse_branch_machine.Base.{
  ℕ, zero, suc, ◌-◌, ◌*◌, ◌/◌, ◌%◌, ◌≤◌, ◌<◌, ◌≡◌, refl, arith, ◌==◌, ok, inl, inr, Bool-cases, ◌∙◌,
  sym, ap,
}
use sparse_branch_machine.Output.Inverse.{gcd_loop, gcd, Euclid, euclid_step, euclid_loop}

gcd_loop_fuel : (f g a b : ℕ) → b < f → b < g → gcd_loop f a b ≡ gcd_loop g a b
unfolding gcd_loop
gcd_loop_fuel zero g a b h k = elim h [ ]
gcd_loop_fuel (suc f) zero a b h k = elim k [ ]
gcd_loop_fuel (suc f) (suc g) a zero h k = refl
gcd_loop_fuel (suc f) (suc g) a (suc b) h k =
    ground (arith, gcd_loop_fuel f g (suc b) (a % suc b) (omega arith) (omega arith))

pub gcd-zero : (a : ℕ) → gcd a 0 ≡ a
unfolding gcd
gcd-zero a = refl

-- One round of Euclid's algorithm.
pub gcd_step : (a b : ℕ) → 0 < b → gcd a b ≡ gcd b (a % b)
unfolding gcd
gcd_step a b h = ground (arith, gcd_loop_fuel b (suc (a % b)) b (a % b) (omega arith) (omega arith))

pub gcd_one : (v : ℕ) → 2 ≤ v → gcd 1 v ≡ 1
gcd_one v h =
    let small : 1 % v ≡ 1 = grind arith in
    gcd_step 1 v (omega arith)
    ∙ ap (gcd v) small
    ∙ gcd_step v 1 (omega arith)
    ∙ ap (gcd 1) (omega arith)
    ∙ gcd-zero 1

-- The loop returns, with the greatest common divisor in its remainder.
pub euclid_loop-gcd :
    (fuel : ℕ) (s : Euclid)
    → s.next_remainder < fuel
    → (r : Euclid) × (euclid_loop fuel s ≡ ok r)
      × (r.remainder ≡ gcd s.remainder s.next_remainder)
      × (r.next_remainder ≡ 0)
unfolding euclid_loop euclid_step
euclid_loop-gcd zero s h = absurd (omega arith)
euclid_loop-gcd (suc fuel) s h = elim (Bool-cases (s.next_remainder == 0)) [
  | inl done ↦
      let e : s.next_remainder ≡ 0 = ground arith in
      (s, rw done, sym (ap (gcd s.remainder) e ∙ gcd-zero s.remainder), e)
  | inr more ↦
      let split : s.remainder - s.remainder / s.next_remainder * s.next_remainder
          ≡ s.remainder % s.next_remainder =
        omega (arith, div-add-mod s.remainder s.next_remainder) in
      let some_left : 0 < s.next_remainder = ground arith in
      let (r, e, g, z) = euclid_loop-gcd fuel (euclid_step s) (omega (arith, split)) in
      (
        r,
        rw more e,
        (g
            ∙ ap (gcd s.next_remainder) split
            ∙ sym (gcd_step s.remainder s.next_remainder some_left)),
        z,
      )
]
