-- ===== src/Output/Inverse/Correct.antt =====
-- What `modular_inverse` returns, and when it throws.
use sparse_branch_machine.Base.{
  ℕ, suc, ◌+◌, ◌*◌, ◌%◌, ◌≤◌, ◌<◌, ◌≡◌, ◌≢◌, arith, ◌==◌, ok, throw, invalid_argument, true, false,
  ◌∙◌,
}
use sparse_branch_machine.Base.Congruence.{Cong, Cong-eq-mod}
use sparse_branch_machine.Output.Inverse.{
  gcd, Euclid, euclid_start, euclid_loop, reduce, modular_inverse,
}
use sparse_branch_machine.Output.Inverse.Gcd.{euclid_loop-gcd}
use sparse_branch_machine.Output.Inverse.Coefficients.{
  IsBezout, euclid_loop-IsBezout, reduce-Cong, reduce-lt,
}

start-IsBezout : (v m : ℕ) → IsBezout m v (euclid_start v m)
start-IsBezout v m = record {
  previous = record { left = 1; right = 0; balance = omega arith };
  current = Cong-refl-at;
}
  where
    Cong-refl-at : Cong m (1 * v) (0 * v + v)
    Cong-refl-at = record { left = 0; right = 0; balance = omega arith }

-- The loop on its start, with the three facts about where it ends.
loop_end :
    (v m : ℕ)
    → (r : Euclid) × (euclid_loop (suc v) (euclid_start v m) ≡ ok r)
      × (r.remainder ≡ gcd m v)
      × IsBezout m v r
loop_end v m =
    let (r, e, g, z) = euclid_loop-gcd (suc v) (euclid_start v m) (omega arith) in
    (r, e, g, euclid_loop-IsBezout m v (suc v) (euclid_start v m) r e (start-IsBezout v m))

-- For a value coprime to a modulus of at least 2, `modular_inverse` returns a number below the
-- modulus whose product with the value leaves remainder 1.
pub modular_inverse_inverts :
    (v m : ℕ)
    → 2 ≤ m
    → gcd m v ≡ 1
    → (i : ℕ) × (modular_inverse v m ≡ ok i) × (i < m) × ((i * v) % m ≡ 1)
unfolding modular_inverse
modular_inverse_inverts v m h g =
    let (r, e, last, b) = loop_end v m in
    let one_left : r.remainder ≡ 1 = last ∙ g in
    let passes : (r.remainder == 1) ≡ true = ground arith in
    (
      reduce r.previous m,
      rw (e, passes),
      reduce-lt r.previous m (omega arith),
      Cong-eq-mod m (omega arith)
          (rw one_left at (reduce-Cong m v r.remainder r.previous (omega arith) b.previous)),
    )

-- For a value that is not coprime to the modulus, `modular_inverse` throws `invalid_argument`.
pub modular_inverse_refuses : (v m : ℕ) → gcd m v ≢ 1 → modular_inverse v m ≡ throw invalid_argument
unfolding modular_inverse
modular_inverse_refuses v m g =
    let (r, e, last, b) = loop_end v m in
    let fails : (r.remainder == 1) ≡ false = ground arith in rw (e, fails)
