-- ===== src/Output/Inverse.antt =====
-- modules/implicit_output.cpp, `modular_inverse`, and the `std::gcd` that the constructor calls.
pub mod Gcd
pub mod Coefficients
pub mod Bounds
pub mod Correct
use sparse_branch_machine.Base.{
  ℕ, zero, suc, ◌+◌, ◌-◌, ◌*◌, ◌/◌, ◌%◌, ◌^◌, ◌≤◌, ◌<◌, ◌≡◌, refl, Bool, arith, ltb, leb, ◌==◌, not,
  if◌then◌else◌, Result, ok, throw, diverge, ◌>>=◌, ◌>>◌, throw_if, invalid_argument,
}
use sparse_branch_machine.Base.Int.{ℤ, pos, negsuc, ◌-ℤ◌, scale}

-- Euclid's algorithm, which `std::gcd` is.
gcd_loop : ℕ → ℕ → ℕ → ℕ
gcd_loop zero a b = a
gcd_loop (suc fuel) a b = let rest = gcd_loop fuel b (a % b) in if b == 0 then a else rest

-- The second argument falls in each round, so this fuel is enough.
unfoldable pub gcd : ℕ → ℕ → ℕ
unfolding gcd_loop
gcd a b = gcd_loop (suc b) a b

-- The variables of the loop. The remainders are never negative; the coefficients are signed.
pub record Euclid : Type 0 where
  pub previous : ℤ
  pub current : ℤ
  pub remainder : ℕ
  pub next_remainder : ℕ

unfoldable pub euclid_step : Euclid → Euclid
euclid_step s =
    let quotient = s.remainder / s.next_remainder in
    record {
      previous = s.current;
      current = s.previous -ℤ scale quotient s.current;
      remainder = s.next_remainder;
      next_remainder = s.remainder - quotient * s.next_remainder;
    }

unfoldable pub euclid_loop : ℕ → Euclid → Result Euclid
euclid_loop zero s = diverge
euclid_loop (suc fuel) s =
    let rest = euclid_loop fuel (euclid_step s) in if s.next_remainder == 0 then ok s else rest

-- `previous %= modulus; if (previous < 0) previous += modulus`. C++ keeps the sign in `%`.
unfoldable pub reduce : ℤ → ℕ → ℕ
reduce (pos n) modulus = n % modulus
reduce (negsuc n) modulus = let r = suc n % modulus in if r == 0 then 0 else modulus - r

abbrev pub euclid_start : ℕ → ℕ → Euclid
euclid_start value modulus = record {
  previous = pos 0;
  current = pos 1;
  remainder = modulus;
  next_remainder = value;
}

unfoldable pub modular_inverse : ℕ → ℕ → Result ℕ
unfolding euclid_loop euclid_step reduce
modular_inverse value modulus = do
  s ← euclid_loop (suc value) (euclid_start value modulus)
  throw_if (not (s.remainder == 1)) invalid_argument
  ok (reduce s.previous modulus)
