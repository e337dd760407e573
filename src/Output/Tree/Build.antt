-- ===== src/Output/Tree/Build.antt =====
-- The constructor of `ImplicitOutputTree`.
use sparse_branch_machine.Base.{
  ℕ, zero, suc, ◌-◌, ◌%◌, ◌^◌, ◌≤◌, ◌<◌, ◌≡◌, refl, arith, ltb, ◌==◌, ==_iff, Bool-cases, inl, inr,
  ok, bit_xor, if◌then◌else◌, ◌∙◌, ap, sym, false,
}
use sparse_branch_machine.Mix.{mix64}
use sparse_branch_machine.Output.Inverse.{gcd}
use sparse_branch_machine.Output.Inverse.Gcd.{gcd_one, gcd_step}
use sparse_branch_machine.Output.Inverse.Correct.{modular_inverse_inverts}
use sparse_branch_machine.Output.Tree.{
  ImplicitOutputTree, IsPermutation, next_multiplier, coprime_loop, new,
}

-- The steps that the search may still take before it meets 1.
abbrev to_one : ℕ → ℕ → ℕ
to_one v m = if m == 1 then 0 else v - m

-- The search returns a multiplier that is coprime to the vocabulary.
coprime_loop_finds :
    (fuel v m : ℕ)
    → 2 ≤ v
    → 0 < m
    → m < v
    → to_one v m < fuel
    → (r : ℕ) × (coprime_loop fuel v m ≡ ok r) × (0 < r) × (r < v) × (gcd r v ≡ 1)
unfolding coprime_loop next_multiplier
coprime_loop_finds zero v m h p l f = absurd (omega arith)
coprime_loop_finds (suc fuel) v m h p l f = elim (Bool-cases (gcd m v == 1)) [
  | inl found ↦ (m, rw found, p, l, (==_iff _ 1).0 found)
  | inr miss ↦
      let not_one : 1 < m = ground (arith, gcd_one v h, ap (λ (t : ℕ). gcd t v)) in
      rw miss (
        coprime_loop_finds fuel v (next_multiplier v m) h (ground arith) (ground arith)
          (ground arith))
]

-- `std::gcd` is asked in the order that `modular_inverse` divides in.
swap_gcd : (m v : ℕ) → m < v → gcd v m ≡ gcd m v
swap_gcd m v l = sym (gcd_step m v (omega arith) ∙ ap (gcd v) (grind arith))

first_multiplier : ℕ → ℕ → ℕ
first_multiplier v seed =
    let first = mix64 (bit_xor seed 0xA0761D6478BD642F) % v in if first == 0 then 1 else first

first_bounds : (v seed : ℕ) → 2 ≤ v → (0 < first_multiplier v seed) × (first_multiplier v seed < v)
unfolding first_multiplier
first_bounds v seed h = ground arith

-- For a vocabulary of 2 to 2^32 - 1 tokens and any seed the constructor returns a tree of that
-- vocabulary whose multiplier, offset and inverse are below the vocabulary and whose inverse
-- inverts the multiplier.
pub new-IsPermutation :
    (v seed : ℕ)
    → 2 ≤ v
    → v < 2 ^ 32
    → (t : ImplicitOutputTree) × (new v seed ≡ ok t) × (t.vocabulary ≡ v) × IsPermutation t
unfolding new first_multiplier
new-IsPermutation v seed h w =
    let (p, l) = first_bounds v seed h in
    let (m, found, mp, ml, coprime) =
      coprime_loop_finds v v (first_multiplier v seed) h p l (ground arith) in
    let (i, inverted, il, e) = modular_inverse_inverts m v h (swap_gcd m v ml ∙ coprime) in
    let enough : ltb v 2 ≡ false = ground arith in
    (
      record {
        vocabulary = v;
        multiplier = m;
        offset = mix64 (bit_xor seed 0xE7037ED1A0B428DB) % v;
        inverse = i;
      },
      rw (enough, found, inverted),
      refl,
      record {
        several = h;
        word = w;
        multiplier_lt = ml;
        offset_lt = omega arith;
        inverse_lt = il;
        inverts = e;
      },
    )
