-- ===== src/Output/Inverse/Bounds.antt =====
-- The size of the coefficients of the loop of `modular_inverse`: `int64_t` holds them.
use native.Mathlib.Nat.{div-add-mod}
use sparse_branch_machine.Base.{ℕ, ◌+◌, ◌-◌, ◌*◌, ◌/◌, ◌≤◌, ◌<◌, ◌≡◌, refl, arith, inr, ap, ◌⊎◌}
use sparse_branch_machine.Base.Int.{ℤ, ◌-ℤ◌, scale, pos_part, neg_part}
use sparse_branch_machine.Output.Inverse.{Euclid, euclid_start, euclid_step}
use sparse_branch_machine.Output.Inverse.Coefficients.{divides_up}

-- The coefficients have opposite signs.
abbrev pub Opposed : ℤ → ℤ → Type 0
Opposed a b = ((neg_part a ≡ 0) × (pos_part b ≡ 0)) ⊎ ((pos_part a ≡ 0) × (neg_part b ≡ 0))

abbrev pub size : ℤ → ℕ
size a = pos_part a + neg_part a

-- The sizes of the coefficients, weighted with the remainders, make up the modulus.
pub record IsBounded (m : ℕ) (s : Euclid) : Type 0 where
  pub opposed : Opposed s.previous s.current
  pub weighted : size s.previous * s.next_remainder + size s.current * s.remainder ≡ m

next_size :
    (q : ℕ) (p c : ℤ)
    → Opposed p c
    → Opposed c (p -ℤ scale q c) × (size (p -ℤ scale q c) ≡ size p + q * size c)
unfolding ◌-ℤ◌ scale
next_size q p c o = ground arith

euclid_step-IsBounded : (m : ℕ) (s : Euclid) → IsBounded m s → IsBounded m (euclid_step s)
unfolding euclid_step
euclid_step-IsBounded m s b =
    let q = s.remainder / s.next_remainder in
    let (o, e) = next_size q s.previous s.current b.opposed in
    let reduced = s.remainder - q * s.next_remainder in
    record {
      opposed = o;
      weighted = omega (
        arith,
        b.weighted,
        ap (λ (t : ℕ). t * s.next_remainder) e,
        ap (λ (t : ℕ). size s.current * t) (divides_up s.remainder s.next_remainder),
      );
    }

-- The states of the loop, from one on.
pub data Rounds (s : Euclid) : Euclid → Type 0 where
  start : Rounds s s
  round : {t : Euclid} → Rounds s t → 0 < t.next_remainder → Rounds s (euclid_step t)

Rounds-IsBounded : (m : ℕ) {s t : Euclid} → IsBounded m s → Rounds s t → IsBounded m t
Rounds-IsBounded m b start = b
Rounds-IsBounded m b (round {t = t} r h) = euclid_step-IsBounded m t (Rounds-IsBounded m b r)

-- The remainders of the loop fall and the first one stays positive.
Rounds-falls :
    {s t : Euclid}
    → 0 < s.remainder
    → s.next_remainder < s.remainder
    → Rounds s t
    → (0 < t.remainder) × (t.next_remainder < t.remainder)
unfolding euclid_step
Rounds-falls p h start = (p, h)
Rounds-falls p h (round {t = t} r k) = (
  k,
  omega (arith, divides_up t.remainder t.next_remainder, div-add-mod t.remainder t.next_remainder),
)

weight_bound : (a b c d m : ℕ) → a * b + c * d ≡ m → 0 < d → c ≤ m
weight_bound a b c d m e h = grind arith

start-IsBounded : (value modulus : ℕ) → IsBounded modulus (euclid_start value modulus)
start-IsBounded value modulus = record { opposed = inr (refl, refl); weighted = omega arith }

size-scale : (q : ℕ) (c : ℤ) → size (scale q c) ≡ q * size c
unfolding scale
size-scale q c = ground arith

-- In every round of `modular_inverse` on a value below the modulus, both coefficients, and the
-- product and the difference that the round computes, are at most the modulus in size.
pub coefficients-le-modulus :
    (value modulus : ℕ) {t : Euclid}
    → value < modulus
    → Rounds (euclid_start value modulus) t
    → 0 < t.next_remainder
    → (size t.previous ≤ modulus)
      × (size t.current ≤ modulus)
      × (size (scale (t.remainder / t.next_remainder) t.current) ≤ modulus)
      × (size (t.previous -ℤ scale (t.remainder / t.next_remainder) t.current) ≤ modulus)
unfolding euclid_step
coefficients-le-modulus value modulus {t} small r h =
    let q = t.remainder / t.next_remainder in
    let next = t.previous -ℤ scale q t.current in
    let b = Rounds-IsBounded modulus (start-IsBounded value modulus) r in
    let (p, f) = Rounds-falls (omega arith) small r in
    let b' = euclid_step-IsBounded modulus t b in
    let (o, e) = next_size q t.previous t.current b.opposed in
    let after : size next ≤ modulus =
      weight_bound (size t.current) (t.remainder - q * t.next_remainder) (size next)
        t.next_remainder modulus b'.weighted h in
    (
      weight_bound (size t.current) t.remainder (size t.previous) t.next_remainder modulus
          (omega (arith, b.weighted)) h,
      weight_bound (size t.previous) t.next_remainder (size t.current) t.remainder modulus
          b.weighted p,
      omega (arith, after, e, size-scale q t.current),
      after,
    )
