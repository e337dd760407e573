-- ===== src/Base/Bits.antt =====
-- The bit operations at variables: or of disjoint fields as a sum, and with a mask as a remainder.
use Prim.Native.Nat.{ℕ, zero, suc, ◌+◌, ◌-◌, ◌*◌, ◌/◌, ◌%◌, ◌^◌, ◌≤◌, ◌<◌, max, min, digits}
use Prim.Native.Nat.{
  bit_or, bit_or-bitwise, bit_and, bit_and-bitwise, bit_xor, bit_xor-bitwise, differ,
}
use mathlib.Core.Path.{◌≡◌, refl, ap, sym, ◌∙◌}
use native.Mathlib.Omega.{arith}
use native.Mathlib.Nat.{pow-suc, one-le-pow, div-div-eq-div-mul}

-- Induction from the half of a number to the number.
by_halves {ℓ} : (P : ℕ → Type ℓ) → P 0 → ((a : ℕ) → P (suc a / 2) → P (suc a)) → (a : ℕ) → P a
by_halves P base step a = upto a a (omega arith)
  where
    upto : (bound x : ℕ) → x ≤ bound → P x
    upto bound zero h = base
    upto zero (suc x) h = absurd (omega arith)
    upto (suc bound) (suc x) h = step x (upto bound (suc x / 2) (omega arith))

module _ (z : ℕ → ℕ) (f : ℕ → ℕ → ℕ) where
  -- A count of digits that covers the first number is as good as the number itself.
  digits_saturate : (a count b : ℕ) → a ≤ count → digits z f count a b ≡ digits z f a a b
  digits_saturate =
      by_halves (λ a. (count b : ℕ) → a ≤ count → digits z f count a b ≡ digits z f a a b) none more
    where
      none : (count b : ℕ) → 0 ≤ count → digits z f count 0 b ≡ digits z f 0 0 b
      none zero b h = refl
      none (suc count) b h = refl

      more :
          (a : ℕ)
          → ((count b : ℕ)
              → suc a / 2 ≤ count
              → digits z f count (suc a / 2) b ≡ digits z f (suc a / 2) (suc a / 2) b)
          → (count b : ℕ) → suc a ≤ count
          → digits z f count (suc a) b ≡ digits z f (suc a) (suc a) b
      more a ih zero b h = absurd (omega arith)
      more a ih (suc count) b h =
          let long = ih count (b / 2) (omega arith) in
          let short = ih a (b / 2) (omega arith) in
          ap (λ (t : ℕ). t * 2 + f (suc a % 2) (b % 2)) (long ∙ sym short)

  -- Operations on k digits give k digits.
  digits_lt :
      ((x y : ℕ) → x < 2 → y < 2 → f x y < 2)
      → ((y : ℕ) → z y ≤ y)
      → (k n a b : ℕ) → a < 2 ^ k
      → b < 2 ^ k
      → digits z f n a b < 2 ^ k
  digits_lt hf hz k zero a b p q = omega (arith, hz b)
  digits_lt hf hz k (suc n) zero b p q = omega (arith, hz b)
  digits_lt hf hz zero (suc n) (suc a) b p q = absurd (omega arith)
  digits_lt hf hz (suc k) (suc n) (suc a) b p q = omega (
    arith,
    pow-suc 2 k,
    hf (suc a % 2) (b % 2) (omega arith) (omega arith),
    digits_lt hf hz k n (suc a / 2) (b / 2) (omega (arith, pow-suc 2 k))
        (omega (arith, pow-suc 2 k)),
  )

-- An operation that works on the digits does so on the last one and on the others apart.
module _ (g : ℕ → ℕ → ℕ) (z : ℕ → ℕ) where
  stepwise :
      (f : ℕ → ℕ → ℕ)
      → ((a b : ℕ) → g a b ≡ digits z f a a b)
      → ((b : ℕ) → z b ≡ z (b / 2) * 2 + f 0 (b % 2))
      → (a b : ℕ) → g a b ≡ g (a / 2) (b / 2) * 2 + f (a % 2) (b % 2)
  stepwise f law ends zero b =
      law 0 b ∙ ends b ∙ ap (λ (t : ℕ). t * 2 + f 0 (b % 2)) (sym (law 0 (b / 2)))
  stepwise f law ends (suc a) b =
      law (suc a) b
      ∙ ap (λ (t : ℕ). t * 2 + f (suc a % 2) (b % 2))
          (digits_saturate z f (suc a / 2) a (b / 2) (omega arith) ∙ sym (law (suc a / 2) (b / 2)))

pub bit_or_step : (a b : ℕ) → bit_or a b ≡ bit_or (a / 2) (b / 2) * 2 + max (a % 2) (b % 2)
bit_or_step = stepwise bit_or (λ y. y) max bit_or-bitwise (λ b. omega arith)

pub bit_or-zero : (a : ℕ) → bit_or a 0 ≡ a
bit_or-zero =
    by_halves (λ a. bit_or a 0 ≡ a) refl (λ a ih. omega (arith, bit_or_step (suc a) 0, ih))

zero-bit_or : (b : ℕ) → bit_or 0 b ≡ b
zero-bit_or b = bit_or-bitwise 0 b

double_shift : (q k : ℕ) → q * 2 ^ suc k ≡ 2 * (q * 2 ^ k)
double_shift q k = omega (arith, ap (λ (t : ℕ). q * t) (pow-suc 2 k))

-- A field shifted past the low bits is added by `|`.
pub high-bit_or : (k q r : ℕ) → r < 2 ^ k → bit_or (q * 2 ^ k) r ≡ q * 2 ^ k + r
high-bit_or zero q r h = ground (arith, bit_or-zero q)
high-bit_or (suc k) q r h = ground (
  arith,
  pow-suc 2 k,
  bit_or_step (q * 2 ^ suc k) r,
  double_shift q k,
  high-bit_or k q (r / 2) (omega (arith, pow-suc 2 k)),
)

pub low-bit_or : (k q r : ℕ) → r < 2 ^ k → bit_or r (q * 2 ^ k) ≡ r + q * 2 ^ k
low-bit_or zero q r h =
    let e : r ≡ 0 = omega arith in
    omega (arith, ap (λ (t : ℕ). bit_or t (q * 1)) e, zero-bit_or (q * 1))
low-bit_or (suc k) q r h = ground (
  arith,
  pow-suc 2 k,
  bit_or_step r (q * 2 ^ suc k),
  double_shift q k,
  low-bit_or k q (r / 2) (omega (arith, pow-suc 2 k)),
)

pub two-pow-add_one : (i : ℕ) → 2 ^ (i + 1) ≡ 2 * 2 ^ i
two-pow-add_one i = omega (arith, ap (λ (t : ℕ). 2 ^ t) (add_one i), pow-suc 2 i)
  where
    add_one : (i : ℕ) → i + 1 ≡ suc i
    add_one i = omega arith

pub bit_and_digitwise : (a b : ℕ) → bit_and a b ≡ bit_and (a / 2) (b / 2) * 2 + min (a % 2) (b % 2)
bit_and_digitwise = stepwise bit_and (λ y. 0) min bit_and-bitwise (λ b. omega arith)

pub bit_and_nothing : (a : ℕ) → bit_and a 0 ≡ 0
bit_and_nothing =
    by_halves (λ a. bit_and a 0 ≡ 0) refl (λ a ih. omega (arith, bit_and_digitwise (suc a) 0, ih))

-- A value that fits k bits passes a mask of k ones.
pub bit_and-ones : (k a : ℕ) → a < 2 ^ k → bit_and a (2 ^ k - 1) ≡ a
bit_and-ones zero a h = let e : a ≡ 0 = omega arith in omega (arith, bit_and_nothing a)
bit_and-ones (suc k) a h = ground (
  arith,
  pow-suc 2 k,
  one-le-pow k 2,
  bit_and_digitwise a (2 ^ suc k - 1),
  ap (bit_and (a / 2)) (half (2 ^ k) (one-le-pow k 2 (omega arith)) (pow-suc 2 k)),
  bit_and-ones k (a / 2) (omega (arith, pow-suc 2 k)),
)
  where
    half : (p : ℕ) → 1 ≤ p → 2 ^ suc k ≡ p * 2 → (2 ^ suc k - 1) / 2 ≡ p - 1
    half p h e = omega arith

-- A mask without its low k bits drops these.
pub bit_and-high : (k a q : ℕ) → bit_and a (q * 2 ^ k) ≡ bit_and (a / 2 ^ k) q * 2 ^ k
bit_and-high zero a q =
    omega (arith, ap (λ (t : ℕ). bit_and t (q * 1)) (one_div a), ap (bit_and (a / 1)) (one_mul q))
  where
    one_div : (a : ℕ) → a ≡ a / 1
    one_div a = omega arith

    one_mul : (q : ℕ) → q * 1 ≡ q
    one_mul q = omega arith
bit_and-high (suc k) a q =
    let halves : q * 2 ^ suc k / 2 ≡ q * 2 ^ k = omega (arith, double_shift q k) in
    let deeper : a / 2 / 2 ^ k ≡ a / 2 ^ suc k =
      div-div-eq-div-mul a 2 (2 ^ k) ∙ ap (λ (t : ℕ). a / t) (omega (arith, pow-suc 2 k)) in
    omega (
      arith,
      bit_and_digitwise a (q * 2 ^ suc k),
      double_shift q k,
      ap (bit_and (a / 2)) halves,
      bit_and-high k (a / 2) q,
      ap (λ (t : ℕ). bit_and t q * 2 ^ k) deeper,
      double_shift (bit_and (a / 2 ^ suc k) q) k,
    )

differ_lt : (x y : ℕ) → x < 2 → y < 2 → differ x y < 2
differ_lt zero y p q = q
differ_lt (suc x) zero p q = p
differ_lt (suc zero) (suc zero) p q = omega arith
differ_lt (suc zero) (suc (suc y)) p q = absurd (omega arith)
differ_lt (suc (suc x)) (suc y) p q = absurd (omega arith)

pub bit_xor-lt : (k a b : ℕ) → a < 2 ^ k → b < 2 ^ k → bit_xor a b < 2 ^ k
bit_xor-lt k a b p q =
    omega (
      arith,
      bit_xor-bitwise a b,
      digits_lt (λ y. y) differ differ_lt (λ y. omega arith) k a a b p q,
    )
