-- ===== src/Base/Fields.antt =====
-- Bit operations on numbers with a high and a low field, and masks.
use Prim.Native.Nat.{ℕ, zero, suc, ◌+◌, ◌-◌, ◌*◌, ◌/◌, ◌%◌, ◌^◌, ◌<◌, max, min, bit_or, bit_and}
use mathlib.Core.Path.{◌≡◌, refl, ap, ap₂}
use native.Mathlib.Omega.{arith}
use native.Mathlib.Nat.{pow-suc, one-le-pow}
use sparse_branch_machine.Base.Bits.{bit_or_step, bit_and_digitwise, bit_and-ones, bit_and_nothing}

shifted : (q k : ℕ) → q * 2 ^ suc k ≡ 2 * (q * 2 ^ k)
shifted q k = omega (arith, ap (λ (t : ℕ). q * t) (pow-suc 2 k))

no_shift : (q r : ℕ) → r < 1 → q * 1 + r ≡ q
no_shift q r h = omega arith

module _ (f : ℕ → ℕ → ℕ) (g : ℕ → ℕ → ℕ)
    (step : (a b : ℕ) → f a b ≡ f (a / 2) (b / 2) * 2 + g (a % 2) (b % 2)) (none : f 0 0 ≡ 0) where
  -- Both fields are treated apart.
  fields :
      (k a b r s : ℕ)
      → r < 2 ^ k
      → s < 2 ^ k
      → f (a * 2 ^ k + r) (b * 2 ^ k + s) ≡ f a b * 2 ^ k + f r s
  fields zero a b r s p q =
      let er : r ≡ 0 = omega arith in
      let es : s ≡ 0 = omega arith in
      omega (arith, ap₂ f (no_shift a r p) (no_shift b s q), ap₂ f er es, none)
  fields (suc k) a b r s p q =
      let ha : (a * 2 ^ suc k + r) / 2 ≡ a * 2 ^ k + r / 2 = omega (arith, shifted a k) in
      let hb : (b * 2 ^ suc k + s) / 2 ≡ b * 2 ^ k + s / 2 = omega (arith, shifted b k) in
      let la : (a * 2 ^ suc k + r) % 2 ≡ r % 2 = omega (arith, shifted a k) in
      let lb : (b * 2 ^ suc k + s) % 2 ≡ s % 2 = omega (arith, shifted b k) in
      omega (
        arith,
        step (a * 2 ^ suc k + r) (b * 2 ^ suc k + s),
        ap₂ f ha hb,
        ap₂ g la lb,
        fields k a b (r / 2) (s / 2) (omega (arith, pow-suc 2 k)) (omega (arith, pow-suc 2 k)),
        step r s,
        shifted (f a b) k,
      )

pub bit_or-fields :
    (k a b r s : ℕ)
    → r < 2 ^ k
    → s < 2 ^ k
    → bit_or (a * 2 ^ k + r) (b * 2 ^ k + s) ≡ bit_or a b * 2 ^ k + bit_or r s
bit_or-fields = fields bit_or max bit_or_step refl

pub bit_and-fields :
    (k a b r s : ℕ)
    → r < 2 ^ k
    → s < 2 ^ k
    → bit_and (a * 2 ^ k + r) (b * 2 ^ k + s) ≡ bit_and a b * 2 ^ k + bit_and r s
bit_and-fields = fields bit_and min bit_and_digitwise refl

-- A mask of k ones keeps the remainder.
pub bit_and-mask : (k a : ℕ) → bit_and a (2 ^ k - 1) ≡ a % 2 ^ k
bit_and-mask k a =
    let p = one-le-pow k 2 (omega arith) in
    let e : a / 2 ^ k * 2 ^ k + a % 2 ^ k ≡ a = omega arith in
    let z : 0 * 2 ^ k + (2 ^ k - 1) ≡ 2 ^ k - 1 = omega arith in
    omega (
      arith,
      ap₂ bit_and e z,
      bit_and-fields k (a / 2 ^ k) 0 (a % 2 ^ k) (2 ^ k - 1) (omega arith) (omega arith),
      ap (λ (t : ℕ). t * 2 ^ k) (bit_and_nothing (a / 2 ^ k)),
      bit_and-ones k (a % 2 ^ k) (omega arith),
    )
