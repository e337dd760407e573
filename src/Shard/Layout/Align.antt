-- ===== src/Shard/Layout/Align.antt =====
-- `align_up`: the mask as a rounding.
use sparse_branch_machine.Base.{
  ℕ, ◌+◌, ◌-◌, ◌*◌, ◌/◌, ◌%◌, ◌^◌, ◌≤◌, ◌<◌, ◌≡◌, ap, ◌∙◌, arith, bit_and, ltb, false, true, ok,
  throw, overflow_error,
}
use sparse_branch_machine.Base.Bits.{bit_and-ones, bit_and-high}
use sparse_branch_machine.Shard.Layout.{align_up, u64_max}

-- The next multiple of 64.
abbrev pub rounded : ℕ → ℕ
rounded v = (v + 63) / 64 * 64

mask_64 : (x : ℕ) → x < 2 ^ 64 → bit_and x (u64_max - 63) ≡ x / 64 * 64
mask_64 x h =
    bit_and-high 6 x (2 ^ 58 - 1) ∙ ap (λ (t : ℕ). t * 64) (bit_and-ones 58 (x / 64) (omega arith))

-- For alignment 64 `align_up` returns the next multiple of 64, or throws if 64 bits do not hold
-- the value increased by 63.
pub align_up-rounded :
    (v : ℕ)
    → (v ≤ u64_max - 63 → align_up v 64 ≡ ok (rounded v))
      × (u64_max - 63 < v → align_up v 64 ≡ throw overflow_error)
unfolding align_up
align_up-rounded v = (
  λ h.
      let room : ltb (u64_max - 63) v ≡ false = ground arith in
      let fits : (v + 64 - 1) % 2 ^ 64 ≡ v + 63 = omega arith in
      rw (room, fits) (ap ok (mask_64 (v + 63) (omega arith))),
  λ h. let over : ltb (u64_max - 63) v ≡ true = ground arith in rw over,
)
