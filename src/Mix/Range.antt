-- ===== src/Mix/Range.antt =====
-- The mixed value fits 64 bits.
use sparse_branch_machine.Base.{ℕ, ◌*◌, ◌/◌, ◌%◌, ◌^◌, ◌<◌, bit_xor, arith}
use sparse_branch_machine.Base.Bits.{bit_xor-lt}
use sparse_branch_machine.Mix.{mix64}

pub mix64-lt : (x : ℕ) → mix64 x < 2 ^ 64
unfolding mix64
mix64-lt x =
    let d =
      (bit_xor (bit_xor x (x / 2 ^ 30) * 0xbf58476d1ce4e5b9 % 2 ^ 64)
          (bit_xor x (x / 2 ^ 30) * 0xbf58476d1ce4e5b9 % 2 ^ 64 / 2 ^ 27)
        * 0x94d049bb133111eb)
      % 2 ^ 64 in
    bit_xor-lt 64 d (d / 2 ^ 31) (omega arith) (omega arith)
