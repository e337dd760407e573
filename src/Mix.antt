-- ===== src/Mix.antt =====
-- modules/signature.cpp and detail/random.hpp: the 64-bit mixing function and the generator on it.
pub mod Range
use sparse_branch_machine.Base.{
  ℕ, ◌+◌, ◌-◌, ◌*◌, ◌/◌, ◌%◌, ◌^◌, bit_xor, zero, suc, ◌==◌, if◌then◌else◌,
}

-- Every product of `uint64_t` wraps at 2 ^ 64.
unfoldable pub mix64 : ℕ → ℕ
mix64 x =
    let a = bit_xor x (x / 2 ^ 30) in
    let b = (a * 0xbf58476d1ce4e5b9) % 2 ^ 64 in
    let c = bit_xor b (b / 2 ^ 27) in
    let d = (c * 0x94d049bb133111eb) % 2 ^ 64 in bit_xor d (d / 2 ^ 31)

-- `next_random`: the value returned, and the state after the call.
unfoldable pub next_random : ℕ → ℕ × ℕ
next_random state = let s = (state + 0x9E3779B97F4A7C15) % 2 ^ 64 in (mix64 s, s)

-- `std::rotl` of a 64-bit value, for a rotation below 64.
unfoldable pub rotl : ℕ → ℕ → ℕ
rotl x s = (x * 2 ^ s) % 2 ^ 64 + (x % 2 ^ 64) / 2 ^ (64 - s)

-- `std::bit_width` of a 64-bit number: 64 halvings reach 0.
unfoldable pub bit_width_loop : ℕ → ℕ → ℕ
bit_width_loop zero n = 0
bit_width_loop (suc fuel) n =
    let rest = bit_width_loop fuel (n / 2) in if n == 0 then 0 else rest + 1
