-- ===== src/Address/Signature/Locality.antt =====
-- The high bits of a context signature are the most recent tokens.
use sparse_branch_machine.Base.{
  ℕ, zero, suc, ◌+◌, ◌-◌, ◌*◌, ◌/◌, ◌%◌, ◌^◌, ◌≤◌, ◌<◌, ◌≡◌, ◌≢◌, ◌⊎◌, inl, inr, sym, ap, ◌∙◌,
  arith, bit_and, bit_or, false, Bool-cases, leb, ◌==◌, List, length,
}
use sparse_branch_machine.Base.Bits.{high-bit_or}
use sparse_branch_machine.Base.Fields.{bit_and-mask}
use native.Mathlib.Nat.{pow-suc, one-le-pow, mul-add-div_right, div-eq_of_lt}
use sparse_branch_machine.Mix.{mix64}
use sparse_branch_machine.Address.Signature.{
  symbol_bits, mixed_loop, pack_loop, fill, recent_token, token_context_signature,
}

-- The `n` first symbols as one number, the first in the highest place.
pub recent_symbols : (ℕ → ℕ) → ℕ → ℕ → ℕ
recent_symbols symbol bits zero = 0
recent_symbols symbol bits (suc n) = recent_symbols symbol bits n * 2 ^ bits + symbol n % 2 ^ bits

pow-plus : (a b : ℕ) → 2 ^ (a + b) ≡ 2 ^ a * 2 ^ b
pow-plus zero b = ap (λ (t : ℕ). 2 ^ t) (zero_plus b) ∙ omega arith
  where
    zero_plus : (b : ℕ) → 0 + b ≡ b
    zero_plus b = omega arith
pow-plus (suc a) b =
    ap (λ (t : ℕ). 2 ^ t) (suc_plus a b)
    ∙ pow-suc 2 (a + b)
    ∙ ap (λ (t : ℕ). t * 2) (pow-plus a b)
    ∙ twice (2 ^ a) (2 ^ b)
    ∙ ap (λ (t : ℕ). t * 2 ^ b) (sym (pow-suc 2 a))
  where
    suc_plus : (a b : ℕ) → suc a + b ≡ suc (a + b)
    suc_plus a b = omega arith

    twice : (x y : ℕ) → x * y * 2 ≡ x * 2 * y
    twice x y = grind arith

distribute : (q s b k : ℕ) → q * (b * k) + s * k ≡ (q * b + s) * k
distribute q s b k = grind arith

field_lt : (s b k : ℕ) → s < b → s * k + k ≤ b * k
field_lt s b k h = grind arith

pow_split : (b m : ℕ) → b ≤ m → 2 ^ m ≡ 2 ^ b * 2 ^ (m - b)
pow_split b m h = ap (λ (t : ℕ). 2 ^ t) (omega arith) ∙ pow-plus b (m - b)

-- One symbol is packed.
pack-step :
    (q s used bits : ℕ)
    → used + bits ≤ 64
    → bit_or (q * 2 ^ (64 - used)) ((bit_and s (2 ^ bits - 1) * 2 ^ (64 - used - bits)) % 2 ^ 64)
      ≡ (q * 2 ^ bits + s % 2 ^ bits) * 2 ^ (64 - (used + bits))
pack-step q s used bits h =
    let k = 64 - used - bits in
    let ek : 64 - (used + bits) ≡ k = omega arith in
    let r = s % 2 ^ bits in
    let split : 2 ^ (64 - used) ≡ 2 ^ bits * 2 ^ k = pow_split bits (64 - used) (omega arith) in
    let whole : 2 ^ 64 ≡ 2 ^ used * 2 ^ (64 - used) = pow_split used 64 (omega arith) in
    let some_bits = one-le-pow bits 2 (omega arith) in
    let some_k = one-le-pow k 2 (omega arith) in
    let some_used = one-le-pow used 2 (omega arith) in
    let small : r * 2 ^ k < 2 ^ (64 - used) =
      omega (arith, field_lt r (2 ^ bits) (2 ^ k) (omega arith), split) in
    let at_most : 2 ^ (64 - used) ≤ 2 ^ 64 =
      omega (arith, grow (2 ^ used) (2 ^ (64 - used)) some_used, whole) in
    let fits : (r * 2 ^ k) % 2 ^ 64 ≡ r * 2 ^ k = omega arith in
    rw (bit_and-mask bits s, fits, ek)
      (high-bit_or (64 - used) q (r * 2 ^ k) small
        ∙ ap (λ (t : ℕ). q * t + r * 2 ^ k) split
        ∙ distribute q r (2 ^ bits) (2 ^ k))
  where
    grow : (a b : ℕ) → 1 ≤ a → b ≤ a * b
    grow a b h = grind arith

-- The loop stops where the symbols or the 64 bits end.
pub record IsPacked (symbol : ℕ → ℕ) (bits size : ℕ) (r : ℕ × ℕ) : Type 0 where
  pub count : ℕ
  pub few : count ≤ size
  pub used : r.1 ≡ count * bits
  pub room : count * bits ≤ 64
  pub full : (count ≡ size) ⊎ (64 < count * bits + bits)
  pub value : r.0 ≡ recent_symbols symbol bits count * 2 ^ (64 - r.1)

pack_loop-IsPacked :
    (symbol : ℕ → ℕ) (bits size rounds offset used packed : ℕ)
    → offset + rounds ≡ size
    → used ≡ offset * bits
    → used ≤ 64
    → packed ≡ recent_symbols symbol bits offset * 2 ^ (64 - used)
    → IsPacked symbol bits size (pack_loop symbol bits rounds offset used packed)
unfolding pack_loop recent_symbols
pack_loop-IsPacked symbol bits size zero offset used packed a u l e = record {
  count = offset;
  few = omega arith;
  used = u;
  room = omega (arith, u);
  full = inl (omega arith);
  value = e;
}
pack_loop-IsPacked symbol bits size (suc rounds) offset used packed a u l e =
    elim (Bool-cases (leb (used + bits) 64)) [
      | inl fits ↦
          let inside : used + bits ≤ 64 = ground arith in
          rw fits (
            pack_loop-IsPacked symbol bits size rounds (offset + 1) (used + bits) _ (omega arith)
              (grind arith) inside
              (ap
                  (λ (t : ℕ).
                    bit_or t
                      ((bit_and (symbol offset) (2 ^ bits - 1) * 2 ^ (64 - used - bits)) % 2 ^ 64))
                  e
                ∙ pack-step (recent_symbols symbol bits offset) (symbol offset) used bits inside
                ∙ ap (λ (t : ℕ). t * 2 ^ (64 - (used + bits))) (next_symbol offset)))
      | inr stops ↦
          let outside : 64 < used + bits = ground arith in
          rw stops (record {
            count = offset;
            few = omega arith;
            used = u;
            room = omega (arith, u);
            full = inr (omega (arith, u));
            value = e;
          })
    ]
  where
    next_symbol :
        (n : ℕ)
        → recent_symbols symbol bits n * 2 ^ bits + symbol n % 2 ^ bits
          ≡ recent_symbols symbol bits (n + 1)
    next_symbol n = ap (recent_symbols symbol bits) (add_one n)
      where
        add_one : (n : ℕ) → suc n ≡ n + 1
        add_one n = omega arith

fill-high :
    (mixed q used : ℕ) → used ≤ 64 → fill mixed (q * 2 ^ (64 - used), used) / 2 ^ (64 - used) ≡ q
fill-high mixed q used h = elim (Bool-cases (used == 64)) [
  | inl all_used ↦ let z : 64 - used ≡ 0 = ground arith in rw (all_used, z) (omega arith)
  | inr some_left ↦
      let some_room = one-le-pow (64 - used) 2 (omega arith) in
      rw
        (
          some_left,
          bit_and-mask (64 - used) mixed,
          high-bit_or (64 - used) q (mixed % 2 ^ (64 - used)) (omega arith),
        )
        (quotient q (mixed % 2 ^ (64 - used)) (2 ^ (64 - used)) (omega arith))
]
  where
    quotient : (q r k : ℕ) → r < k → (q * k + r) / k ≡ q
    quotient q r k h =
        mul-add-div_right {m = k} (omega arith) q r ∙ omega (arith, div-eq_of_lt {n = r} {m = k} h)

-- The top bits of a nonempty window's signature are the most recent tokens, the latest first, each cut
-- to the width of the alphabet's symbols: as many tokens as the window has or 64 bits hold.
pub token_context_signature-recent :
    (window : List ℕ) (alphabet seed : ℕ)
    → length window ≢ 0
    → let bits = symbol_bits alphabet in
      (n : ℕ) × (n ≤ length window)
      × (n * bits ≤ 64)
      × ((n ≡ length window) ⊎ (64 < n * bits + bits))
      × (token_context_signature window alphabet seed / 2 ^ (64 - n * bits)
          ≡ recent_symbols (recent_token window) bits n)
unfolding token_context_signature recent_symbols
token_context_signature-recent window alphabet seed h =
    let bits = symbol_bits alphabet in
    let mixed = mix64 (mixed_loop window 0 seed) in
    let r = pack_loop (recent_token window) bits (length window) 0 0 0 in
    let p =
      pack_loop-IsPacked (recent_token window) bits (length window) (length window) 0 0 0
        (omega arith) (omega arith) (omega arith) (omega arith) in
    let filled : (length window == 0) ≡ false = ground arith in
    (
      p.count,
      p.few,
      p.room,
      p.full,
      rw filled (
          ap (λ (t : ℕ). fill mixed r / 2 ^ (64 - t)) (sym p.used)
          ∙ ap (λ (t : ℕ). fill mixed (t, r.1) / 2 ^ (64 - r.1)) p.value
          ∙ fill-high mixed (recent_symbols (recent_token window) bits p.count) r.1
              (omega (arith, p.used, p.room))),
    )
