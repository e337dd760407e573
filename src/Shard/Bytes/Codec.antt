-- ===== src/Shard/Bytes/Codec.antt =====
-- What is put is what is got, and nothing else changes.
use native.Mathlib.Nat.{div-add-mod, one-le-pow, pow-suc}
use sparse_branch_machine.Base.{
  ℕ, zero, suc, ◌+◌, ◌*◌, ◌/◌, ◌%◌, ◌^◌, ◌≤◌, ◌<◌, ◌≡◌, ◌⊎◌, inl, inr, refl, sym, ap, ◌∙◌, arith,
  bit_or, List, [], ◌∷◌, length, get_or, length-set, get_or-set_self, get_or-set_ne,
  get_or-append_left, get_or-append_right, length-append,
}
use sparse_branch_machine.Base.Congruence.{Cong-eq-mod}
use sparse_branch_machine.Base.Bits.{low-bit_or}
use sparse_branch_machine.Shard.Bytes.{byte_at, put_loop, get_loop, value_bytes, buffer_of}

-- The digit of weight 256 ^ k.
abbrev pub digit : ℕ → ℕ → ℕ
digit v k = (v / 2 ^ (k * 8)) % 256

next_weight : (k : ℕ) → 2 ^ ((k + 1) * 8) ≡ 256 * 2 ^ (k * 8)
next_weight k =
    let e : (k + 1) * 8 ≡ suc (suc (suc (suc (suc (suc (suc (suc (k * 8)))))))) = omega arith in
    rw e (simp pow-suc (omega arith))

mod_split : (p v : ℕ) → 0 < p → v % (256 * p) ≡ v % p + v / p % 256 * p
mod_split p v h =
    let q = v / p in
    Cong-eq-mod (256 * p) (small q) (record {
      left = 0;
      right = q / 256;
      balance = omega (arith, div-add-mod v p, ap (λ (t : ℕ). t * p) (div-add-mod q 256));
    })
  where
    small : (q : ℕ) → v % p + q % 256 * p < 256 * p
    small q = grind arith

-- The loop that reads adds up the digits that it meets.
pub get_loop-digits :
    (rounds i : ℕ) (bytes : List ℕ) (offset v acc : ℕ)
    → ((k : ℕ) → i ≤ k → k < i + rounds → byte_at bytes (offset + k) ≡ digit v k)
    → acc ≡ v % 2 ^ (i * 8)
    → get_loop rounds i bytes offset acc ≡ v % 2 ^ ((i + rounds) * 8)
unfolding get_loop
get_loop-digits zero i bytes offset v acc h e =
    let none_left : i + 0 ≡ i = omega arith in rw none_left e
get_loop-digits (suc rounds) i bytes offset v acc h e =
    let w = 2 ^ (i * 8) in
    let added : bit_or acc (byte_at bytes (offset + i) * w) ≡ v % 2 ^ ((i + 1) * 8) =
      rw
        (
          h i (omega arith) (omega arith),
          e,
          low-bit_or (i * 8) (digit v i) (v % w) (omega (arith, one-le-pow (i * 8) 2)),
          next_weight i,
        )
        (sym (mod_split w v (one-le-pow (i * 8) 2 (omega arith)))) in
    let e' : i + suc rounds ≡ i + 1 + rounds = omega arith in
    rw e' (
      get_loop-digits rounds (i + 1) bytes offset v _ (λ k a b. h k (omega arith) (omega arith))
        added)

-- The loop that writes leaves the bytes outside its own alone.
pub put_loop-outside :
    (rounds i : ℕ) (h : List ℕ) (offset v k : ℕ)
    → (k < offset + i) ⊎ (offset + i + rounds ≤ k)
    → get_or (put_loop rounds i h offset v) k 0 ≡ get_or h k 0
unfolding put_loop
put_loop-outside zero i h offset v k o = refl
put_loop-outside (suc rounds) i h offset v k o =
    put_loop-outside rounds (i + 1) _ offset v k (omega arith)
    ∙ get_or-set_ne h (offset + i) k _ 0 (omega arith)

pub length-put_loop :
    (rounds i : ℕ) (h : List ℕ) (offset v : ℕ) → length (put_loop rounds i h offset v) ≡ length h
unfolding put_loop
length-put_loop zero i h offset v = refl
length-put_loop (suc rounds) i h offset v =
    length-put_loop rounds (i + 1) _ offset v ∙ length-set h (offset + i) _

-- And it writes the digits.
pub put_loop-digits :
    (rounds i : ℕ) (h : List ℕ) (offset v k : ℕ)
    → offset + i + rounds ≤ length h
    → i ≤ k
    → k < i + rounds
    → get_or (put_loop rounds i h offset v) (offset + k) 0 ≡ digit v k
unfolding put_loop
put_loop-digits zero i h offset v k room a b = absurd (omega arith)
put_loop-digits (suc rounds) i h offset v k room a b = elim (here_or_later i k a) [
  | inl e ↦ rw (← e) (
      put_loop-outside rounds (i + 1) _ offset v (offset + i) (omega arith)
      ∙ get_or-set_self h (offset + i) _ 0 (omega arith))
  | inr l ↦
      put_loop-digits rounds (i + 1) _ offset v k
        (omega (arith, length-set h (offset + i) (digit v i))) (omega arith) (omega arith)
]
  where
    here_or_later : (i k : ℕ) → i ≤ k → (i ≡ k) ⊎ (i + 1 ≤ k)
    here_or_later i k h = omega arith

pub length-value_bytes : (n b v : ℕ) → length (value_bytes n b v) ≡ n
unfolding value_bytes
length-value_bytes zero b v = refl
length-value_bytes (suc n) b v = ap suc (length-value_bytes n (b + 1) v)

value_bytes-digits : (n b v k : ℕ) → k < n → get_or (value_bytes n b v) k 0 ≡ digit v (b + k)
unfolding value_bytes
value_bytes-digits zero b v k h = absurd (omega arith)
value_bytes-digits (suc n) b v zero h = let e : b + 0 ≡ b = omega arith in rw e
value_bytes-digits (suc n) b v (suc k) h =
    let e : b + suc k ≡ b + 1 + k = omega arith in
    rw e (value_bytes-digits n (b + 1) v k (omega arith))

pub length-buffer_of : (width : ℕ) (xs : List ℕ) → length (buffer_of width xs) ≡ width * length xs
unfolding buffer_of
length-buffer_of width [] = omega arith
length-buffer_of width (x ∷ xs) = omega (
  arith,
  length-append (value_bytes width 0 x) (buffer_of width xs),
  length-value_bytes width 0 x,
  length-buffer_of width xs,
)

-- The bytes of the i-th value.
pub buffer_of-digits :
    (width : ℕ) (xs : List ℕ) (i k j : ℕ)
    → i < length xs
    → k < width
    → j ≡ width * i + k
    → get_or (buffer_of width xs) j 0 ≡ digit (get_or xs i 0) k
unfolding buffer_of
buffer_of-digits width [] i k j h l e = absurd (omega arith)
buffer_of-digits width (x ∷ xs) zero k j h l e =
    let here : j ≡ k = omega arith in
    rw here (
      get_or-append_left (value_bytes width 0 x) _ k 0 (omega (arith, length-value_bytes width 0 x))
      ∙ value_bytes-digits width 0 x k l
      ∙ ap (digit x) (omega arith))
buffer_of-digits width (x ∷ xs) (suc i) k j h l e =
    get_or-append_right (value_bytes width 0 x) _ j (width * i + k) 0
      (omega (arith, length-value_bytes width 0 x))
    ∙ buffer_of-digits width xs i k _ (omega arith) l refl

digit_small : (v k : ℕ) → digit v k % 256 ≡ digit v k
digit_small v k = omega arith

-- A number is read back where its digits stand.
pub get_loop-reads :
    (n : ℕ) (bytes : List ℕ) (offset v : ℕ)
    → ((k : ℕ) → k < n → get_or bytes (offset + k) 0 ≡ digit v k)
    → v < 2 ^ (n * 8)
    → get_loop n 0 bytes offset 0 ≡ v
get_loop-reads n bytes offset v h small =
    let e : (0 + n) * 8 ≡ n * 8 = omega arith in
    get_loop-digits n 0 bytes offset v 0
      (λ k a b. ap (λ (t : ℕ). t % 256) (h k (omega arith)) ∙ digit_small v k) (omega arith)
    ∙ ap (λ (t : ℕ). v % 2 ^ t) e
    ∙ in_range (2 ^ (n * 8)) small
  where
    in_range : (m : ℕ) → v < m → v % m ≡ v
    in_range m h = grind arith

-- Reading sees only the bytes that it reads.
pub get_loop-cong :
    (n i : ℕ) (a b : List ℕ) (offset acc : ℕ)
    → ((k : ℕ) → i ≤ k → k < i + n → get_or a (offset + k) 0 ≡ get_or b (offset + k) 0)
    → get_loop n i a offset acc ≡ get_loop n i b offset acc
unfolding get_loop
get_loop-cong zero i a b offset acc h = refl
get_loop-cong (suc n) i a b offset acc h =
    rw (h i (omega arith) (omega arith))
      (get_loop-cong n (i + 1) a b offset _ (λ k l u. h k (omega arith) (omega arith)))

-- What `put` wrote, `get` reads.
pub get_loop-put_loop :
    (n : ℕ) (h : List ℕ) (offset v : ℕ)
    → offset + n ≤ length h
    → v < 2 ^ (n * 8)
    → get_loop n 0 (put_loop n 0 h offset v) offset 0 ≡ v
get_loop-put_loop n h offset v room small =
    get_loop-reads n _ offset v
      (λ k l. put_loop-digits n 0 h offset v k (omega arith) (omega arith) (omega arith)) small

-- What `put` wrote elsewhere, `get` does not see.
pub get_loop-put_loop_apart :
    (n m : ℕ) (h : List ℕ) (offset other v : ℕ)
    → (offset + n ≤ other) ⊎ (other + m ≤ offset)
    → get_loop n 0 (put_loop m 0 h other v) offset 0 ≡ get_loop n 0 h offset 0
get_loop-put_loop_apart n m h offset other v apart =
    get_loop-cong n 0 _ h offset 0
      (λ k l u. put_loop-outside m 0 h other v (offset + k) (omega arith))
