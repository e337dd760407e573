-- ===== src/Shard/Bytes/Streams.antt =====
-- The chunked loops write the same bytes as one pass.
use sparse_branch_machine.Base.{
  ℕ, zero, suc, ◌+◌, ◌-◌, ◌/◌, ◌≤◌, ◌<◌, ◌≡◌, refl, sym, ap, ◌∙◌, arith, min, List, [], ◌∷◌, ◌++◌,
  length, replicate, take, drop, take-append-drop, length-drop, ok, true, ltb,
}
use mathlib.Core.List.{append-nil, append_assoc}
use sparse_branch_machine.Shard.Bytes.{
  buffer_of, write_loop, write_little_endian, zeros_loop, write_zeros,
}

buffer_of-nil : (w : ℕ) → buffer_of w [] ≡ []
unfolding buffer_of
buffer_of-nil w = refl

buffer_of-append :
    (w : ℕ) (xs ys : List ℕ) → buffer_of w (xs ++ ys) ≡ buffer_of w xs ++ buffer_of w ys
unfolding buffer_of
buffer_of-append w [] ys = refl
buffer_of-append w (x ∷ xs) ys = simp (buffer_of-append w xs ys, append_assoc)

write_loop-buffer_of :
    (fuel w : ℕ) (xs out : List ℕ)
    → 0 < 16384 / w
    → length xs < fuel
    → write_loop fuel w xs out ≡ ok (out ++ buffer_of w xs)
unfolding write_loop
write_loop-buffer_of zero w xs out h f = absurd (omega arith)
write_loop-buffer_of (suc fuel) w [] out h f =
    ap ok (sym (append-nil out) ∙ ap (◌++◌ out) (sym (buffer_of-nil w)))
write_loop-buffer_of (suc fuel) w (x ∷ xs) out h f =
    let count = min (16384 / w) (length (x ∷ xs)) in
    let more : ltb 0 (length (x ∷ xs)) ≡ true = ground arith in
    rw more (
      write_loop-buffer_of fuel w (drop count (x ∷ xs)) _ h
        (omega (arith, length-drop count (x ∷ xs)))
      ∙ ap ok (
          append_assoc out _ _
          ∙ ap (λ (t : List ℕ). out ++ t)
              (sym (buffer_of-append w (take count (x ∷ xs)) _)
                ∙ ap (buffer_of w) (take-append-drop count (x ∷ xs)))))

-- For values of 1 to 16384 bytes `write_little_endian` returns, having appended the bytes of every
-- value in turn, whatever the division into buffers.
pub write_little_endian-buffer_of :
    (w : ℕ) (xs out : List ℕ)
    → 0 < w
    → w ≤ 16384
    → write_little_endian w xs out ≡ ok (out ++ buffer_of w xs)
unfolding write_little_endian
write_little_endian-buffer_of w xs out p h =
    write_loop-buffer_of (suc (length xs)) w xs out (room w p h) (omega arith)
  where
    room : (w : ℕ) → 0 < w → w ≤ 16384 → 0 < 16384 / w
    room w p h = grind arith

replicate-add : (m n k : ℕ) → k ≡ m + n → replicate {A = ℕ} m 0 ++ replicate n 0 ≡ replicate k 0
replicate-add zero n k e = let e' : k ≡ n = omega arith in rw e'
replicate-add (suc m) n zero e = absurd (omega arith)
replicate-add (suc m) n (suc k) e = ap (λ (t : List ℕ). 0 ∷ t) (replicate-add m n k (omega arith))

zeros_loop-replicate :
    (fuel count : ℕ) (out : List ℕ)
    → count < fuel
    → zeros_loop fuel count out ≡ ok (out ++ replicate count 0)
unfolding zeros_loop
zeros_loop-replicate zero count out f = absurd (omega arith)
zeros_loop-replicate (suc fuel) zero out f = ap ok (sym (append-nil out))
zeros_loop-replicate (suc fuel) (suc count) out f =
    let chunk = min (suc count) 64 in
    let more : ltb 0 (suc count) ≡ true = ground arith in
    rw more (
      zeros_loop-replicate fuel (suc count - chunk) _ (omega arith)
      ∙ ap ok (
          append_assoc out _ _
          ∙ ap (λ (t : List ℕ). out ++ t)
              (replicate-add chunk (suc count - chunk) (suc count) (omega arith))))

-- `write_zeros` returns, having appended that many zeros.
pub write_zeros-replicate :
    (count : ℕ) (out : List ℕ) → write_zeros count out ≡ ok (out ++ replicate count 0)
unfolding write_zeros
write_zeros-replicate count out = zeros_loop-replicate (suc count) count out (omega arith)
