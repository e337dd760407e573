-- ===== src/Output/Tree/Prefix.antt =====
-- `region_prefix`: the first decisions of a path as bits.
use sparse_branch_machine.Base.{
  ℕ, zero, suc, ◌+◌, ◌-◌, ◌*◌, ◌^◌, ◌≤◌, ◌<◌, ◌≡◌, arith, ltb, leb, true, false, if◌then◌else◌, ok,
  List, [], ◌∷◌, bit_or, ap, ◌∙◌,
}
use sparse_branch_machine.Base.Bits.{low-bit_or, two-pow-add_one}
use sparse_branch_machine.Output.Tree.{
  ImplicitDecision, ImplicitOutputTree, IsPermutation, target_path, region_prefix_loop,
  region_prefix,
}
use sparse_branch_machine.Output.Tree.Path.{
  Descent, leaf, left, right, middle, split-ok, target_path-Descent,
}

-- The first `depth` decisions of a path, the first one as the lowest bit.
pub bits_of : ℕ → List ImplicitDecision → ℕ
bits_of zero path = 0
bits_of (suc depth) [] = 0
bits_of (suc depth) (d ∷ path) = (if d.right then 1 else 0) + 2 * bits_of depth path

set_bit : (i prefix : ℕ) → prefix < 2 ^ i → bit_or prefix (2 ^ i) ≡ prefix + 2 ^ i
set_bit i prefix h = omega (arith, ap (bit_or prefix) (one_times i), low-bit_or i 1 prefix h)
  where
    one_times : (i : ℕ) → 2 ^ i ≡ 1 * 2 ^ i
    one_times i = omega arith

region_prefix_loop-bits_of :
    (rounds : ℕ) (t : ImplicitOutputTree) (rank i prefix lo hi : ℕ) (path : List ImplicitDecision)
    → Descent rank lo hi path
    → hi ≤ t.vocabulary
    → prefix < 2 ^ i
    → region_prefix_loop rounds t rank i prefix lo hi ≡ ok (prefix + 2 ^ i * bits_of rounds path)
unfolding region_prefix_loop bits_of
region_prefix_loop-bits_of zero t rank i prefix lo hi path d b s = ap ok (omega arith)
region_prefix_loop-bits_of (suc rounds) t rank i prefix lo hi [] (leaf e f) b s =
    let done : ltb 1 (hi - lo) ≡ false = ground arith in rw done (ap ok (omega arith))
region_prefix_loop-bits_of (suc rounds) t rank i prefix lo hi (x ∷ path) (left w l d) b s =
    let more : ltb 1 (hi - lo) ≡ true = ground arith in
    let below : leb (middle lo hi) rank ≡ false = ground arith in
    rw (more, split-ok t lo hi w b, below)
      (region_prefix_loop-bits_of rounds t rank (i + 1) prefix lo (middle lo hi) path d
          (omega arith) (omega (arith, two-pow-add_one i))
        ∙ ap ok (omega (arith, ap (λ (t : ℕ). t * bits_of rounds path) (two-pow-add_one i))))
region_prefix_loop-bits_of (suc rounds) t rank i prefix lo hi (x ∷ path) (right w l d) b s =
    let more : ltb 1 (hi - lo) ≡ true = ground arith in
    let above : leb (middle lo hi) rank ≡ true = ground arith in
    rw (more, split-ok t lo hi w b, above, set_bit i prefix s)
      (region_prefix_loop-bits_of rounds t rank (i + 1) (prefix + 2 ^ i) (middle lo hi) hi path d b
          (omega (arith, two-pow-add_one i))
        ∙ ap ok (omega (arith, ap (λ (t : ℕ). t * bits_of rounds path) (two-pow-add_one i))))

-- `region_prefix` of a token is the number that the first `depth` decisions of its path spell.
pub region_prefix-bits_of :
    (t : ImplicitOutputTree) (token depth : ℕ)
    → IsPermutation t
    → token < t.vocabulary
    → (path : List ImplicitDecision) × (target_path t token ≡ ok path)
      × (region_prefix t token depth ≡ ok (bits_of depth path))
unfolding region_prefix
region_prefix-bits_of t token depth p h =
    let (rank, path, e, found, d) = target_path-Descent t token p h in
    (
      path,
      found,
      rw e (
          region_prefix_loop-bits_of depth t rank 0 0 0 t.vocabulary path d (omega arith)
            (omega arith)
          ∙ ap ok (omega arith)),
    )
