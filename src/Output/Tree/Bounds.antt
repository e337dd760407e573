-- ===== src/Output/Tree/Bounds.antt =====
-- How long a path is, and which decisions it names.
use native.Mathlib.Nat.{pow-suc}
use sparse_branch_machine.Base.{
  ℕ, zero, suc, ◌+◌, ◌-◌, ◌^◌, ◌≤◌, ◌<◌, ◌≡◌, ◌≢◌, arith, ok, List, [], ◌∷◌, length, All, All-map,
}
use sparse_branch_machine.Output.Tree.{
  ImplicitDecision, ImplicitOutputTree, IsPermutation, target_path,
}
use sparse_branch_machine.Output.Tree.Path.{Descent, leaf, left, right, middle, target_path-Descent}

-- The decisions of an interval lie between its first and its last rank.
abbrev Within : ℕ → ℕ → ImplicitDecision → Type 0
Within lo hi d = (lo ≤ d.id) × (d.id + 1 < hi)

Descent-Within :
    {rank : ℕ} (lo hi : ℕ) {path : List ImplicitDecision}
    → Descent rank lo hi path
    → All (Within lo hi) path
Descent-Within lo hi (leaf e f) = tt
Descent-Within lo hi (left {path = path} w b d) = (
  omega arith,
  All-map (λ x (h : Within lo (middle lo hi) x). omega arith) path
      (Descent-Within lo (middle lo hi) d),
)
Descent-Within lo hi (right {path = path} w b d) = (
  omega arith,
  All-map (λ x (h : Within (middle lo hi) hi x). omega arith) path
      (Descent-Within (middle lo hi) hi d),
)

-- No decision is named twice.
abbrev pub Distinct : List ImplicitDecision → Type 0
Distinct [] = Unit
Distinct (d ∷ path) = All (λ e. d.id ≢ e.id) path × Distinct path

Descent-Distinct :
    {rank : ℕ} (lo hi : ℕ) {path : List ImplicitDecision} → Descent rank lo hi path → Distinct path
Descent-Distinct lo hi (leaf e f) = tt
Descent-Distinct lo hi (left {path = path} w b d) = (
  All-map (λ x (h : Within lo (middle lo hi) x). omega arith) path
      (Descent-Within lo (middle lo hi) d),
  Descent-Distinct lo (middle lo hi) d,
)
Descent-Distinct lo hi (right {path = path} w b d) = (
  All-map (λ x (h : Within (middle lo hi) hi x). omega arith) path
      (Descent-Within (middle lo hi) hi d),
  Descent-Distinct (middle lo hi) hi d,
)

Descent-length :
    {rank lo hi : ℕ} {path : List ImplicitDecision} (k : ℕ)
    → Descent rank lo hi path
    → hi - lo ≤ 2 ^ k
    → length path ≤ k
Descent-length k (leaf e f) h = omega arith
Descent-length zero (left w b d) h = absurd (omega arith)
Descent-length (suc k) (left w b d) h =
    omega (arith, Descent-length k d (omega (arith, pow-suc 2 k)))
Descent-length zero (right w b d) h = absurd (omega arith)
Descent-length (suc k) (right w b d) h =
    omega (arith, Descent-length k d (omega (arith, pow-suc 2 k)))

-- The path of a token has at most k decisions if the vocabulary has at most 2^k tokens; each
-- decision indexes an array of one entry less than the vocabulary, and none occurs twice.
pub target_path_bounds :
    (t : ImplicitOutputTree) (token k : ℕ)
    → IsPermutation t
    → token < t.vocabulary
    → t.vocabulary ≤ 2 ^ k
    → (path : List ImplicitDecision) × (target_path t token ≡ ok path)
      × (length path ≤ k)
      × All (λ d. d.id < t.vocabulary - 1) path
      × Distinct path
target_path_bounds t token k p h w =
    let (rank, path, _, e, d) = target_path-Descent t token p h in
    (
      path,
      e,
      Descent-length k d (omega arith),
      All-map (λ x (b : Within 0 t.vocabulary x). omega arith) path
          (Descent-Within 0 t.vocabulary d),
      Descent-Distinct 0 t.vocabulary d,
    )
