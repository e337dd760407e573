-- ===== src/Output/Tree/Path.antt =====
-- `target_path`: a binary search for the rank, one decision to each halving.
use sparse_branch_machine.Base.{
  ℕ, zero, suc, ◌+◌, ◌-◌, ◌/◌, ◌≤◌, ◌<◌, ◌≡◌, arith, ltb, leb, Bool, true, false, Bool-cases, inl,
  inr, if◌then◌else◌, ok, List, [], ◌∷◌, sym, ap, ◌∙◌,
}
use sparse_branch_machine.Output.Tree.{
  ImplicitDecision, ImplicitOutputTree, IsPermutation, split, target_path_loop, target_path,
  rank_from_token,
}
use sparse_branch_machine.Output.Tree.Rank.{
  rank_of, rank_from_token-ok, token_from_rank-rank_from_token,
}

abbrev pub middle : ℕ → ℕ → ℕ
middle lo hi = lo + (hi - lo) / 2

abbrev pub decision : ℕ → ℕ → Bool → ImplicitDecision
decision lo hi right = record { id = middle lo hi - 1; right = right }

-- The decisions that lead from an interval of ranks to one rank in it.
pub data Descent (rank : ℕ) : ℕ → ℕ → List ImplicitDecision → Type 0 where
  leaf : {lo hi : ℕ} → lo ≡ rank → hi ≡ rank + 1 → Descent rank lo hi []
  left :
      {lo hi : ℕ} {path : List ImplicitDecision}
      → 2 ≤ hi - lo
      → rank < middle lo hi
      → Descent rank lo (middle lo hi) path
      → Descent rank lo hi (decision lo hi false ∷ path)
  right :
      {lo hi : ℕ} {path : List ImplicitDecision}
      → 2 ≤ hi - lo
      → middle lo hi ≤ rank
      → Descent rank (middle lo hi) hi path
      → Descent rank lo hi (decision lo hi true ∷ path)

-- On an interval of two or more ranks `split` does not throw.
pub split-ok :
    (t : ImplicitOutputTree) (lo hi : ℕ)
    → 2 ≤ hi - lo
    → hi ≤ t.vocabulary
    → split t lo hi ≡ ok (record { middle = middle lo hi; decision_id = middle lo hi - 1 })
unfolding split
split-ok t lo hi h k =
    let a : leb hi lo ≡ false = ground arith in
    let b : ltb t.vocabulary hi ≡ false = ground arith in
    let c : ltb (hi - lo) 2 ≡ false = ground arith in rw (a, b, c)

target_path_loop-Descent :
    (fuel : ℕ) (t : ImplicitOutputTree) (rank lo hi : ℕ)
    → lo ≤ rank
    → rank < hi
    → hi ≤ t.vocabulary
    → hi - lo < fuel
    → (path : List ImplicitDecision) × (target_path_loop fuel t rank lo hi ≡ ok path)
      × Descent rank lo hi path
unfolding target_path_loop
target_path_loop-Descent zero t rank lo hi a b c f = absurd (omega arith)
target_path_loop-Descent (suc fuel) t rank lo hi a b c f = elim (Bool-cases (ltb 1 (hi - lo))) [
  | inl more ↦
      let wide : 2 ≤ hi - lo = ground arith in
      elim (Bool-cases (leb (middle lo hi) rank)) [
        | inl above ↦
            let (path, e, d) =
              target_path_loop-Descent fuel t rank (middle lo hi) hi (ground arith) b c
                (omega arith) in
            (
              decision lo hi true ∷ path,
              rw (more, split-ok t lo hi wide c, above, e),
              right wide (ground arith) d,
            )
        | inr below ↦
            let (path, e, d) =
              target_path_loop-Descent fuel t rank lo (middle lo hi) a (ground arith) (omega arith)
                (omega arith) in
            (
              decision lo hi false ∷ path,
              rw (more, split-ok t lo hi wide c, below, e),
              left wide (ground arith) d,
            )
      ]
  | inr done ↦
      let one : hi - lo ≤ 1 = ground arith in ([], rw done, leaf (omega arith) (omega arith))
]

-- For a token of the vocabulary `target_path` returns, without a throw, the decisions that lead
-- from the whole range of ranks to the rank of the token.
pub target_path-Descent :
    (t : ImplicitOutputTree) (token : ℕ)
    → IsPermutation t
    → token < t.vocabulary
    → (rank : ℕ) × (path : List ImplicitDecision) × (rank_from_token t token ≡ ok rank)
      × (target_path t token ≡ ok path)
      × Descent rank 0 t.vocabulary path
unfolding target_path
target_path-Descent t token p h =
    let several = p.several in
    let rank = rank_of t p token in
    let e = rank_from_token-ok t p token h in
    let (path, found, d) =
      target_path_loop-Descent (suc t.vocabulary) t rank 0 t.vocabulary (omega arith) (omega arith)
        (omega arith) (omega arith) in
    (rank, path, e, rw (e, found), d)

-- Reading the decisions back: where a path leads.
pub walk : ℕ → ℕ → List ImplicitDecision → ℕ
walk lo hi [] = lo
walk lo hi (d ∷ path) =
    walk (if d.right then middle lo hi else lo) (if d.right then hi else middle lo hi) path

Descent-walk :
    {rank lo hi : ℕ} {path : List ImplicitDecision}
    → Descent rank lo hi path
    → walk lo hi path ≡ rank
unfolding walk
Descent-walk (leaf e f) = e
Descent-walk (left w b d) = Descent-walk d
Descent-walk (right w b d) = Descent-walk d

-- Two tokens of the vocabulary with the same path are the same token.
pub target_path_injective :
    (t : ImplicitOutputTree) (a b : ℕ)
    → IsPermutation t
    → a < t.vocabulary
    → b < t.vocabulary
    → target_path t a ≡ target_path t b
    → a ≡ b
target_path_injective t a b p ha hb e =
    let (r, pa, ra, ea, da) = target_path-Descent t a p ha in
    let (s, pb, rb, eb, db) = target_path-Descent t b p hb in
    let same : pa ≡ pb = cc in
    let ranks : r ≡ s = sym (Descent-walk da) ∙ ap (walk 0 t.vocabulary) same ∙ Descent-walk db in
    let ((r', ra', _, back_a), _) = token_from_rank-rank_from_token t a p ha in
    let ((s', rb', _, back_b), _) = token_from_rank-rank_from_token t b p hb in cc
