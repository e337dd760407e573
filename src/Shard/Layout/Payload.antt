-- ===== src/Shard/Layout/Payload.antt =====
-- The arrays behind the header, read back value by value.
use sparse_branch_machine.Base.{
  ℕ, zero, suc, ◌+◌, ◌-◌, ◌*◌, ◌^◌, ◌≤◌, ◌<◌, ◌≡◌, refl, ap, ap₂, ◌∙◌, arith, List, [], ◌∷◌, ◌++◌,
  length, All, get_or, get_or-append_left, get_or-append_right, false, leb,
}
use sparse_branch_machine.Shard.Bytes.{get_loop, buffer_of}
use sparse_branch_machine.Shard.Bytes.Codec.{get_loop-reads, buffer_of-digits, length-buffer_of}
use sparse_branch_machine.Shard.Layout.{values_from, has_empty_mapped, MappedTokenShard, offset_at}
use sparse_branch_machine.Dataset.Valid.{Rising}

pub All-get_or :
    (m : ℕ) (xs : List ℕ) (i : ℕ) → All (λ x. x < m) xs → i < length xs → get_or xs i 0 < m
All-get_or m [] i h l = absurd (omega arith)
All-get_or m (x ∷ xs) zero h l = h.0
All-get_or m (x ∷ xs) (suc i) h l = All-get_or m xs i h.1 (omega arith)

-- A value of an array that stands behind `pre`.
pub get_loop-buffer_of :
    (w : ℕ) (pre xs post : List ℕ) (i at : ℕ)
    → at ≡ length pre + w * i
    → i < length xs
    → get_or xs i 0 < 2 ^ (w * 8)
    → get_loop w 0 (pre ++ (buffer_of w xs ++ post)) at 0 ≡ get_or xs i 0
get_loop-buffer_of w pre xs post i at e l small =
    get_loop-reads w _ at (get_or xs i 0)
      (λ k h.
        get_or-append_right pre _ (at + k) (w * i + k) 0 (omega (arith, e))
        ∙ get_or-append_left (buffer_of w xs) post (w * i + k) 0
            (omega (arith, length-buffer_of w xs, inside w i (length xs) k l h))
        ∙ buffer_of-digits w xs i k (w * i + k) l h refl)
      small
  where
    inside : (w i n k : ℕ) → i < n → k < w → w * i + k < w * n
    inside w i n k l h = grind arith

pub values_from-list :
    (at : ℕ → ℕ) (xs : List ℕ) (j : ℕ)
    → ((i : ℕ) → i < length xs → at (j + i) ≡ get_or xs i 0)
    → values_from at j (length xs) ≡ xs
unfolding values_from
values_from-list at [] j h = refl
values_from-list at (x ∷ xs) j h =
    let here : at j ≡ x = ap at (omega arith) ∙ h 0 (omega arith) in
    ap₂ ◌∷◌ here
      (values_from-list at xs (j + 1) (λ i l. ap at (omega arith) ∙ h (suc i) (omega arith)))

-- The loop over mapped offsets finds no empty sequence where they rise.
pub has_empty_mapped-false :
    (s : MappedTokenShard) (a : ℕ) (xs : List ℕ) (j : ℕ)
    → Rising (a ∷ xs)
    → ((i : ℕ) → i ≤ length xs → offset_at s (j + i) ≡ get_or (a ∷ xs) i 0)
    → has_empty_mapped (length xs) (j + 1) s ≡ false
unfolding has_empty_mapped
has_empty_mapped-false s a [] j r h = refl
has_empty_mapped-false s a (b ∷ xs) j r h =
    let before : offset_at s (j + 1 - 1) ≡ a = ap (offset_at s) (omega arith) ∙ h 0 (omega arith) in
    let here : offset_at s (j + 1) ≡ b = h 1 (omega arith) in
    let rising : leb b a ≡ false = ground arith in
    rw (before, here, rising)
      (has_empty_mapped-false s b xs (j + 1) r.1
        (λ i l. ap (offset_at s) (omega arith) ∙ h (suc i) (omega arith)))

pub has_empty_mapped-Rising :
    (s : MappedTokenShard) (xs : List ℕ)
    → Rising xs
    → 2 ≤ length xs
    → ((i : ℕ) → i < length xs → offset_at s i ≡ get_or xs i 0)
    → has_empty_mapped (length xs - 1) 1 s ≡ false
has_empty_mapped-Rising s [] r h at = absurd (omega arith)
has_empty_mapped-Rising s (a ∷ xs) r h at =
    let e : suc (length xs) - 1 ≡ length xs = omega arith in
    rw e (
      has_empty_mapped-false s a xs 0 r
        (λ i l. ap (offset_at s) (omega arith) ∙ at i (omega arith)))
