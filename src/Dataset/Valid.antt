-- ===== src/Dataset/Valid.antt =====
-- What a dataset that passes validation satisfies.
use sparse_branch_machine.Base.{
  ◌>>◌, ◌∙◌, ℕ, suc, ◌+◌, ◌-◌, ◌≤◌, ◌<◌, ◌≡◌, ◌≢◌, ◌↔◌, ◌⊎◌, refl, arith, false, ltb, ◌==◌, not,
  ◌||◌, List, [], ◌∷◌, length, get_or, All, ok, throw, sym, ap, subst, throw_if-eq-ok,
  throw_if-passed, ◌&&◌, invalid_argument, if◌then◌else◌,
}
use sparse_branch_machine.Dataset.{
  TokenDataset, has_empty_sequence, has_foreign_token, validate_token_dataset, make_token_dataset,
  sequence_count, example_count,
}

-- Every number is below the next.
abbrev pub Rising : List ℕ → Type 0
Rising [] = Unit
Rising (a ∷ []) = Unit
Rising (a ∷ b ∷ rest) = (a < b) × Rising (b ∷ rest)

pub record IsValid (d : TokenDataset) : Type 0 where
  pub vocabulary : 0 < d.vocab_size
  pub several : 2 ≤ length d.sequence_offsets
  pub first : get_or d.sequence_offsets 0 0 ≡ 0
  pub last : get_or d.sequence_offsets (length d.sequence_offsets - 1) 0 ≡ length d.tokens
  pub rising : Rising d.sequence_offsets
  pub known : All (λ x. x < d.vocab_size) d.tokens
  pub oracle : (length d.oracle_nll ≡ 0) ⊎ (length d.oracle_nll ≡ length d.tokens)

pub has_empty_sequence_iff : (xs : List ℕ) → (has_empty_sequence xs ≡ false) ↔ Rising xs
unfolding has_empty_sequence
has_empty_sequence_iff [] = (λ _. tt, λ _. refl)
has_empty_sequence_iff (a ∷ []) = (λ _. tt, λ _. refl)
has_empty_sequence_iff (a ∷ b ∷ rest) =
    let (to, from) = has_empty_sequence_iff (b ∷ rest) in
    (λ h. (ground arith, to (ground arith)), λ h. ground (arith, from h.1))

pub has_foreign_token_iff :
    (v : ℕ) (xs : List ℕ) → (has_foreign_token v xs ≡ false) ↔ All (λ x. x < v) xs
unfolding has_foreign_token
has_foreign_token_iff v [] = (λ _. tt, λ _. refl)
has_foreign_token_iff v (x ∷ xs) =
    let (to, from) = has_foreign_token_iff v xs in
    (λ h. (ground arith, to (ground arith)), λ h. ground (arith, from h.1))

-- Validation passes exactly the datasets with a positive vocabulary, two or more rising offsets
-- from 0 to the number of tokens, tokens of the vocabulary, and no oracle or one value to each
-- token; otherwise it throws `invalid_argument`.
pub validate_token_dataset_iff :
    (d : TokenDataset)
    → ((validate_token_dataset d ≡ ok tt) ↔ IsValid d)
      × (validate_token_dataset d ≢ ok tt → validate_token_dataset d ≡ throw invalid_argument)
unfolding validate_token_dataset
validate_token_dataset_iff d = ((to, from), refused)
  where
    o : List ℕ
    o = d.sequence_offsets

    to : validate_token_dataset d ≡ ok tt → IsValid d
    to h =
        let (a, h1) = throw_if-passed (d.vocab_size == 0) _ h in
        let (b, h2) =
          throw_if-passed
            (ltb (length o) 2
              || not (get_or o 0 0 == 0)
              || not (get_or o (length o - 1) 0 == length d.tokens))
            _ h1 in
        let (c, h3) = throw_if-passed (has_empty_sequence o) _ h2 in
        let (e, h4) = throw_if-passed (has_foreign_token d.vocab_size d.tokens) _ h3 in
        let f =
          throw_if-eq-ok
            (not (length d.oracle_nll == 0) && not (length d.oracle_nll == length d.tokens)) _ h4 in
        record {
          vocabulary = ground arith;
          several = ground arith;
          first = ground arith;
          last = ground arith;
          rising = (has_empty_sequence_iff o).0 c;
          known = (has_foreign_token_iff d.vocab_size d.tokens).0 e;
          oracle = ground arith;
        }

    from : IsValid d → validate_token_dataset d ≡ ok tt
    from v = ground (
      arith,
      (has_empty_sequence_iff o).1 v.rising,
      (has_foreign_token_iff d.vocab_size d.tokens).1 v.known,
    )

    refused : validate_token_dataset d ≢ ok tt → validate_token_dataset d ≡ throw invalid_argument
    refused h = ground arith

-- `make_token_dataset` returns its arguments as one dataset without an oracle, where an empty list of
-- offsets stands for a single sequence, if that dataset is valid, and otherwise throws
-- `invalid_argument`.
pub make_token_dataset_lem :
    (tokens : List ℕ) (vocab : ℕ) (offsets : List ℕ) (made : TokenDataset)
    → made ≡ record {
      vocab_size = vocab;
      tokens = tokens;
      sequence_offsets = if length offsets == 0 then 0 ∷ length tokens ∷ [] else offsets;
      oracle_nll = [];
    }
    → (IsValid made → make_token_dataset tokens vocab offsets ≡ ok made)
      × (¬ IsValid made → make_token_dataset tokens vocab offsets ≡ throw invalid_argument)
unfolding make_token_dataset
make_token_dataset_lem tokens vocab offsets made e =
    let raw : TokenDataset = record {
      vocab_size = vocab;
      tokens = tokens;
      sequence_offsets = if length offsets == 0 then 0 ∷ length tokens ∷ [] else offsets;
      oracle_nll = [];
    } in
    let (both, refused) = validate_token_dataset_iff raw in
    (
      λ v. ap (λ r. r >> ok raw) (both.1 (subst IsValid e v)) ∙ ap ok (sym e),
      λ n. ap (λ r. r >> ok raw) (refused (λ passed. n (subst IsValid (sym e) (both.0 passed)))),
    )

-- The steps between the offsets, each without its last position, as `example_count` counts them.
pub examples_between : List ℕ → ℕ
examples_between [] = 0
examples_between (a ∷ []) = 0
examples_between (a ∷ b ∷ rest) = (b - a - 1) + examples_between (b ∷ rest)

steps_to_last :
    (a : ℕ) (xs : List ℕ)
    → Rising (a ∷ xs)
    → examples_between (a ∷ xs) + length xs + a ≡ get_or (a ∷ xs) (length xs) 0
unfolding examples_between
steps_to_last a [] r = omega arith
steps_to_last a (b ∷ rest) r = omega (arith, steps_to_last b rest r.1)

pub offsets_steps :
    (xs : List ℕ)
    → Rising xs
    → 2 ≤ length xs
    → get_or xs 0 0 ≡ 0
    → examples_between xs + (length xs - 1) ≡ get_or xs (length xs - 1) 0
offsets_steps [] r h z = absurd (omega arith)
offsets_steps (a ∷ xs) r h z =
    let e : suc (length xs) - 1 ≡ length xs = omega arith in
    rw e (omega (arith, steps_to_last a xs r))

-- A valid dataset has as many examples as its sequences have pairs of neighbours.
pub example_count-examples_between :
    (d : TokenDataset) → IsValid d → example_count d ≡ examples_between d.sequence_offsets
unfolding example_count sequence_count
example_count-examples_between d v =
    ground (arith, offsets_steps d.sequence_offsets v.rising v.several v.first)
