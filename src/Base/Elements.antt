-- ===== src/Base/Elements.antt =====
-- Elements of lists by their index, and options that agree.
use Prim.Native.Nat.{ℕ, zero, suc, ◌+◌, ◌-◌, ◌<◌}
use mathlib.Core.Path.{◌≡◌, refl, sym, ap, ap₂, ◌∙◌}
use mathlib.Core.Logic.{◌⊎◌, inl, inr}
use mathlib.Core.Bool.{◌&&◌}
use mathlib.Core.List.{List, [], ◌∷◌, ◌++◌, map}
use mathlib.Core.Option
use mathlib.Core.Option.{Option, none, some}
use native.Mathlib.Omega.{arith}
use sparse_branch_machine.Base.Tests.{ltb, ◌==◌, if◌then◌else◌}
use sparse_branch_machine.Base.Lists.{All, length, get_elem?, get_or, set}

-- All but the last element, as `pop_back` leaves them.
abbrev pub pop_back {ℓ} : {A : Type ℓ} → List A → List A
pop_back [] = []
pop_back (x ∷ []) = []
pop_back (x ∷ y ∷ rest) = x ∷ pop_back (y ∷ rest)

-- `erase` and `insert` of a vector at an index.
abbrev pub erase_at {ℓ} : {A : Type ℓ} → List A → ℕ → List A
erase_at [] i = []
erase_at (x ∷ xs) zero = xs
erase_at (x ∷ xs) (suc i) = x ∷ erase_at xs i

abbrev pub insert_at {ℓ} : {A : Type ℓ} → List A → ℕ → A → List A
insert_at xs zero v = v ∷ xs
insert_at [] (suc i) v = v ∷ []
insert_at (x ∷ xs) (suc i) v = x ∷ insert_at xs i v

module _ {ℓ} {A : Type ℓ} where
  -- Options with the same values are equal.
  pub Option-ext :
      (x y : Option A)
      → ((a : A) → x ≡ some a → y ≡ some a)
      → ((a : A) → y ≡ some a → x ≡ some a)
      → x ≡ y
  Option-ext none none f g = refl
  Option-ext none (some b) f g = g b refl
  Option-ext (some a) y f g = sym (f a refl)

  pub List-cases : (xs : List A) → (xs ≡ []) ⊎ ((x : A) × (rest : List A) × (xs ≡ x ∷ rest))
  List-cases [] = inl refl
  List-cases (x ∷ xs) = inr (x, xs, refl)

  pub get_elem?-lt : (xs : List A) (i : ℕ) {a : A} → get_elem? xs i ≡ some a → i < length xs
  get_elem?-lt [] i e = absurd (cc)
  get_elem?-lt (x ∷ xs) zero e = omega arith
  get_elem?-lt (x ∷ xs) (suc i) e = omega (arith, get_elem?-lt xs i e)

  pub get_elem?_total : (xs : List A) (i : ℕ) → i < length xs → (a : A) × (get_elem? xs i ≡ some a)
  get_elem?_total [] i h = absurd (omega arith)
  get_elem?_total (x ∷ xs) zero h = (x, refl)
  get_elem?_total (x ∷ xs) (suc i) h = get_elem?_total xs i (omega arith)

  pub get_elem?-get_or :
      (xs : List A) (i : ℕ) (d : A) → i < length xs → get_elem? xs i ≡ some (get_or xs i d)
  get_elem?-get_or [] i d h = absurd (omega arith)
  get_elem?-get_or (x ∷ xs) zero d h = refl
  get_elem?-get_or (x ∷ xs) (suc i) d h = get_elem?-get_or xs i d (omega arith)

  pub get_elem?-set :
      (xs : List A) (i j : ℕ) (v : A)
      → get_elem? (set xs i v) j ≡ (if i == j && ltb j (length xs) then some v else get_elem? xs j)
  get_elem?-set [] i j v = ground arith
  get_elem?-set (x ∷ xs) zero zero v = ground arith
  get_elem?-set (x ∷ xs) zero (suc j) v = ground arith
  get_elem?-set (x ∷ xs) (suc i) zero v = ground arith
  get_elem?-set (x ∷ xs) (suc i) (suc j) v = ground (arith, get_elem?-set xs i j v)

  pub get_elem?-snoc :
      (xs : List A) (x : A) (j : ℕ)
      → get_elem? (xs ++ (x ∷ [])) j ≡ (if j == length xs then some x else get_elem? xs j)
  get_elem?-snoc [] x zero = ground arith
  get_elem?-snoc [] x (suc j) = ground arith
  get_elem?-snoc (y ∷ xs) x zero = ground arith
  get_elem?-snoc (y ∷ xs) x (suc j) = ground (arith, get_elem?-snoc xs x j)

  pub get_elem?-append :
      (xs ys : List A) (j : ℕ) {a : A} → get_elem? xs j ≡ some a → get_elem? (xs ++ ys) j ≡ some a
  get_elem?-append [] ys j e = absurd (cc)
  get_elem?-append (x ∷ xs) ys zero e = e
  get_elem?-append (x ∷ xs) ys (suc j) e = get_elem?-append xs ys j e

  pub get_elem?-pop_back :
      (xs : List A) (j : ℕ)
      → get_elem? (pop_back xs) j ≡ (if ltb (j + 1) (length xs) then get_elem? xs j else none)
  get_elem?-pop_back [] j = ground arith
  get_elem?-pop_back (x ∷ []) j = ground arith
  get_elem?-pop_back (x ∷ y ∷ rest) zero = ground arith
  get_elem?-pop_back (x ∷ y ∷ rest) (suc j) = ground (arith, get_elem?-pop_back (y ∷ rest) j)

  pub length-pop_back : (xs : List A) → length (pop_back xs) ≡ length xs - 1
  length-pop_back [] = refl
  length-pop_back (x ∷ []) = refl
  length-pop_back (x ∷ y ∷ rest) = omega (arith, length-pop_back (y ∷ rest))

module _ {ℓ κ} {A : Type ℓ} {B : Type κ} (f : A → B) where
  pub get_elem?-map : (xs : List A) (i : ℕ) → get_elem? (map f xs) i ≡ Option.map f (get_elem? xs i)
  get_elem?-map [] i = refl
  get_elem?-map (x ∷ xs) zero = refl
  get_elem?-map (x ∷ xs) (suc i) = get_elem?-map xs i

  -- A write that the function does not see.
  pub map-set_same :
      (xs : List A) (i : ℕ) (a v : A)
      → get_elem? xs i ≡ some a
      → f v ≡ f a
      → map f (set xs i v) ≡ map f xs
  map-set_same [] i a v e same = refl
  map-set_same (x ∷ xs) zero a v e same =
      let h : a ≡ x = cc in ap (λ (y : B). y ∷ map f xs) (same ∙ ap f h)
  map-set_same (x ∷ xs) (suc i) a v e same =
      ap (λ (ys : List B). f x ∷ ys) (map-set_same xs i a v e same)

  pub map-map_same :
      (g : A → A) → ((a : A) → f (g a) ≡ f a) → (xs : List A) → map f (map g xs) ≡ map f xs
  map-map_same g same [] = refl
  map-map_same g same (x ∷ xs) =
      ap₂ (λ (y : B) (ys : List B). y ∷ ys) (same x) (map-map_same g same xs)

pub All-set {ℓ κ} :
    {A : Type ℓ} (P : A → Type κ) (xs : List A) (i : ℕ) (a : A)
    → All P xs
    → P a
    → All P (set xs i a)
All-set P [] i a h p = tt
All-set P (x ∷ xs) zero a h p = (p, h.1)
All-set P (x ∷ xs) (suc i) a h p = (h.0, All-set P xs i a h.1 p)
