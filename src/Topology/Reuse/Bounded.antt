-- ===== src/Topology/Reuse/Bounded.antt =====
-- The records of a channel stay few and have different keys.
use sparse_branch_machine.Base.{
  ℕ, zero, suc, ◌+◌, ◌-◌, ◌≤◌, ◌<◌, ◌≡◌, ◌≢◌, inl, inr, refl, sym, ap, arith, false, Bool-cases,
  ◌||◌, ltb, leb, ◌==◌, Option, none, some, List, [], ◌∷◌, ◌++◌, get_or, set, replicate, length,
  length-set, length-append, get_or-set_self, get_elem?, length-replicate, All, All-append,
}
use sparse_branch_machine.Base.Elements.{All-set}
use sparse_branch_machine.Topology.Reuse.{
  BindingReuseRecord, BindingReuse, next_u64, bump, weakest_loop, weakest, is_weaker, admit,
  resized, store, observe_binding_reuse,
}

abbrev pub Lacks : ℕ → List BindingReuseRecord → Type 0
Lacks key records = All (λ (r : BindingReuseRecord). r.key ≢ key) records

abbrev pub AllDifferent : List BindingReuseRecord → Type 0
AllDifferent [] = Unit
AllDifferent (r ∷ rs) = Lacks r.key rs × AllDifferent rs

-- At most `cap` records, no two with one key.
pub record IsTable (cap : ℕ) (records : List BindingReuseRecord) : Type 0 where
  pub few : length records ≤ cap
  pub different : AllDifferent records

abbrev Bumped : ℕ → ℕ → List BindingReuseRecord → Option (List BindingReuseRecord) → Type 0
Bumped key step records none = Lacks key records
Bumped key step records (some updated) =
    (length updated ≡ length records)
    × ((k : ℕ) → Lacks k records → Lacks k updated)
    × (AllDifferent records → AllDifferent updated)

bump-Bumped :
    (key step : ℕ) (records : List BindingReuseRecord)
    → Bumped key step records (bump key step records)
unfolding bump
bump-Bumped key step [] = tt
bump-Bumped key step (r ∷ rs) = elim (Bool-cases (r.key == key)) [
  | inl same ↦ rw same (refl, λ k h. h, λ h. h)
  | inr other ↦ rw other (after (bump key step rs) (bump-Bumped key step rs) (ground arith))
]
  where
    after :
        (o : Option (List BindingReuseRecord))
        → Bumped key step rs o
        → r.key ≢ key
        → Bumped key step (r ∷ rs) (elim o [ none ↦ none | some updated ↦ some (r ∷ updated) ])
    after none h n = (n, h)
    after (some updated) (l, k, d) n = (ap suc l, λ x h. (h.0, k x h.1), λ h. (k r.key h.0, d h.1))

Lacks-append :
    (k : ℕ) (records : List BindingReuseRecord) (r : BindingReuseRecord)
    → Lacks k records
    → r.key ≢ k
    → Lacks k (records ++ (r ∷ []))
Lacks-append k [] r h n = (n, tt)
Lacks-append k (x ∷ xs) r h n = (h.0, Lacks-append k xs r h.1 n)

different-append :
    (records : List BindingReuseRecord) (r : BindingReuseRecord)
    → AllDifferent records
    → Lacks r.key records
    → AllDifferent (records ++ (r ∷ []))
different-append [] r d h = (tt, tt)
different-append (x ∷ xs) r d h =
    (Lacks-append x.key xs r d.0 (λ e. h.0 (sym e)), different-append xs r d.1 h.1)

Lacks-set :
    (k : ℕ) (records : List BindingReuseRecord) (i : ℕ) (r : BindingReuseRecord)
    → Lacks k records
    → r.key ≢ k
    → Lacks k (set records i r)
Lacks-set k [] i r h n = tt
Lacks-set k (x ∷ xs) zero r h n = (n, h.1)
Lacks-set k (x ∷ xs) (suc i) r h n = (h.0, Lacks-set k xs i r h.1 n)

different-set :
    (records : List BindingReuseRecord) (i : ℕ) (r : BindingReuseRecord)
    → AllDifferent records
    → Lacks r.key records
    → AllDifferent (set records i r)
different-set [] i r d h = tt
different-set (x ∷ xs) zero r d h = (h.1, d.1)
different-set (x ∷ xs) (suc i) r d h =
    (Lacks-set x.key xs i r d.0 (λ e. h.0 (sym e)), different-set xs i r d.1 h.1)

admit-IsTable :
    (cap key step : ℕ) (records : List BindingReuseRecord)
    → IsTable cap records
    → Lacks key records
    → IsTable cap (admit cap key step records)
unfolding admit
admit-IsTable cap key step records t lacks = elim (Bool-cases (cap == 0)) [
  | inl no_room ↦ rw no_room t
  | inr room ↦ elim (Bool-cases (ltb (length records) cap)) [
    | inl below ↦
        let less : length records < cap = ground arith in
        rw (room, below)
          (record {
            few = omega (arith, length-append records (fresh ∷ []));
            different = different-append records fresh t.different lacks;
          })
    | inr full ↦
        rw (room, full)
          (record {
            few = omega (arith, length-set records (weakest records) fresh, t.few);
            different = different-set records (weakest records) fresh t.different lacks;
          })
  ]
]
  where
    fresh : BindingReuseRecord
    fresh = record { key = key; observations = 1; last_seen_step = step }

All-get_or {ℓ κ} :
    {A : Type ℓ} (P : A → Type κ) (xs : List A) (i : ℕ) (d : A) → All P xs → P d → P (get_or xs i d)
All-get_or P [] i d h p = p
All-get_or P (x ∷ xs) zero d h p = h.0
All-get_or P (x ∷ xs) (suc i) d h p = All-get_or P xs i d h.1 p

All-replicate {ℓ κ} : {A : Type ℓ} (P : A → Type κ) (n : ℕ) (a : A) → P a → All P (replicate n a)
All-replicate P zero a p = tt
All-replicate P (suc n) a p = (p, All-replicate P n a p)

empty-IsTable : (cap : ℕ) → IsTable cap []
empty-IsTable cap = record { few = omega arith; different = tt }

resized-IsTable :
    (cap size : ℕ) (channels : List (List BindingReuseRecord))
    → All (IsTable cap) channels
    → All (IsTable cap) (resized size channels)
resized-IsTable cap size channels h = elim (Bool-cases (ltb (length channels) size)) [
  | inl short ↦
      rw short (
        All-append (IsTable cap) channels _ h
          (All-replicate (IsTable cap) _ [] (empty-IsTable cap)))
  | inr long ↦ rw long h
]

-- Observing a key keeps every channel's records at the configured bound or below it, and no channel
-- has two records of one key.
pub observe_binding_reuse-IsTable :
    (size cap step : ℕ) (reuse : BindingReuse) (channel key : ℕ)
    → All (IsTable cap) reuse.channels
    → All (IsTable cap) (observe_binding_reuse size cap step reuse channel key).channels
unfolding observe_binding_reuse
observe_binding_reuse-IsTable size cap step reuse channel key h =
    elim (Bool-cases (leb size channel || key == 0)) [
      | inl refused ↦ rw refused h
      | inr taken ↦ rw taken (after (bump key step records) (bump-Bumped key step records))
    ]
  where
    channels : List (List BindingReuseRecord)
    channels = resized size reuse.channels

    records : List BindingReuseRecord
    records = get_or channels channel []

    tables : All (IsTable cap) channels
    tables = resized-IsTable cap size reuse.channels h

    table : IsTable cap records
    table = All-get_or (IsTable cap) channels channel [] tables (empty-IsTable cap)

    after :
        (o : Option (List BindingReuseRecord))
        → Bumped key step records o
        → All (IsTable cap) (store cap key step channel channels reuse o).channels
    after none lacks =
        All-set (IsTable cap) channels channel _ tables
          (admit-IsTable cap key step records table lacks)
    after (some bumped) (l, k, d) =
        All-set (IsTable cap) channels channel bumped tables
          (record { few = omega (arith, l, table.few); different = d table.different })

-- What is recorded of a key: a record of it that was seen at the given step.
abbrev pub Recorded : ℕ → ℕ → List BindingReuseRecord → Type 0
Recorded key step records =
    (i : ℕ) × (r : BindingReuseRecord) × (get_elem? records i ≡ some r)
    × (r.key ≡ key)
    × (r.last_seen_step ≡ step)

abbrev BumpRecords : ℕ → ℕ → Option (List BindingReuseRecord) → Type 0
BumpRecords key step none = Unit
BumpRecords key step (some updated) = Recorded key step updated

bump-Recorded :
    (key step : ℕ) (records : List BindingReuseRecord)
    → BumpRecords key step (bump key step records)
unfolding bump
bump-Recorded key step [] = tt
bump-Recorded key step (r ∷ rs) = elim (Bool-cases (r.key == key)) [
  | inl same ↦ rw same (
    0,
    record r { observations = next_u64 r.observations; last_seen_step = step },
    refl,
    (ground arith),
    refl,
  )
  | inr other ↦ rw other (after (bump key step rs) (bump-Recorded key step rs))
]
  where
    after :
        (o : Option (List BindingReuseRecord))
        → BumpRecords key step o
        → BumpRecords key step (elim o [ none ↦ none | some updated ↦ some (r ∷ updated) ])
    after none h = tt
    after (some updated) (i, x, e, k, s) = (suc i, x, e, k, s)

append-last {ℓ} :
    {A : Type ℓ} (xs : List A) (a : A) → get_elem? (xs ++ (a ∷ [])) (length xs) ≡ some a
append-last [] a = refl
append-last (x ∷ xs) a = append-last xs a

set-there {ℓ} :
    {A : Type ℓ} (xs : List A) (i : ℕ) (a : A) → i < length xs → get_elem? (set xs i a) i ≡ some a
set-there [] i a h = absurd (omega arith)
set-there (x ∷ xs) zero a h = refl
set-there (x ∷ xs) (suc i) a h = set-there xs i a (omega arith)

weakest_loop-inside :
    (rs : List BindingReuseRecord) (index at : ℕ) (best : BindingReuseRecord)
    → at < index
    → weakest_loop rs index at best < index + length rs
unfolding weakest_loop
weakest_loop-inside [] index at best h = omega arith
weakest_loop-inside (r ∷ rs) index at best h = elim (Bool-cases (is_weaker r best)) [
  | inl weaker ↦ rw weaker (omega (arith, weakest_loop-inside rs (index + 1) index r (omega arith)))
  | inr stronger ↦
      rw stronger (omega (arith, weakest_loop-inside rs (index + 1) at best (omega arith)))
]

weakest-inside :
    (records : List BindingReuseRecord) → 0 < length records → weakest records < length records
weakest-inside [] h = absurd (omega arith)
weakest-inside (r ∷ rs) h = omega (arith, weakest_loop-inside rs 1 0 r (omega arith))

admit-Recorded :
    (cap key step : ℕ) (records : List BindingReuseRecord)
    → 0 < cap
    → Recorded key step (admit cap key step records)
unfolding admit
admit-Recorded cap key step records h =
    let fresh : BindingReuseRecord = record {
      key = key;
      observations = 1;
      last_seen_step = step;
    } in
    let room : (cap == 0) ≡ false = ground arith in
    elim (Bool-cases (ltb (length records) cap)) [
      | inl below ↦ rw (room, below) (length records, fresh, append-last records fresh, refl, refl)
      | inr full ↦
          let some_there : 0 < length records = ground arith in
          rw (room, full)
            (
              weakest records,
              fresh,
              set-there records (weakest records) fresh (weakest-inside records some_there),
              refl,
              refl,
            )
    ]

resized-inside :
    (size : ℕ) (channels : List (List BindingReuseRecord)) (c : ℕ)
    → c < size
    → c < length (resized size channels)
resized-inside size channels c h = elim (Bool-cases (ltb (length channels) size)) [
  | inl short ↦
      let less : length channels < size = ground arith in
      rw short (
        omega (
          arith,
          length-append channels (replicate (size - length channels) []),
          length-replicate {A = List BindingReuseRecord} (size - length channels) [],
        ))
  | inr long ↦ let more : size ≤ length channels = ground arith in rw long (omega arith)
]

-- With a positive bound, a key other than 0 that is observed on an existing channel is afterwards
-- among that channel's records, seen at the present step.
pub observe_binding_reuse-Recorded :
    (size cap step : ℕ) (reuse : BindingReuse) (channel key : ℕ)
    → channel < size
    → key ≢ 0
    → 0 < cap
    → Recorded key step
        (get_or (observe_binding_reuse size cap step reuse channel key).channels channel [])
unfolding observe_binding_reuse
observe_binding_reuse-Recorded size cap step reuse channel key c k h =
    let taken : (leb size channel || key == 0) ≡ false = ground arith in
    rw taken (
      after (bump key step (get_or channels channel []))
        (bump-Recorded key step (get_or channels channel [])))
  where
    channels : List (List BindingReuseRecord)
    channels = resized size reuse.channels

    after :
        (o : Option (List BindingReuseRecord))
        → BumpRecords key step o
        → Recorded key step
            (get_or (store cap key step channel channels reuse o).channels channel [])
    after none h' =
        rw
          (get_or-set_self channels channel (admit cap key step (get_or channels channel [])) []
            (resized-inside size reuse.channels channel c))
          (admit-Recorded cap key step (get_or channels channel []) h)
    after (some bumped) r =
        rw
          (get_or-set_self channels channel bumped []
            (resized-inside size reuse.channels channel c))
          r
