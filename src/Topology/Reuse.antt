-- ===== src/Topology/Reuse.antt =====
-- modules/machine_topology.cpp: `observe_binding_reuse` and `binding_reuse_summary`.
pub mod Bounded
use sparse_branch_machine.Base.{
  ℕ, zero, suc, ◌+◌, ◌-◌, ◌%◌, ◌^◌, Bool, true, false, ◌||◌, ◌&&◌, not, ltb, leb, ◌==◌,
  if◌then◌else◌, Option, none, some, List, [], ◌∷◌, ◌++◌, get_or, set, replicate, length,
}

pub record BindingReuseRecord : Type 0 where
  pub key : ℕ
  pub observations : ℕ
  pub last_seen_step : ℕ

pub record BindingReuseSummary : Type 0 where
  pub total : ℕ
  pub unique_keys : ℕ
  pub events : ℕ

-- The machine's records, one list to a channel, and its two counters.
pub record BindingReuse : Type 0 where
  pub channels : List (List BindingReuseRecord)
  pub reuse_observations : ℕ
  pub reuse_events : ℕ

abbrev pub next_u64 : ℕ → ℕ
next_u64 n = (n + 1) % 2 ^ 64

-- The loop over the records: the list with the key's record brought up to date, if it has one.
unfoldable pub bump : ℕ → ℕ → List BindingReuseRecord → Option (List BindingReuseRecord)
bump key step [] = none
bump key step (r ∷ rs) =
    if r.key == key
    then some (record r { observations = next_u64 r.observations; last_seen_step = step } ∷ rs)
    else (elim (bump key step rs) [ none ↦ none | some updated ↦ some (r ∷ updated) ])

-- The comparison that `std::min_element` is given.
abbrev pub is_weaker : BindingReuseRecord → BindingReuseRecord → Bool
is_weaker left right =
    if not (left.observations == right.observations)
    then ltb left.observations right.observations
    else ltb left.last_seen_step right.last_seen_step

-- `std::min_element`: the index of the first of the weakest records; `best` stands at `at`.
unfoldable pub weakest_loop : List BindingReuseRecord → ℕ → ℕ → BindingReuseRecord → ℕ
weakest_loop [] index at best = at
weakest_loop (r ∷ rs) index at best =
    if is_weaker r best
    then weakest_loop rs (index + 1) index r
    else weakest_loop rs (index + 1) at best

abbrev pub weakest : List BindingReuseRecord → ℕ
weakest [] = 0
weakest (r ∷ rs) = weakest_loop rs 1 0 r

-- The records of a channel after a key that it had no record of.
unfoldable pub admit : ℕ → ℕ → ℕ → List BindingReuseRecord → List BindingReuseRecord
unfolding weakest_loop
admit cap key step records =
    let fresh : BindingReuseRecord = record {
      key = key;
      observations = 1;
      last_seen_step = step;
    } in
    if cap == 0
    then records
    else (if ltb (length records) cap
        then records ++ (fresh ∷ [])
        else set records (weakest records) fresh)

-- `if (binding_reuse_.size() < topology_.size()) binding_reuse_.resize(topology_.size());`
abbrev pub resized : ℕ → List (List BindingReuseRecord) → List (List BindingReuseRecord)
resized size channels =
    if ltb (length channels) size
    then channels ++ replicate (size - length channels) []
    else channels

-- The machine's records after the loop: with the record found, or without one.
abbrev pub store :
    ℕ
    → ℕ
    → ℕ
    → ℕ
    → List (List BindingReuseRecord)
    → BindingReuse
    → Option (List BindingReuseRecord)
    → BindingReuse
store cap key step channel channels reuse (some bumped) = record {
  channels = set channels channel bumped;
  reuse_observations = next_u64 reuse.reuse_observations;
  reuse_events = next_u64 reuse.reuse_events;
}
store cap key step channel channels reuse none = record {
  channels = set channels channel (admit cap key step (get_or channels channel []));
  reuse_observations = next_u64 reuse.reuse_observations;
  reuse_events = reuse.reuse_events;
}

-- With the number of channels, the bound on the records and the present step.
unfoldable pub observe_binding_reuse : ℕ → ℕ → ℕ → BindingReuse → ℕ → ℕ → BindingReuse
unfolding bump admit
observe_binding_reuse size cap step reuse channel key =
    let channels = resized size reuse.channels in
    if leb size channel || key == 0
    then reuse
    else store cap key step channel channels reuse (bump key step (get_or channels channel []))

-- The sums of `binding_reuse_summary`.
unfoldable pub sum_records : List BindingReuseRecord → BindingReuseSummary → BindingReuseSummary
sum_records [] s = s
sum_records (r ∷ rs) s = sum_records rs (record s {
  total = (s.total + r.observations) % 2 ^ 64;
  events = if ltb 1 r.observations then (s.events + (r.observations - 1)) % 2 ^ 64 else s.events;
})

unfoldable pub binding_reuse_summary : BindingReuse → ℕ → BindingReuseSummary
unfolding sum_records
binding_reuse_summary reuse channel =
    let records = get_or reuse.channels channel [] in
    if leb (length reuse.channels) channel
    then record { total = 0; unique_keys = 0; events = 0 }
    else sum_records records (record { total = 0; unique_keys = length records; events = 0 })
