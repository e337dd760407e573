-- ===== src/Topology/Slots/Keys.antt =====
-- The keys name slots below the configured number.
use sparse_branch_machine.Base.{
  ℕ, ◌%◌, ◌<◌, ◌≡◌, arith, max, if◌then◌else◌, Bool, true, false, Option, none, some, List,
  get_elem?,
}
use sparse_branch_machine.Topology.{ChannelState, TopologyConfig}
use sparse_branch_machine.Topology.Reuse.{BindingReuse}
use sparse_branch_machine.Topology.Slots.{
  entry_key, gpaf_role_key_for_channel, gpaf_binding_key_for_channel,
  gpaf_structural_call_key_for_channel, gpaf_transition_key,
}

bounded : (b : Bool) (x slots : ℕ) → 0 < slots → (if b then 0 else x % max 1 slots) < slots
bounded true x slots h = h
bounded false x slots h = let e : max 1 slots ≡ slots = omega arith in rw e (omega arith)

entry_key-lt {ℓ} :
    {A : Type ℓ} (o : Option A) (f : A → ℕ) (slots : ℕ)
    → 0 < slots
    → ((a : A) → f a < slots)
    → entry_key o f < slots
unfolding entry_key
entry_key-lt none f slots h g = h
entry_key-lt (some a) f slots h g = g a

-- With a positive number of slots, every key of a role, a binding, a structural call or a transition
-- is below that number.
pub gpaf_keys-lt :
    {float double : Type 0} (config : TopologyConfig) (topology : List (ChannelState float double))
    (reuse : BindingReuse) (channel binding_key distance span prefix : ℕ)
    → 0 < config.gpaf_slots
    → (gpaf_role_key_for_channel config topology channel < config.gpaf_slots)
      × (gpaf_binding_key_for_channel config topology channel binding_key distance span
          < config.gpaf_slots)
      × (gpaf_structural_call_key_for_channel config topology reuse channel < config.gpaf_slots)
      × (gpaf_transition_key
            (gpaf_role_key_for_channel config topology channel)
            prefix
            config.gpaf_slots
          < config.gpaf_slots)
unfolding gpaf_role_key_for_channel gpaf_binding_key_for_channel
    gpaf_structural_call_key_for_channel
gpaf_keys-lt config topology reuse channel binding_key distance span prefix h = (
  entry_key-lt (get_elem? topology channel) _ config.gpaf_slots h
      (λ c. bounded _ _ config.gpaf_slots h),
  entry_key-lt (get_elem? topology channel) _ config.gpaf_slots h
      (λ c. bounded _ _ config.gpaf_slots h),
  entry_key-lt (get_elem? topology channel) _ config.gpaf_slots h (λ c.
      entry_key-lt (get_elem? topology c.dependency_channel) _ config.gpaf_slots h
        (λ d. bounded _ _ config.gpaf_slots h)),
  bounded _ _ config.gpaf_slots h,
)
