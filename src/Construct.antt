-- ===== src/Construct.antt =====
-- modules/machine_storage.cpp: the machine's constructor: its tests on the configuration, and the
-- channels that it begins with. Tests on `float` are a parameter.
pub mod Sound
use sparse_branch_machine.Base.{
  ℕ, zero, suc, ◌+◌, Bool, true, false, ◌||◌, ◌&&◌, not, ltb, leb, ◌==◌, if◌then◌else◌, List, [],
  ◌∷◌, ◌++◌, get_or, length, map, Result, ok, throw_if, invalid_argument, ◌>>◌, ◌>>=◌, and_then,
}
use sparse_branch_machine.Address.{
  singleton_address_program, address_program_key, address_parent_edge_kind, no_edge,
  invalid_channel,
}
use sparse_branch_machine.Lifecycle.{ValueOps}
use sparse_branch_machine.Storage.Buckets.{has_id}
use sparse_branch_machine.Topology.{ChannelState, seed_phase, active_phase}

-- The tests and constants on `float` that the constructor uses.
pub record ConfigTests (float : Type 0) : Type 0 where
  pub nought : float
  pub one : float
  pub below : float → float → Bool
  pub at_most : float → float → Bool
  pub at_least : float → float → Bool

-- The fields of `Config` that the constructor tests.
pub record MachineConfig (float : Type 0) : Type 0 where
  pub token_cross_entropy : Bool
  pub sparse_token_output : Bool
  pub token_alphabet : ℕ
  pub vector_dim : ℕ
  pub bucket_bits : ℕ
  pub beam_width : ℕ
  pub bucket_scan_limit : ℕ
  pub max_edges_per_node : ℕ
  pub max_specializations_per_bucket : ℕ
  pub address_lags : List ℕ
  pub adaptive_topology : Bool
  pub max_address_channels : ℕ
  pub topology_max_lag : ℕ
  pub topology_max_arity : ℕ
  pub topology_probe_interval : ℕ
  pub topology_probe_steps : ℕ
  pub topology_validation_steps : ℕ
  pub topology_min_observations : ℕ
  pub topology_credit_decay : float
  pub exact_region_mass : float
  pub residual_channel_gain : float
  pub residual_recency_pseudocount : float
  pub softmax_temperature : float
  pub label_smoothing : float
  pub classification_learning_rate : float
  pub classification_mature_learning_rate : float
  pub logit_decay : float
  pub max_sparse_decisions_per_node : ℕ

abbrev pub max_address_channels_limit : ℕ
max_address_channels_limit = 8

abbrev pub max_address_program_arity : ℕ
max_address_program_arity = 2

abbrev pub is_empty : List ℕ → Bool
is_empty [] = true
is_empty (lag ∷ lags) = false

unfoldable pub has_nonpositive : List ℕ → Bool
has_nonpositive [] = false
has_nonpositive (lag ∷ lags) = lag == 0 || has_nonpositive lags

-- The two loops over pairs of lags.
unfoldable pub has_duplicate : List ℕ → Bool
unfolding has_id
has_duplicate [] = false
has_duplicate (lag ∷ lags) = has_id lag lags || has_duplicate lags

-- `if (test) throw std::invalid_argument(...)`, one after the other.
unfoldable pub refuse_any : List Bool → Result (Unit {0})
refuse_any [] = ok tt
refuse_any (test ∷ tests) = throw_if test invalid_argument >> refuse_any tests

module _ {float : Type 0} (tests : ConfigTests float) (config : MachineConfig float) where
  abbrev pub refuses_routing : Bool
  refuses_routing =
      is_empty config.address_lags
      || config.max_address_channels == 0
      || ltb max_address_channels_limit config.max_address_channels
      || ltb config.max_address_channels (length config.address_lags)
      || ltb config.beam_width (
          if config.adaptive_topology
          then config.max_address_channels
          else length config.address_lags)
      || config.bucket_scan_limit == 0
      || config.max_edges_per_node == 0
      || config.max_specializations_per_bucket == 0

  abbrev pub refuses_program : Bool
  refuses_program =
      get_or config.address_lags 0 0 == 0
      || config.topology_max_lag == 0
      || config.topology_max_arity == 0
      || ltb max_address_program_arity config.topology_max_arity

  abbrev pub refuses_mixture : Bool
  refuses_mixture =
      config.topology_probe_steps == 0
      || config.topology_validation_steps == 0
      || ltb config.topology_probe_steps config.topology_validation_steps
      || config.topology_min_observations == 0
      || ltb config.topology_validation_steps config.topology_min_observations
      || tests.below config.topology_credit_decay tests.nought
      || tests.at_least config.topology_credit_decay tests.one
      || tests.below config.exact_region_mass tests.nought
      || tests.below tests.one config.exact_region_mass
      || tests.at_most config.residual_channel_gain tests.nought
      || tests.below config.residual_recency_pseudocount tests.nought

  abbrev pub refuses_token : Bool
  refuses_token =
      tests.at_most config.softmax_temperature tests.nought
      || tests.below config.label_smoothing tests.nought
      || tests.at_least config.label_smoothing tests.one
      || tests.at_most config.classification_learning_rate tests.nought
      || tests.at_most config.classification_mature_learning_rate tests.nought
      || tests.below config.logit_decay tests.nought
      || tests.at_least config.logit_decay tests.one

  -- The tests in the order of the source, the last of them for hierarchical output.
  abbrev pub refusals : List Bool
  refusals =
      (config.token_alphabet == 0 || config.vector_dim == 0)
      ∷ (config.bucket_bits == 0 || ltb 20 config.bucket_bits)
      ∷ refuses_routing
      ∷ refuses_program
      ∷ has_nonpositive config.address_lags
      ∷ has_duplicate config.address_lags
      ∷ refuses_mixture
      ∷ refuses_token
      ∷ (ltb config.max_sparse_decisions_per_node 8
          || ltb 4096 config.max_sparse_decisions_per_node)
      ∷ (config.token_cross_entropy && config.sparse_token_output && ltb config.vector_dim 2)
      ∷ []

-- What the constructor sets of the topology.
pub record Constructed (float double : Type 0) : Type 0 where
  pub topology : List (ChannelState float double)
  pub proposed_program_keys : List ℕ
  pub generation_counter : ℕ
  pub reuse_channels : ℕ
  pub next_probe_step : ℕ

module _ {float double : Type 0} (ops : ValueOps float double) where
  -- The channel of one lag: the first is the seed, and the others descend from it.
  abbrev pub seed_channel : ℕ → ℕ → ChannelState float double
  seed_channel index lag =
      let program = singleton_address_program lag in
      record {
        program = program;
        phase = if index == 0 then seed_phase else active_phase;
        credit_ema = ops.tests.nought;
        credit_sum = ops.nought;
        observations = 0;
        born_step = 0;
        generation = index + 1;
        parent_channel = if index == 0 then invalid_channel else 0;
        dependency_channel = invalid_channel;
        parent_edge_kind = if index == 0 then no_edge else address_parent_edge_kind program;
        dependency_edge_kind = no_edge;
      }

  unfoldable pub seed_loop : ℕ → List ℕ → List (ChannelState float double)
  seed_loop index [] = []
  seed_loop index (lag ∷ lags) = seed_channel index lag ∷ seed_loop (index + 1) lags

  abbrev pub constructed : MachineConfig float → Constructed float double
  constructed config = record {
    topology = seed_loop 0 config.address_lags;
    proposed_program_keys =
        map (λ lag. address_program_key (singleton_address_program lag)) config.address_lags;
    generation_counter = length config.address_lags;
    reuse_channels = length config.address_lags;
    next_probe_step = config.topology_probe_interval;
  }

  unfoldable pub construct :
      ConfigTests float → MachineConfig float → Result (Constructed float double)
  unfolding refuse_any has_nonpositive has_duplicate seed_loop
  construct tests config = refuse_any (refusals tests config) >> ok (constructed config)
