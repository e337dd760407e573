-- ===== src/Lib.antt =====
-- Sparse Branch Machine: a sparse online predictor of tokens. The program stores nodes that are
-- addressed by signatures of the recent tokens. Address programs (include/sbm/types.hpp) say which
-- earlier tokens a signature reads; the topology (src/modules/machine_topology.cpp) proposes such
-- programs, runs one to a channel, and keeps or drops channels; tokens are predicted by walking an
-- implicit binary tree over a permutation of the vocabulary; training data comes from datasets and
-- from shards that are mapped into memory.
--
-- Which file models which part:
--   Base      lists, results, integers, bit operations and congruences that the others share.
--   Mix       `mix64` (src/modules/signature.cpp) and `next_random` (include/sbm/detail/random.hpp).
--   Output    src/modules/implicit_output.cpp: Inverse is `modular_inverse`, Tree is the class
--             `ImplicitOutputTree`.
--   Dataset   src/modules/dataset.cpp and include/sbm/dataset.hpp: validation, counts and hash of token
--             datasets.
--   Shard     src/modules/token_shard.cpp and include/sbm/detail/little_endian_io.hpp: Bytes is the
--             codec, Hash the payload's hash, Layout the writer, Open the constructor of
--             `MappedTokenShard`, Cursor its `next`.
--   Address   include/sbm/types.hpp and src/modules/signature.cpp: programs and keys, Match is
--             `find_content_match`, Binding `resolve_address_binding_state`, Signature the signatures;
--             Proposals is `proposal_at` of src/modules/machine_topology.cpp.
--   Execution src/modules/address_interpreter.cpp and `execute_address_programs`.
--   Topology  the channels of src/modules/machine_topology.cpp: Lookup is the search for channels and
--             their lineage, Reuse the binding records, Slots the phases and keys of the GPAF slots.
--   Construct the constructor of src/modules/machine_storage.cpp: its tests and its first channels.
--   Storage   src/modules/machine_storage.cpp: the nodes, the table from ids to slots and `new_node`;
--             Buckets is `bounded_bucket_nodes` and `mark_hot`. Table is the invariant, Insert, Scans,
--             Marks and Cores what the operations do to it.
--   Maintenance  src/modules/machine_maintenance.cpp: `erase_slot`, `prune`, `rebuild_indexes` and
--             `prefill_distractors`, with a module to what each does.
--   Lifecycle the channels' life in src/modules/machine_topology.cpp: Erase, Retire, Closure (the
--             restoring of dependents), Probes and Begin; Invariant is the well-formed topology.
--   Learning  the edges, the phases and the trace credit of src/modules/machine_learning.cpp.
--   Admission the candidates for an entry in src/modules/token_sparse_output.cpp.
--   Prior     the global output prior in src/modules/token_sparse_output.cpp.
--   Sparse    src/modules/sparse_output_policy.cpp, and the entries of
--             src/modules/token_sparse_output.cpp.
--   Tests     the theorems at concrete inputs.
--
-- A function keeps the name that it has in the source. A struct is a record, an enumeration a data
-- type, a vector or a span a list. Unsigned arithmetic keeps its wrap-around where a value can reach
-- it; sizes and indices that are bounded by the length of a list do not wrap. A call that may throw
-- returns a `Result` with the exception's class; the messages are left out. A loop is a recursion on
-- its elements, on the rounds that are left, or on fuel: `euclid_loop` and `coprime_loop` have one
-- round for each value below the modulus, `target_path_loop` one for each rank, `next_loop` one for
-- each sequence, `close_loop` one for each channel and each push, `propose_loop` one for each proposal
-- and one more, and the theorems show that this is enough. `outer_loop` has one round more than the
-- ordinal, which every round counts down, so that more rounds make no difference; its counter wraps at
-- the largest 32-bit lag, and the theorems on all the proposals are for a smaller one.
--
-- The state of the machine is cut by component. The arrays of the nodes that run in parallel are one
-- list of records; the bucket directory is a function from the index; the life cycle has a record of
-- the members that it reads and writes, the storage among them. Spans and pointers into an array are
-- indices.
--
-- Parameters: the outcomes of the file system (a record of Booleans), the mapped file (its bytes, on
-- a little-endian host), and the arithmetic and the tests on `float` and `double`, whose values are
-- elements of two arbitrary types. `std::sort`, `std::lower_bound` and `std::min_element` are written
-- as their documented results.
--
-- Not modelled: the numerical parts (routing scores, the step functions, the token objective, the
-- updates of the sparse logits, vector kernels), the merging of nodes, checkpoints, the generators and
-- files of datasets, and the C interface, the command line and the experiments around them.
pub mod Address
pub mod Admission
pub mod Base
pub mod Construct
pub mod Dataset
pub mod Execution
pub mod Learning
pub mod Lifecycle
pub mod Maintenance
pub mod Mix
pub mod Output
pub mod Prior
pub mod Shard
pub mod Sparse
pub mod Storage
pub mod Tests
pub mod Topology
