-- ===== src/Tests.antt =====
-- The theorems at concrete inputs.
mod OutputTests
mod ShardTests
mod AddressTests
mod TopologyTests
mod StorageTests
mod LifecycleTests
mod SparseTests
mod PriorTests
