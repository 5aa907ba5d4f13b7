-- ===== src/Distributed.antt =====
-- The package internal/log/distributed: the replicated log over Raft. Its Raft is a parameter.
pub mod LogStore
pub mod Fsm
pub mod Membership
pub mod StreamLayer
pub mod Startup
pub mod Following
pub mod Cluster
mod ClusterTests
mod FollowingTests
mod Tests
mod SetupTests
