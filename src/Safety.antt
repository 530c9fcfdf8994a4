-- ===== src/Safety.antt =====
-- What one run of `Reconcile` may do to the cluster: a policy for its calls, and the proof that
-- every run obeys it. A run starts with no call made, and the services answer as they like.
pub mod Policy
pub mod Reads
pub mod Evict
pub mod Change
pub mod Settings
pub mod Scaling
pub mod Restoring
pub mod Stages
pub mod Rounds
pub mod Loop
pub mod Guarantees
pub mod Saved
mod Tests
