-- ===== src/Rotation.antt =====
-- internal/noderotation: rotation of the machines of a MachineSet after an edit of their class.
pub mod Annotations
pub mod Lock
pub mod Phase
pub mod Candidate
pub mod Decision
pub mod Plan
pub mod Engine
pub mod Cycle
pub mod Generation
pub mod Discovery
pub mod Reconciler
mod Fixtures
mod Tests
