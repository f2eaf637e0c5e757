-- ===== src/Autoscaler.antt =====
-- internal/autoscaler: the node groups' bounds, the capacity gate and the write that scales a set.
pub mod Annotations
pub mod Capacity
pub mod Lock
pub mod Discovery
pub mod Server
pub mod Writer
mod Tests
