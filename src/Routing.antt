-- ===== src/Routing.antt =====
-- pkg/routing: what a node does with the bundles that it keeps.
pub mod Constraints
pub mod Descriptor
pub mod Algorithm
pub mod Processing
pub mod IdKeeper
pub mod Tests
