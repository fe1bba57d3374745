-- ===== src/Bpv7.antt =====
-- pkg/bpv7: bundles, their blocks, and their fragments.
pub mod Typed
pub mod Flags
pub mod Endpoint
pub mod Blocks
pub mod Bundle
pub mod Validity
pub mod Reassembly
pub mod Cbor
pub mod Hops
pub mod StatusReport
pub mod Fragmentation
pub mod Tests
