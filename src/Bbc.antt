-- ===== src/Bbc.antt =====
-- pkg/cla/bbc: bundle broadcasting over a modem with a small MTU.
pub mod Fragment
pub mod Transmission
pub mod Connector
pub mod Tests
