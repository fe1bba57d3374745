-- ===== src/Tcpcl.antt =====
-- pkg/cla/tcpclv4: the TCP convergence layer, version 4.
pub mod Messages
pub mod Transfer
pub mod Manager
pub mod Stages
pub mod Tests
