-- ===== src/Tcpcl/Messages.antt =====
-- pkg/cla/tcpclv4/internal/msgs: the messages of a session and their octets.
pub mod Types
pub mod Codec
pub mod RoundTrip
pub mod Framing
