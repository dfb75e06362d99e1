-- ===== src/Protocol.antt =====
-- server/server_protocol.cpp and client/client_protocol.cpp: the messages between client and server.
pub mod Wire
pub mod Reads
pub mod Updates
pub mod Receiving
pub mod Fits
pub mod Arrival
pub mod ServerOpcode
pub mod ClientOpcode
pub mod ProtocolError
pub mod Sending
pub mod Requests
pub mod Commands
pub mod Takes
