-- ===== src/Tcp.antt =====
-- VerifyServer/socket/tcpserver: the TCP server.
pub mod Platform
pub mod Packet
pub mod Receive
pub mod Connections
pub mod Posting
pub mod Ownership
pub mod Worker
pub mod Table
pub mod Lifecycle
pub mod Sending
