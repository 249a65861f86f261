-- ===== src/Ping.antt =====
-- Echo requests and replies on the wire: lib/src/ping.
pub mod Shorts
pub mod EchoResponse
pub mod EchoRequest
pub mod Receive
pub mod Spoof
