-- ===== src/Protocol.antt =====
-- The wire protocol, engine/include/provider_owned/protocol.hpp: big-endian words, the frame
-- header, the socket loops, and peer ids.
pub mod Words
pub mod Frame
pub mod Socket
pub mod Peers
pub mod Endpoints
