-- ===== src/Protocol.antt =====
-- logic/vaults-bridge-protocol: the framing of lines and the types of the wire messages.
pub mod Frame
pub mod Message
