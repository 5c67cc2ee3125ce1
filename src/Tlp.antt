-- ===== src/Tlp.antt =====
-- include/wawo/net/tlp: how packets are cut out of the stream of bytes that a socket receives.
pub mod HlenPacket
pub mod SymmetricEncrypt
pub mod Stream
pub mod DhSymmetricEncrypt
