-- ===== src/Network.antt =====
-- src/network: the diameter of a clique, control messages that are repeated, and scattering.
pub mod Granularity
pub mod SendRepeater
