-- ===== src/Formation.antt =====
-- engine/include/provider_owned/formation.hpp: what workers and clients tell each other about models
-- and layers.
pub mod Hex
pub mod Assignment
pub mod Greeting
