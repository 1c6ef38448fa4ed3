-- ===== src/Planner.antt =====
-- Stage placement: engine/include/provider_owned/planner.hpp and engine/planner.cpp.
pub mod Sizes
pub mod Compatible
pub mod Cache
pub mod Stages
