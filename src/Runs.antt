-- ===== src/Runs.antt =====
-- Tests and examples: the theorems applied to small models, queues, leases, frames and plans.
mod Models
mod Planning
mod Choosing
mod Queues
mod Leases
mod Frames
mod Speculating
mod Upgrades
mod Peers
mod Messages
mod Measuring
mod Downloads
mod Searching
