-- ===== src/World.antt =====
-- server/world/world.cpp: what ties players, clans and the map together.
pub mod Clans
pub mod Execute
pub mod Membership
pub mod Handlers
pub mod Members
pub mod Commands
pub mod Overlap
pub mod Cities
pub mod Actions
pub mod Play
pub mod Asks
pub mod Map
pub mod Search
pub mod State
pub mod Movement
pub mod Board
pub mod Places
pub mod Walks
pub mod Arrivals
pub mod Ground
pub mod Combat
pub mod Attack
pub mod Update
pub mod Spawning
pub mod Quiet
pub mod Calm
pub mod Fights
pub mod Settled
pub mod Rounds
pub mod Spawned
pub mod Start
pub mod Reach
