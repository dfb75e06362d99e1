-- ===== src/Npc.antt =====
-- server/game/npcs: the characters of the cities and what players ask of them.
pub mod City
pub mod Gold
pub mod Trade
pub mod Refusal
