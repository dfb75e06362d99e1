-- ===== src/Player.antt =====
-- server/game/character.cpp, player.cpp and the formulas of game_formulas.cpp that a player's own
-- operations use.
pub mod Character
pub mod Vitals
pub mod Formulas
pub mod Purse
pub mod Experience
pub mod Equipment
pub mod Wearing
pub mod Casts
