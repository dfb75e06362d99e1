-- ===== src/Server.antt =====
-- server/server.cpp, server/game/basic_match.cpp, server/player_connection.cpp and
-- server/receiver_thread.cpp: the connections, the lobby and the matches.
pub mod State
pub mod Exec
pub mod Matches
pub mod Lobby
pub mod Receiver
pub mod Seats
pub mod Quiet
pub mod Moves
pub mod Rounds
pub mod Shrinks
pub mod Payloads
pub mod Handled
pub mod Served
pub mod Refusals
pub mod Ticks
pub mod Routing
pub mod Delivery
