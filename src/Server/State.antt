-- ===== src/Server/State.antt =====
-- server/player_connection.h, server/game/basic_match.h and server/server.h: the state. The pointers
-- to the connections are numbers, and what they point to is in one place.
use argentum_online_taller_g.Prelude.{ℕ, ◌^◌, ◌-◌, Option, List, [], Bytes, Dict}
use argentum_online_taller_g.Queue.{Queue, new_queue}
use argentum_online_taller_g.Protocol.Updates.{GameUpdate, MapCellData}
use argentum_online_taller_g.Protocol.Commands.{Command}

-- `PlayerConnection::State`.
pub data ConnState : Type 0 where
  connected authenticated in_match disconnecting : ConnState

pub record PlayerConnection : Type 0 where
  pub player_id : ℕ
  pub nick : Bytes
  pub current_match_id : ℕ
  pub state : ConnState
  pub send_queue : Queue GameUpdate

-- The size of a `Queue` that is made with no argument.
abbrev pub default_max_size : ℕ
default_max_size = 2 ^ 32 - 2

unfoldable pub new_connection : PlayerConnection
new_connection = record {
  player_id = 0;
  nick = [];
  current_match_id = 0;
  state = connected;
  send_queue = new_queue default_max_size;
}

-- What the lobby uses of the world of a match and of the saved players: `World::get_player` with the
-- id, the name and the clan, `World::remove_player`, the size and the cells of the map, the world
-- factory, and the file of the persister.
pub record Worlds (W Save : Type 0) : Type 0 where
  pub world_factory : W
  pub get_player : ℕ → W → Option (ℕ × Bytes × ℕ)
  pub remove_player : ℕ → W → W
  pub get_width : W → ℕ
  pub get_height : W → ℕ
  pub get_cell : ℕ → ℕ → W → MapCellData
  pub find_player_save : Bytes → Bytes → Option Save
  pub race : Save → ℕ
  pub klass : Save → ℕ

-- What stands in the queue of a match: the command of a client or a `RestorePlayerCommand`.
pub data MatchCommand (Save : Type 0) : Type 0 where
  from_client : Command → MatchCommand Save
  restore_player : (player_id : ℕ) → Save → MatchCommand Save

-- `BasicMatch`.
pub record Match (W Save : Type 0) : Type 0 where
  pub match_id : ℕ
  pub name : Bytes
  pub max_players : ℕ
  pub current_players : ℕ
  pub players : List ℕ
  pub command_queue : Queue (MatchCommand Save)
  pub world : W

-- The server and the connections. A connection that has not been made is as one that is new.
pub record Server (W Save : Type 0) : Type 0 where
  pub conns : ℕ → PlayerConnection
  pub clients : List ℕ
  pub nicks_in_use : List Bytes
  pub matches : Dict (Match W Save)
  pub next_match_id : ℕ
  pub next_player_id : ℕ
