-- ===== src/Server/Matches.antt =====
-- server/game/basic_match.cpp: a match. What changes the connections has the server's state.
use argentum_online_taller_g.Prelude.{
  ℕ, ◌+◌, ◌%◌, Bool, Option, none, some, List, [], ◌∷◌, ◌++◌, Bytes, ◌==◌, leb, if◌then◌else◌,
  remove_member,
}
use argentum_online_taller_g.Queue.{new_queue, push}
use argentum_online_taller_g.Protocol.Updates.{GameUpdate}
use argentum_online_taller_g.Server.State.{Server, Worlds, Match, MatchCommand, default_max_size}
use argentum_online_taller_g.Server.Exec.{set_conn, pushed}

module _ {W Save : Type 0} where
  unfoldable pub new_match : ℕ → Bytes → ℕ → W → Match W Save
  new_match match_id name max_players world = record {
    match_id = match_id;
    name = name;
    max_players = max_players % 256;
    current_players = 0;
    players = [];
    command_queue = new_queue default_max_size;
    world = world;
  }

  unfoldable pub is_full : Match W Save → Bool
  is_full m = leb m.max_players m.current_players

  -- `none`: the match is full, which is thrown. The count is a `uint8_t`.
  unfoldable pub add_player : ℕ → Match W Save → Option (Match W Save)
  add_player c m =
      if is_full m
      then none
      else some (record m {
        players = m.players ++ c ∷ [];
        current_players = (m.current_players + 1) % 256;
      })

  unfoldable pub remove_player : Worlds W Save → ℕ → ℕ → Match W Save → Match W Save
  remove_player worlds c player_id m = record m {
    players = remove_member c m.players;
    current_players = (m.current_players + 255) % 256;
    world = worlds.remove_player player_id m.world;
  }

  -- A closed queue is passed over.
  unfoldable pub push_command : MatchCommand Save → Match W Save → Match W Save
  push_command cmd m = record m { command_queue = (push cmd m.command_queue).1 }

  -- A player whose queue is closed is passed over.
  unfoldable pub broadcast : GameUpdate → List ℕ → Server W Save → Server W Save
  broadcast u [] s = s
  broadcast u (c ∷ cs) s = broadcast u cs (set_conn c (pushed u (s.conns c)) s)

  unfoldable pub broadcast_update_to_all : GameUpdate → Match W Save → Server W Save → Server W Save
  broadcast_update_to_all u m s = broadcast u m.players s

  unfoldable pub send_update_to_player : ℕ → GameUpdate → List ℕ → Server W Save → Server W Save
  send_update_to_player player_id u [] s = s
  send_update_to_player player_id u (c ∷ cs) s =
      let rest = send_update_to_player player_id u cs s in
      if (s.conns c).player_id == player_id then set_conn c (pushed u (s.conns c)) s else rest
