-- ===== src/Server/Lobby.antt =====
-- server/server.cpp: the logins, the matches and who is in them. Each call holds a lock.
use argentum_online_taller_g.Prelude.{
  ℕ, zero, suc, ◌+◌, ◌%◌, ◌^◌, Bool, true, false, ◌||◌, Option, none, some, List, [], ◌∷◌, ◌++◌,
  map, Bytes, bytes_eq, ◌==◌, if◌then◌else◌, lookup, insert, ◌⊎◌, inl, inr,
}
use argentum_online_taller_g.Queue.{close}
use argentum_online_taller_g.Protocol.Updates.{
  MatchInfo, MapCellData, GameUpdate, player_left, world_map,
}
use argentum_online_taller_g.Server.State.{
  in_match, disconnecting, ConnState, Server, Worlds, Match, MatchCommand, new_connection,
}
use argentum_online_taller_g.Server.Exec.{set_conn, pushed}
use argentum_online_taller_g.Server.Matches

-- `std::unordered_set<std::string>`.
unfoldable pub is_used : Bytes → List Bytes → Bool
is_used nick [] = false
is_used nick (n ∷ ns) = bytes_eq n nick || is_used nick ns

unfoldable pub release : Bytes → List Bytes → List Bytes
release nick [] = []
release nick (n ∷ ns) = let rest = release nick ns in if bytes_eq n nick then rest else n ∷ rest

unfoldable pub is_in_match : ConnState → Bool
is_in_match in_match = true
is_in_match _ = false

unfoldable pub is_disconnecting : ConnState → Bool
is_disconnecting disconnecting = true
is_disconnecting _ = false

-- The reasons for which a call throws.
pub data LobbyError : Type 0 where
  empty_nick nick_in_use empty_name no_players name_in_use : LobbyError

-- The cells of a map, row by row.
unfoldable pub cells_of_row : (ℕ → MapCellData) → ℕ → List MapCellData
cells_of_row f zero = []
cells_of_row f (suc w) = cells_of_row f w ++ f w ∷ []

unfoldable pub cells_of : (ℕ → ℕ → MapCellData) → ℕ → ℕ → List MapCellData
cells_of f w zero = []
cells_of f w (suc h) = cells_of f w h ++ cells_of_row (λ x. f x h) w

module _ {W Save : Type 0} where
  -- `matches.emplace`
  unfoldable pub emplace : ℕ → Match W Save → List (ℕ × Match W Save) → List (ℕ × Match W Save)
  emplace k m ms = elim (lookup k ms) [ none ↦ insert k m ms | some old ↦ ms ]

  unfoldable pub empty_server : Server W Save
  empty_server = record {
    conns = λ c. new_connection;
    clients = [];
    nicks_in_use = [];
    matches = [];
    next_match_id = 1;
    next_player_id = 1;
  }

  -- The saved matches, each with its name and the most players that it admits.
  unfoldable pub load_matches : Worlds W Save → List (Bytes × ℕ) → Server W Save → Server W Save
  load_matches worlds [] s = s
  load_matches worlds ((name, max_players) ∷ saved) s = load_matches worlds saved (record s {
    next_match_id = (s.next_match_id + 1) % 2 ^ 32;
    matches =
        emplace s.next_match_id
          (Matches.new_match s.next_match_id name max_players worlds.world_factory) s.matches;
  })

  unfoldable pub new_server : Worlds W Save → List (Bytes × ℕ) → Server W Save
  new_server worlds saved = load_matches worlds saved empty_server

  unfoldable pub login : ℕ → Bytes → Server W Save → (LobbyError ⊎ ℕ) × Server W Save
  login c [] s = (inl empty_nick, s)
  login c nick s = if is_used nick s.nicks_in_use then (inl nick_in_use, s) else (
    inr s.next_player_id,
    set_conn c (record (s.conns c) { player_id = s.next_player_id; nick = nick })
        (record s {
          next_player_id = (s.next_player_id + 1) % 2 ^ 32;
          nicks_in_use = nick ∷ s.nicks_in_use;
        }),
  )

  unfoldable pub match_info : Match W Save → MatchInfo
  match_info m = record {
    id = m.match_id;
    name = m.name;
    current_players = m.current_players;
    max_players = m.max_players;
  }

  unfoldable pub list_matches : Server W Save → List MatchInfo
  list_matches s = map (λ e. match_info e.1) s.matches

  unfoldable pub is_named : Bytes → List (ℕ × Match W Save) → Bool
  is_named name [] = false
  is_named name ((i, m) ∷ ms) = bytes_eq m.name name || is_named name ms

  unfoldable pub create_match :
      Worlds W Save → Bytes → ℕ → Server W Save → (LobbyError ⊎ ℕ) × Server W Save
  create_match worlds [] max_players s = (inl empty_name, s)
  create_match worlds name max_players s =
      if max_players == 0
      then (inl no_players, s)
      else if is_named name s.matches
      then (inl name_in_use, s)
      else (
        inr s.next_match_id,
        record s {
          next_match_id = (s.next_match_id + 1) % 2 ^ 32;
          matches =
              emplace s.next_match_id
                (Matches.new_match s.next_match_id name max_players worlds.world_factory) s.matches;
        },
      )

  -- `none` is the null pointer.
  unfoldable pub join_match : ℕ → ℕ → Server W Save → Option (Match W Save) × Server W Save
  join_match match_id c s = elim (lookup match_id s.matches) [
    | none ↦ (none, s)
    | some m ↦ elim (Matches.add_player c m) [
      | none ↦ (none, s)
      | some n ↦ (some n, record s { matches = insert match_id n s.matches })
    ]
  ]

  -- The players of the match are told who leaves, if the world knows the player.
  unfoldable pub announce_leaving :
      Option (ℕ × Bytes × ℕ) → Match W Save → Server W Save → Server W Save
  announce_leaving none m s = s
  announce_leaving (some (pid, name, clan_id)) m s =
      Matches.broadcast_update_to_all (player_left pid name clan_id) m s

  unfoldable pub leave_match : Worlds W Save → ℕ → Server W Save → Server W Save
  leave_match worlds c s =
      let match_id = (s.conns c).current_match_id in
      let pid = (s.conns c).player_id in
      if match_id == 0 then s else elim (lookup match_id s.matches) [
        | none ↦ s
        | some m ↦
            let t = announce_leaving (worlds.get_player pid m.world) m s in
            record t { matches = insert match_id (Matches.remove_player worlds c pid m) s.matches }
      ]

  unfoldable pub push_command_to_match : ℕ → MatchCommand Save → Server W Save → Server W Save
  push_command_to_match match_id cmd s = elim (lookup match_id s.matches) [
    | none ↦ s
    | some m ↦ record s { matches = insert match_id (Matches.push_command cmd m) s.matches }
  ]

  unfoldable pub map_update : Worlds W Save → W → GameUpdate
  map_update worlds world =
      let w = worlds.get_width world in
      let h = worlds.get_height world in
      world_map (w % 2 ^ 16) (h % 2 ^ 16) (cells_of (λ x y. worlds.get_cell x y world) w h)

  -- A closed queue is passed over.
  unfoldable pub send_world_map_to : Worlds W Save → ℕ → Server W Save → Server W Save
  send_world_map_to worlds c s =
      let match_id = (s.conns c).current_match_id in
      if match_id == 0 then s else elim (lookup match_id s.matches) [
        | none ↦ s
        | some m ↦ set_conn c (pushed (map_update worlds m.world) (s.conns c)) s
      ]

  unfoldable pub disconnect : Worlds W Save → ℕ → Server W Save → Server W Save
  disconnect worlds c s =
      let t = if is_in_match (s.conns c).state then leave_match worlds c s else s in
      let k = t.conns c in
      set_conn c (record k { state = disconnecting; send_queue = close k.send_queue })
        (record t { nicks_in_use = release k.nick t.nicks_in_use })

  unfoldable pub add_client : ℕ → Server W Save → Server W Save
  add_client c s = record s { clients = s.clients ++ c ∷ [] }
