-- ===== src/Examples/Servers.antt =====
-- A server whose worlds and saves are empty, and what its clients send.
use argentum_online_taller_g.Prelude.{
  ℕ, ◌+◌, ◌≤◌, member, insert, lookup, ◌≡◌, ◌≢◌, refl, true, false, none, some, List, [], ◌∷◌,
  Bytes, length, map, arith, All, suc,
}
use argentum_online_taller_g.Prelude.Int.{pos, negsuc}
use argentum_online_taller_g.Protocol.Wire.{put_each, recv_each, put_u8, ◌⊕◌}
use argentum_online_taller_g.Protocol.Reads.{Reads}
use argentum_online_taller_g.Protocol.Fits.{Fits}
use argentum_online_taller_g.Protocol.Updates.{
  GameUpdate, get_target_player_id, login_ok, moved, chat_msg, system_msg,
}
use argentum_online_taller_g.Protocol.Sending.{send_update}
use argentum_online_taller_g.Protocol.Receiving.{receive_update}
use argentum_online_taller_g.Protocol.Arrival.{received}
use argentum_online_taller_g.Protocol.Arrival.Streams.{stream-received}
use argentum_online_taller_g.Protocol.Requests.{
  move, select_race_class, send_request, direction_code,
}
use argentum_online_taller_g.Protocol.Commands.{select_race_class_command, meditate_command}
use argentum_online_taller_g.Server.State.{
  new_connection, ConnState, authenticated, in_match, disconnecting, Worlds, from_client, Server,
  Match, MatchCommand, restore_player,
}
use argentum_online_taller_g.Server.Lobby
use argentum_online_taller_g.Server.Receiver.{Detail, round, finish, run}
use argentum_online_taller_g.Server.Seats.{IsSeated}
use argentum_online_taller_g.Server.Ticks.{tick, tick_match}
use argentum_online_taller_g.Server.Seats.{Unique}
use argentum_online_taller_g.Server.Delivery.{outcome, tick_lem}
use argentum_online_taller_g.Server.Routing.{OneEach, inbox, is_for, with_updates}
use argentum_online_taller_g.Config.{elf, warrior}
use argentum_online_taller_g.Player.Character.{left}
use argentum_online_taller_g.Server.Handled.{Serves}
use argentum_online_taller_g.Server.Served.{FitsRequest, command_of, queued, request_served}
use argentum_online_taller_g.Server.Refusals.{IsUnserved, is_for_lobby, lobby_refuses}
use argentum_online_taller_g.Server.Rounds.Reach.{
  start, after_round, after_end, reached-IsSeated, after_tick,
}
use argentum_online_taller_g.Server.Shrinks.Loop.{run_disconnects}

abbrev some_updates : List GameUpdate
some_updates =
    login_ok 7
    ∷ moved 7 (record { x = pos 3; y = negsuc 0 })
    ∷ chat_msg 7 (65 ∷ []) (104 ∷ 105 ∷ []) 9 true
    ∷ []

some_updates-Fits : All Fits some_updates
unfolding Fits
some_updates-Fits = (
  omega arith,
  (
    (omega arith, record { x = ground arith; y = ground arith }),
    ((omega arith, omega arith, omega arith), tt),
  ),
)

stream-received_example :
    Reads
      (put_each send_update some_updates)
      (recv_each (length some_updates) receive_update)
      (map received some_updates)
stream-received_example = stream-received some_updates some_updates-Fits

abbrev small_worlds : Worlds ℕ ℕ
small_worlds = record {
  world_factory = 0;
  get_player = λ pid w. none;
  remove_player = λ pid w. w;
  get_width = λ w. 1;
  get_height = λ w. 1;
  get_cell = λ x y w. record { terrain_type = 0; blocking = false };
  find_player_save = λ nick name. none;
  race = λ v. 0;
  klass = λ v. 0;
}

abbrev no_text : Detail → Bytes
no_text d = []

abbrev first_server : Server ℕ ℕ
first_server = record {
  conns = λ c. new_connection;
  clients = [];
  nicks_in_use = [];
  matches = [];
  next_match_id = 1;
  next_player_id = 1;
}

-- LOGIN with the nick `A`.
abbrev login_bytes : Bytes
login_bytes = 1 ∷ 0 ∷ 1 ∷ 65 ∷ []

-- A match for two players was saved.
abbrev saved_matches : List (Bytes × ℕ)
saved_matches = (77 ∷ [], 2) ∷ []

abbrev started : Server ℕ ℕ
started = Lobby.new_server small_worlds saved_matches

started_next : started.next_match_id ≢ 0
unfolding Lobby.new_server Lobby.load_matches Lobby.empty_server
started_next e = ground (arith, e)

abbrev logged : Server ℕ ℕ
logged = (round small_worlds no_text 0 started login_bytes).1

abbrev in_state : ConnState → ℕ → Server ℕ ℕ
in_state st i = record first_server {
  conns = λ c. record {
    player_id = 4;
    nick = 65 ∷ [];
    current_match_id = i;
    state = st;
    send_queue = record { q = []; max_size = 9; closed = false };
  };
}

-- A command adds one to the world and is answered with a text.
abbrev count_commands : MatchCommand ℕ → ℕ → List GameUpdate × ℕ
count_commands cmd w = (system_msg 4 (111 ∷ 107 ∷ []) ∷ [], suc w)

reached-IsSeated_example :
    IsSeated (finish small_worlds no_text 0 (tick_match count_commands 1 logged))
reached-IsSeated_example =
    reached-IsSeated small_worlds no_text count_commands saved_matches
      (finish small_worlds no_text 0 (tick_match count_commands 1 logged)) (omega arith)
      (after_end (tick_match count_commands 1 logged) 0
        (after_tick logged 1 (after_round started 0 login_bytes start started_next)))

abbrev busy_match : Match ℕ ℕ
busy_match = record {
  match_id = 1;
  name = 77 ∷ [];
  max_players = 2;
  current_players = 1;
  players = 0 ∷ [];
  command_queue = record {
    q = from_client (meditate_command 4) ∷ restore_player 4 0 ∷ [];
    max_size = 9;
    closed = false;
  };
  world = 0;
}

busy_match-Unique : Unique busy_match.players
unfolding member
busy_match-Unique = (refl, tt)

busy_match-OneEach : OneEach busy_match.players (in_state in_match 1)
unfolding member
busy_match-OneEach = λ c d p q e. ground (arith, p, q)

busy_match_room :
    0 + length (inbox (0 ∷ []) 0 4 (outcome count_commands busy_match.command_queue.q 0).0) ≤ 9
unfolding inbox is_for outcome member get_target_player_id
busy_match_room = ground arith

-- Its one connection has two updates waiting for it after the two commands.
tick_lem_example :
    let (us, w) = outcome count_commands busy_match.command_queue.q 0 in
    (t : Server ℕ ℕ) × (tick count_commands 3 busy_match (in_state in_match 1)
      ≡ some (
        record busy_match { command_queue = record busy_match.command_queue { q = [] }; world = w },
        t,
      ))
    × (t ≡ record (in_state in_match 1) { conns = t.conns })
    × (t.conns 0 ≡ with_updates (inbox (0 ∷ []) 0 4 us) ((in_state in_match 1).conns 0))
tick_lem_example =
    tick_lem count_commands 3 busy_match (in_state in_match 1) 0 (omega arith) busy_match-Unique
      busy_match-OneEach refl busy_match_room

run_disconnects_example :
    (t : Server ℕ ℕ) × (run small_worlds no_text 5 0 first_server login_bytes ≡ some t)
    × ((t.conns 0).state ≡ disconnecting)
run_disconnects_example =
    run_disconnects small_worlds no_text 5 0 first_server login_bytes (omega arith)

-- A server with the match `busy_match` in it.
abbrev busy_server : Server ℕ ℕ
busy_server = record (in_state in_match 1) { matches = insert 1 busy_match [] }

busy_server_match : lookup 1 busy_server.matches ≡ some busy_match
unfolding lookup insert
busy_server_match = refl

-- The race `elf` and the class `warrior`.
request_served_example :
    Serves (send_request (select_race_class 1 3)) (round small_worlds no_text 0) busy_server (
      queued small_worlds no_text 0 busy_server busy_match
        (from_client (select_race_class_command 4 (65 ∷ []) elf warrior)))
unfolding FitsRequest command_of
request_served_example =
    request_served small_worlds no_text 0 busy_server (select_race_class 1 3)
      (select_race_class_command 4 (65 ∷ []) elf warrior) busy_match refl refl busy_server_match
      refl (omega arith) tt refl

move_bytes : send_request (move left) ≡ some (16 ∷ 2 ∷ [])
unfolding send_request direction_code put_u8 ◌⊕◌
move_bytes = refl

move_is_not_for_lobby : is_for_lobby (move left) ≡ false
unfolding is_for_lobby
move_is_not_for_lobby = refl

-- A move to the left, whose second byte is the code of LIST_MATCHES.
lobby_refuses_example :
    IsUnserved small_worlds no_text 0 (in_state authenticated 0) (16 ∷ 2 ∷ []) (255 ∷ [])
lobby_refuses_example =
    lobby_refuses small_worlds no_text 0 (in_state authenticated 0) (move left) (16 ∷ 2 ∷ [])
      (255 ∷ []) refl refl (omega arith) move_is_not_for_lobby move_bytes
