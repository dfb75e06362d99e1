-- ===== src/Server/Receiver.antt =====
-- server/receiver_thread.cpp: the thread that reads what a client asks. `should_keep_running` is true:
-- a `stop` shuts the socket down as well, which is a stream that ends.
use argentum_online_taller_g.Prelude.{
  ℕ, zero, suc, true, false, Option, none, some, Bytes, ◌==◌, if◌then◌else◌, ◌⊎◌, inl, inr,
}
use argentum_online_taller_g.Queue.{close}
use argentum_online_taller_g.Protocol.Wire.{Recv, give, recv_u8, recv_u32, recv_string}
use argentum_online_taller_g.Protocol.ClientOpcode
use argentum_online_taller_g.Protocol.ProtocolError
use argentum_online_taller_g.Protocol.Updates.{
  GameUpdate, login_ok, match_list, match_created, match_joined, error,
}
use argentum_online_taller_g.Protocol.Commands.{
  Command, meditate_command, resurrect_command, pick_up_item_command, select_race_class_command,
  recv_create_match_payload, recv_select_race_class_payload, recv_move_payload, recv_attack_payload,
  recv_drop_item_payload, recv_equip_item_payload, recv_interact_payload, recv_clan_payload,
  recv_chat_payload, recv_private_chat_payload, recv_cheat_payload,
}
use argentum_online_taller_g.Server.State.{
  ConnState, connected, authenticated, in_match, disconnecting, PlayerConnection, Worlds, Match,
  from_client, restore_player, Server,
}
use argentum_online_taller_g.Server.Exec.{
  Exec, ◌>>=◌, ◌>>◌, pure, catch, recv, call, modify, conn, set_conn, enqueue_update,
  try_enqueue_update,
}
use argentum_online_taller_g.Server.Lobby
use argentum_online_taller_g.Server.Lobby.{LobbyError}

-- The texts of the errors that a client is sent; `refused` is the reason that the lobby gives.
pub data Detail : Type 0 where
  log_in_first only_in_lobby not_in_this_state not_in_match no_such_match closed_queue : Detail
  refused : LobbyError → Detail

-- What a round of the loop ends with: the next one, `break` or `return`.
pub data Next : Type 0 where
  again break return : Next

module _ {W Save : Type 0} where
  unfoldable pub set_state : ℕ → ConnState → Server W Save → Server W Save
  set_state c st s = set_conn c (record (s.conns c) { state = st }) s

  unfoldable pub set_current_match_id : ℕ → ℕ → Server W Save → Server W Save
  set_current_match_id c match_id s =
      set_conn c (record (s.conns c) { current_match_id = match_id }) s

module _ {W Save : Type 0} (worlds : Worlds W Save) (text : Detail → Bytes) where
  unfoldable pub send_error : ℕ → ℕ → Detail → Exec W Save Unit
  send_error c code detail = do
    k ← conn c
    try_enqueue_update c (error k.player_id code (text detail))

  unfoldable pub logged_in : ℕ → LobbyError ⊎ ℕ → Exec W Save Unit
  logged_in c (inl e) = send_error c ProtocolError.nick_taken (refused e)
  logged_in c (inr pid) =
      catch (do modify (set_state c authenticated); enqueue_update c (login_ok pid))
        (send_error c ProtocolError.nick_taken closed_queue)

  unfoldable pub handle_login : ℕ → Exec W Save Unit
  handle_login c = do nick ← recv recv_string; r ← call (Lobby.login c nick); logged_in c r

  unfoldable pub handle_list_matches : ℕ → Exec W Save Unit
  handle_list_matches c = do
    matches ← call (λ s. (Lobby.list_matches s, s))
    enqueue_update c (match_list matches)

  unfoldable pub created : ℕ → LobbyError ⊎ ℕ → Exec W Save Unit
  created c (inl e) = send_error c ProtocolError.invalid_arg (refused e)
  created c (inr match_id) =
      catch (enqueue_update c (match_created match_id))
        (send_error c ProtocolError.invalid_arg closed_queue)

  unfoldable pub handle_create_match : ℕ → Exec W Save Unit
  handle_create_match c = do
    payload ← recv recv_create_match_payload
    r ← call (Lobby.create_match worlds payload.0 payload.1)
    created c r

  -- What the client is told of its saved player, and the command that restores it.
  unfoldable pub joined_update : ℕ → ℕ → Option Save → GameUpdate
  joined_update match_id pid none = match_joined match_id pid false 0 0
  joined_update match_id pid (some save) =
      match_joined match_id pid true (worlds.race save) (worlds.klass save)

  unfoldable pub restore : ℕ → ℕ → Option Save → Server W Save → Server W Save
  restore match_id pid none s = s
  restore match_id pid (some save) s =
      Lobby.push_command_to_match match_id (restore_player pid save) s

  -- What follows when the connection is in the match.
  unfoldable pub tell_joined : ℕ → ℕ → Match W Save → Exec W Save Unit
  tell_joined c match_id m = do
    k ← conn c
    let saved = worlds.find_player_save k.nick m.name
    enqueue_update c (joined_update match_id k.player_id saved)
    modify (Lobby.send_world_map_to worlds c)
    modify (restore match_id k.player_id saved)

  unfoldable pub joined : ℕ → ℕ → Option (Match W Save) → Exec W Save Unit
  joined c match_id none = send_error c ProtocolError.match_not_found no_such_match
  joined c match_id (some m) = do
    modify (λ s. set_state c in_match (set_current_match_id c match_id s))
    tell_joined c match_id m

  unfoldable pub handle_join_match : ℕ → Exec W Save Unit
  handle_join_match c = do
    match_id ← recv recv_u32
    r ← call (Lobby.join_match match_id c)
    joined c match_id r

  unfoldable pub push_or_refuse : ℕ → Command → Exec W Save Unit
  push_or_refuse c cmd = do
    k ← conn c
    if k.current_match_id == 0
        then send_error c ProtocolError.command_not_allowed not_in_match
        else modify (Lobby.push_command_to_match k.current_match_id (from_client cmd))

  -- The handlers of the commands: the payload is read, and the command is given to the match.
  unfoldable pub handle_command : ℕ → (PlayerConnection → Recv Command) → Exec W Save Unit
  handle_command c payload = do k ← conn c; cmd ← recv (payload k); push_or_refuse c cmd

  unfoldable pub handle_select_race_class : ℕ → Exec W Save Unit
  handle_select_race_class c = do
    payload ← recv recv_select_race_class_payload
    k ← conn c
    push_or_refuse c (select_race_class_command k.player_id k.nick payload.0 payload.1)

  unfoldable pub handle_leave_match : ℕ → Exec W Save Unit
  handle_leave_match c = do
    modify (Lobby.leave_match worlds c)
    modify (λ s. set_state c authenticated (set_current_match_id c 0 s))

  unfoldable pub in_lobby : ℕ → ℕ → Exec W Save Unit
  in_lobby c op =
      if op == ClientOpcode.list_matches
      then handle_list_matches c
      else if op == ClientOpcode.create_match
      then handle_create_match c
      else if op == ClientOpcode.join_match
      then handle_join_match c
      else send_error c ProtocolError.command_not_allowed only_in_lobby

  unfoldable pub in_the_match : ℕ → ℕ → Exec W Save Unit
  in_the_match c op =
      if op == ClientOpcode.move
      then handle_command c (λ k. recv_move_payload k.player_id)
      else if op == ClientOpcode.attack
      then handle_command c (λ k. recv_attack_payload k.player_id)
      else if op == ClientOpcode.meditate
      then handle_command c (λ k. give (meditate_command k.player_id))
      else if op == ClientOpcode.resurrect
      then handle_command c (λ k. give (resurrect_command k.player_id))
      else if op == ClientOpcode.pick_up
      then handle_command c (λ k. give (pick_up_item_command k.player_id))
      else if op == ClientOpcode.drop_item
      then handle_command c (λ k. recv_drop_item_payload k.player_id)
      else if op == ClientOpcode.leave_match
      then handle_leave_match c
      else if op == ClientOpcode.select_race_class
      then handle_select_race_class c
      else if op == ClientOpcode.equip_item
      then handle_command c (λ k. recv_equip_item_payload k.player_id)
      else if op == ClientOpcode.interact
      then handle_command c (λ k. recv_interact_payload k.player_id)
      else if op == ClientOpcode.clan
      then handle_command c (λ k. recv_clan_payload k.player_id)
      else if op == ClientOpcode.chat
      then handle_command c (λ k. recv_chat_payload k.player_id k.nick)
      else if op == ClientOpcode.private_chat
      then handle_command c (λ k. recv_private_chat_payload k.player_id k.nick)
      else if op == ClientOpcode.cheat
      then handle_command c (λ k. recv_cheat_payload k.player_id)
      else send_error c ProtocolError.command_not_allowed not_in_this_state

  -- The `switch` on the state of the connection.
  unfoldable pub handle : ConnState → ℕ → ℕ → Exec W Save Next
  handle connected c op =
      (if op == ClientOpcode.login
        then handle_login c
        else send_error c ProtocolError.command_not_allowed log_in_first)
      >> pure again
  handle authenticated c op = in_lobby c op >> pure again
  handle in_match c op = in_the_match c op >> pure again
  handle disconnecting c op = pure return

  unfoldable pub round : ℕ → Exec W Save Next
  round c = do
    op ← recv recv_u8
    k ← conn c
    if op == ClientOpcode.disconnect then pure break else handle k.state c op

  -- After the loop; the queue is closed once more.
  unfoldable pub finish : ℕ → Server W Save → Server W Save
  finish c s =
      let t = Lobby.disconnect worlds c s in
      set_conn c (record (t.conns c) { send_queue = close (t.conns c).send_queue }) t

  -- The loop on the bytes that the client sends. `none`: the rounds were not enough.
  unfoldable pub run : ℕ → ℕ → Server W Save → Bytes → Option (Server W Save)
  run zero c s b = none
  run (suc n) c s b =
      let (r, t, d) = round c s b in
      elim r [
        | none ↦ some (finish c t)
        | some x ↦ elim x [ again ↦ run n c t d | break ↦ some (finish c t) | return ↦ some t ]
      ]
