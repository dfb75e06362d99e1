-- ===== src/Server/Served.antt =====
-- client/client_protocol.cpp, server/server_protocol.cpp and server/receiver_thread.cpp: a request of a
-- client in a match, from its call to the queue of the match.
use argentum_online_taller_g.Prelude.{
  ℕ, ◌<◌, ◌∷◌, length, get_elem?, lookup, insert, Option-cases, inl, inr, ◌≡◌, refl, ap, subst,
  false, Option, none, some, [], ◌++◌, Bytes, ◌==◌, arith,
}
use mathlib.Core.Option.{some-injective}
use argentum_online_taller_g.Queue.{Queue, Reply, stored, push}
use argentum_online_taller_g.Server.Matches.{push_command}
use argentum_online_taller_g.Protocol.Wire.{Write}
use argentum_online_taller_g.Protocol.Reads.{IsU8, IsU32, IsI32, IsText}
use argentum_online_taller_g.Protocol.Requests.{
  Request, login, list_matches, leave_match, disconnect, create_match, join_match,
  select_race_class, meditate, resurrect, pick_up, move, attack, drop_item, equip_item, chat,
  private_chat, interact, clan_action, cheat, send_request,
}
use argentum_online_taller_g.Protocol.Commands.{
  Command, move_command, attack_command, meditate_command, resurrect_command, pick_up_item_command,
  drop_item_command, equip_item_command, interact_npc_command, clan_command, chat_command,
  cheat_command, select_race_class_command, recv_move_payload, recv_attack_payload,
  recv_drop_item_payload, recv_equip_item_payload, recv_interact_payload, recv_clan_payload,
  recv_chat_payload, recv_private_chat_payload, recv_cheat_payload,
}
use argentum_online_taller_g.Server.State.{
  PlayerConnection, in_match, Worlds, from_client, Server, Match, MatchCommand,
}
use argentum_online_taller_g.Server.Lobby
use argentum_online_taller_g.Server.Receiver.{Detail, in_the_match, round}
use argentum_online_taller_g.Server.Payloads.{
  races, classes, move-Reads, attack-Reads, drop_item-Reads, equip_item-Reads, chat-Reads,
  private_chat-Reads, interact-Reads, clan-Reads, cheat-Reads,
}
use argentum_online_taller_g.Server.Handled.{Serves, command_served, bare_served, select_served}

-- The command that a request of a player in a match stands for. The requests of the lobby, `leave_match`
-- and `disconnect` are no commands, and neither is the choice of a race or a class that there is not.
unfoldable pub command_of : PlayerConnection → Request → Option Command
command_of k (move dir) = some (move_command k.player_id dir)
command_of k (attack target) = some (attack_command k.player_id target)
command_of k meditate = some (meditate_command k.player_id)
command_of k resurrect = some (resurrect_command k.player_id)
command_of k pick_up = some (pick_up_item_command k.player_id)
command_of k (drop_item i) = some (drop_item_command k.player_id i)
command_of k (equip_item i) = some (equip_item_command k.player_id i)
command_of k (chat text) = some (chat_command k.player_id k.nick text [])
command_of k (private_chat nick text) = some (chat_command k.player_id k.nick text nick)
command_of k (interact npc type arg amount) =
    some (interact_npc_command k.player_id npc type arg amount)
command_of k (clan_action action arg) = some (clan_command k.player_id action arg)
command_of k (cheat type) = some (cheat_command k.player_id type)
command_of k (select_race_class race klass) = elim (get_elem? races race) [
  | none ↦ none
  | some r ↦ elim (get_elem? classes klass) [
    | none ↦ none
    | some q ↦ some (select_race_class_command k.player_id k.nick r q)
  ]
]
command_of k _ = none

-- The arguments are values of their types, and the texts are not too long.
unfoldable pub FitsRequest : Request → Type 0
FitsRequest (attack target) = IsU32 target
FitsRequest (drop_item i) = IsU8 i
FitsRequest (equip_item i) = IsU8 i
FitsRequest (chat text) = IsText text
FitsRequest (private_chat nick text) = IsText nick × IsText text
FitsRequest (interact npc type arg amount) = IsU32 npc × IsU8 type × IsText arg × IsI32 amount
FitsRequest (clan_action action arg) = IsU8 action × IsText arg
FitsRequest (cheat type) = IsU8 type
FitsRequest _ = Unit

module _ {W Save : Type 0} (worlds : Worlds W Save) (text : Detail → Bytes) (c : ℕ)
    (s : Server W Save) where
  abbrev me : PlayerConnection
  me = s.conns c

  answer :
      {w : Write} {cmd : Command} (found : Command)
      → ◌≡◌ {A = Option Command} (some found) (some cmd)
      → Serves w
          (round worlds text c)
          s
          (Lobby.push_command_to_match me.current_match_id (from_client found) s)
      → Serves w
          (round worlds text c)
          s
          (Lobby.push_command_to_match me.current_match_id (from_client cmd) s)
  answer {w} {cmd} found e x =
      subst
        (λ d.
          Serves w (round worlds text c) s
            (Lobby.push_command_to_match me.current_match_id (from_client d) s))
        (some-injective found cmd e) x

  request_pushed :
      (r : Request) (cmd : Command)
      → me.state ≡ in_match
      → (me.current_match_id == 0) ≡ false
      → FitsRequest r
      → command_of me r ≡ some cmd
      → Serves
          (send_request r)
          (round worlds text c)
          s
          (Lobby.push_command_to_match me.current_match_id (from_client cmd) s)
  unfolding FitsRequest command_of send_request in_the_match
  request_pushed (move dir) cmd st id h e = answer _ e (
      command_served worlds text c s _ _ (λ k. recv_move_payload k.player_id)
        (move_command me.player_id dir) (omega arith) refl refl st id (move-Reads dir me.player_id))
  request_pushed (attack target) cmd st id h e = answer _ e (
      command_served worlds text c s _ _ (λ k. recv_attack_payload k.player_id)
        (attack_command me.player_id target) (omega arith) refl refl st id
        (attack-Reads target me.player_id h))
  request_pushed (drop_item i) cmd st id h e = answer _ e (
      command_served worlds text c s _ _ (λ k. recv_drop_item_payload k.player_id)
        (drop_item_command me.player_id i) (omega arith) refl refl st id
        (drop_item-Reads i me.player_id h))
  request_pushed (equip_item i) cmd st id h e = answer _ e (
      command_served worlds text c s _ _ (λ k. recv_equip_item_payload k.player_id)
        (equip_item_command me.player_id i) (omega arith) refl refl st id
        (equip_item-Reads i me.player_id h))
  request_pushed (chat t) cmd st id h e = answer _ e (
      command_served worlds text c s _ _ (λ k. recv_chat_payload k.player_id k.nick)
        (chat_command me.player_id me.nick t []) (omega arith) refl refl st id
        (chat-Reads t me.player_id me.nick h))
  request_pushed (private_chat n t) cmd st id h e = answer _ e (
      command_served worlds text c s _ _ (λ k. recv_private_chat_payload k.player_id k.nick)
        (chat_command me.player_id me.nick t n) (omega arith) refl refl st id
        (private_chat-Reads n t me.player_id me.nick h))
  request_pushed (interact npc type arg amount) cmd st id h e = answer _ e (
      command_served worlds text c s _ _ (λ k. recv_interact_payload k.player_id)
        (interact_npc_command me.player_id npc type arg amount) (omega arith) refl refl st id
        (interact-Reads npc type arg amount me.player_id h))
  request_pushed (clan_action action arg) cmd st id h e = answer _ e (
      command_served worlds text c s _ _ (λ k. recv_clan_payload k.player_id)
        (clan_command me.player_id action arg) (omega arith) refl refl st id
        (clan-Reads action arg me.player_id h))
  request_pushed (cheat type) cmd st id h e = answer _ e (
      command_served worlds text c s _ _ (λ k. recv_cheat_payload k.player_id)
        (cheat_command me.player_id type) (omega arith) refl refl st id
        (cheat-Reads type me.player_id h))
  request_pushed meditate cmd st id h e = answer _ e (
      bare_served worlds text c s _ (λ k. meditate_command k.player_id) (omega arith) refl refl st
        id)
  request_pushed resurrect cmd st id h e = answer _ e (
      bare_served worlds text c s _ (λ k. resurrect_command k.player_id) (omega arith) refl refl st
        id)
  request_pushed pick_up cmd st id h e = answer _ e (
      bare_served worlds text c s _ (λ k. pick_up_item_command k.player_id) (omega arith) refl refl
        st id)
  request_pushed (login nick) cmd st id h e = ground (arith, e)
  request_pushed list_matches cmd st id h e = ground (arith, e)
  request_pushed leave_match cmd st id h e = ground (arith, e)
  request_pushed disconnect cmd st id h e = ground (arith, e)
  request_pushed (create_match n m) cmd st id h e = ground (arith, e)
  request_pushed (join_match i) cmd st id h e = ground (arith, e)
  request_pushed (select_race_class race klass) cmd st id h e =
      elim (Option-cases (get_elem? races race)) [
        | inl n ↦ absurd (
            let none_found : ◌≡◌ {A = Option Command} none (some cmd) = rw (n, command_of) at e in
            cc)
        | inr (r, f) ↦ elim (Option-cases (get_elem? classes klass)) [
          | inl n ↦ absurd (
              let none_found : ◌≡◌ {A = Option Command} none (some cmd) =
                rw (f, n, command_of) at e in
              cc)
          | inr (q, g) ↦
              answer _ (rw (f, g, command_of) at e)
                (select_served worlds text c s race klass r q st id f g)
        ]
      ]

  -- The server whose match `m` of the client has one command more in its queue, behind all others.
  abbrev pub queued : Match W Save → MatchCommand Save → Server W Save
  queued m cmd = record s {
    matches =
        insert me.current_match_id
          (record m {
            command_queue = record (m.command_queue) { q = m.command_queue.q ++ cmd ∷ [] };
          })
          s.matches;
  }

  pushed_lem :
      (m : Match W Save) (cmd : MatchCommand Save)
      → lookup me.current_match_id s.matches ≡ some m
      → m.command_queue.closed ≡ false
      → (length m.command_queue.q == m.command_queue.max_size) ≡ false
      → Lobby.push_command_to_match me.current_match_id cmd s ≡ queued m cmd
  unfolding Lobby.push_command_to_match push_command push
  pushed_lem m cmd there unclosed full =
      rw (Lobby.push_command_to_match, there)
        (ap
          (λ q. record s {
            matches = insert me.current_match_id (record m { command_queue = q }) s.matches;
          })
          (ap (λ (p : Reply (MatchCommand Save) × Queue (MatchCommand Save)). p.1)
            (stores m.command_queue unclosed full)))
    where
      stores :
          (q : Queue (MatchCommand Save))
          → q.closed ≡ false
          → (length q.q == q.max_size) ≡ false
          → push cmd q ≡ (stored, record q { q = q.q ++ cmd ∷ [] })
      stores q u f = rw (push, u, f) refl

  -- What a client sends for a command, with arguments that fit, is served in one round when the
  -- connection is in a match whose id is not 0, and the queue of commands of that match is open and has
  -- room: the round takes exactly these bytes, whatever follows them; the command that the request
  -- stands for is then the last in the queue of that match, and nothing else of the server changes. The
  -- requests for a command include the choice of a race and a class that there are.
  pub request_served :
      (r : Request) (cmd : Command) (m : Match W Save)
      → me.state ≡ in_match
      → (me.current_match_id == 0) ≡ false
      → lookup me.current_match_id s.matches ≡ some m
      → m.command_queue.closed ≡ false
      → length m.command_queue.q < m.command_queue.max_size
      → FitsRequest r
      → command_of me r ≡ some cmd
      → Serves (send_request r) (round worlds text c) s (queued m (from_client cmd))
  request_served r cmd m st id there unclosed room fits e =
      let full : (length m.command_queue.q == m.command_queue.max_size) ≡ false =
        ground (arith, room) in
      subst (Serves (send_request r) (round worlds text c) s)
        (pushed_lem m (from_client cmd) there unclosed full) (request_pushed r cmd st id fits e)
