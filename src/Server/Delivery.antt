-- ===== src/Server/Delivery.antt =====
-- server/game/basic_match.cpp: what a tick of a match does, and what each connection gets of it.
use argentum_online_taller_g.Prelude.{
  ℕ, ◌+◌, ◌≤◌, ◌<◌, ◌≡◌, refl, sym, ap, ◌∙◌, false, some, List, [], ◌∷◌, ◌++◌, length,
}
use argentum_online_taller_g.Protocol.Updates.{GameUpdate}
use argentum_online_taller_g.Server.State.{Match, MatchCommand, Server}
use argentum_online_taller_g.Server.Seats.{Unique}
use argentum_online_taller_g.Server.Ticks.{route_all, tick, execute_all, tick-execute_all}
use argentum_online_taller_g.Server.Routing.{
  inbox, with_updates, OneEach, delivered, route_all-rest, route_all-append,
}

module _ {W Save : Type 0} (execute : MatchCommand Save → W → List GameUpdate × W) where
  -- What the commands, one after another, make of a world, with all their updates in order.
  unfoldable pub outcome : List (MatchCommand Save) → W → List GameUpdate × W
  outcome [] w = ([], w)
  outcome (cmd ∷ cmds) w =
      let (us, v) = execute cmd w in let (more, last) = outcome cmds v in (us ++ more, last)

  execute_all-outcome :
      (cmds : List (MatchCommand Save)) (players : List ℕ) (w : W) (s : Server W Save)
      → execute_all execute cmds players w s
        ≡ ((outcome cmds w).1, route_all (outcome cmds w).0 players s)
  unfolding execute_all outcome route_all
  execute_all-outcome [] players w s = refl
  execute_all-outcome (cmd ∷ cmds) players w s =
      let (us, v) = execute cmd w in
      execute_all-outcome cmds players v (route_all us players s)
      ∙ ap (λ (t : Server W Save). ((outcome cmds v).1, t))
          (sym (route_all-append us (outcome cmds v).0 players s))

  -- In a match that has no connection and no player twice, a tick with more rounds than there are
  -- commands ends and has executed exactly the commands of the queue, in their order, each on the world
  -- that the one before has left; the queue is then empty. A connection whose send queue is open and has
  -- room gets exactly the updates that are for it, in the order in which the commands made them: if it is
  -- in the match, those that name nobody or its player, and none if it is not. Of the match and of the
  -- server, nothing changes but the world, the queue of commands and the connections.
  pub tick_lem :
      (n : ℕ) (m : Match W Save) (s : Server W Save) (c : ℕ)
      → length m.command_queue.q < n
      → Unique m.players
      → OneEach m.players s
      → (s.conns c).send_queue.closed ≡ false
      → length (s.conns c).send_queue.q
          + length (inbox m.players c (s.conns c).player_id (outcome m.command_queue.q m.world).0)
        ≤ (s.conns c).send_queue.max_size
      → let (us, w) = outcome m.command_queue.q m.world in
        (t : Server W Save) × (tick execute n m s
          ≡ some (record m { command_queue = record (m.command_queue) { q = [] }; world = w }, t))
        × (t ≡ record s { conns = t.conns })
        × (t.conns c ≡ with_updates (inbox m.players c (s.conns c).player_id us) (s.conns c))
  tick_lem n m s c rounds unique one o room =
      let (us, w) = outcome m.command_queue.q m.world in
      (
        route_all us m.players s,
        tick-execute_all execute n m s rounds
            ∙ ap
                (λ (p : W × Server W Save). some (
                  record m { command_queue = record (m.command_queue) { q = [] }; world = p.0 },
                  p.1,
                ))
                (execute_all-outcome m.command_queue.q m.players m.world s),
        route_all-rest us m.players s,
        delivered us m.players c s (s.conns c) unique one refl o room,
      )
