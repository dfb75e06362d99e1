-- ===== src/Server/Ticks.antt =====
-- server/game/basic_match.cpp: a tick of a match, which executes what its queue holds. How a command
-- changes a world, and the updates that it makes, are given; a command that throws is left out.
use argentum_online_taller_g.Prelude.{
  ℕ, zero, suc, ◌<◌, ◌≡◌, refl, Option, none, some, List, [], ◌∷◌, length, Bool-cases, inl, inr,
  ◌==◌, if◌then◌else◌, lookup, insert, arith,
}
use argentum_online_taller_g.Queue.{got, try_pop}
use argentum_online_taller_g.Protocol.Updates.{GameUpdate, get_target_player_id}
use argentum_online_taller_g.Server.State.{Match, MatchCommand, Server}
use argentum_online_taller_g.Server.Matches

module _ {W Save : Type 0} where
  -- An update is for one player, or for all of the match.
  unfoldable pub route : GameUpdate → List ℕ → Server W Save → Server W Save
  route u players s =
      if get_target_player_id u == 0
      then Matches.broadcast u players s
      else Matches.send_update_to_player (get_target_player_id u) u players s

  unfoldable pub route_all : List GameUpdate → List ℕ → Server W Save → Server W Save
  route_all [] players s = s
  route_all (u ∷ us) players s = route_all us players (route u players s)

module _ {W Save : Type 0} (execute : MatchCommand Save → W → List GameUpdate × W) where
  -- The loop of `tick`. `none`: the rounds were not enough.
  unfoldable pub tick : ℕ → Match W Save → Server W Save → Option (Match W Save × Server W Save)
  tick zero m s = none
  tick (suc n) m s =
      let (r, q) = try_pop m.command_queue in
      elim r [
        | got cmd ↦
            let (us, w) = execute cmd m.world in
            tick n (record m { command_queue = q; world = w }) (route_all us m.players s)
        | _ ↦ some (m, s)
      ]

  -- The tick of the match with this id, which the game loop calls.
  unfoldable pub tick_match : ℕ → Server W Save → Server W Save
  tick_match match_id s = elim (lookup match_id s.matches) [
    | none ↦ s
    | some m ↦ elim (tick (suc (length m.command_queue.q)) m s) [
      | none ↦ s
      | some (n, t) ↦ record t { matches = insert match_id n t.matches }
    ]
  ]

  -- The commands one after another, on the world that the one before has left.
  unfoldable pub execute_all :
      List (MatchCommand Save) → List ℕ → W → Server W Save → W × Server W Save
  execute_all [] players w s = (w, s)
  execute_all (cmd ∷ cmds) players w s =
      let (us, v) = execute cmd w in execute_all cmds players v (route_all us players s)

  -- The rounds of a tick are those commands, one after another.
  pub tick-execute_all :
      (n : ℕ) (m : Match W Save) (s : Server W Save)
      → length m.command_queue.q < n
      → tick n m s
        ≡ some (
          record m {
            command_queue = record m.command_queue { q = [] };
            world = (execute_all m.command_queue.q m.players m.world s).0;
          },
          (execute_all m.command_queue.q m.players m.world s).1,
        )
  unfolding tick try_pop execute_all
  tick-execute_all n m s h = go n m.command_queue.q m.world s h
    where
      holding : List (MatchCommand Save) → W → Match W Save
      holding q w = record m { command_queue = record m.command_queue { q = q }; world = w }

      go :
          (n : ℕ) (q : List (MatchCommand Save)) (w : W) (s : Server W Save)
          → length q < n
          → tick n (holding q w) s
            ≡ some (holding [] (execute_all q m.players w s).0, (execute_all q m.players w s).1)
      go zero q w s h = ground (arith, h)
      go (suc n) [] w s h = elim (Bool-cases m.command_queue.closed) [
        | inl t ↦ simp t refl
        | inr f ↦ simp f refl
      ]
      go (suc n) (cmd ∷ q) w s h =
          go n q (execute cmd w).1 (route_all (execute cmd w).0 m.players s) (omega (arith, h))
