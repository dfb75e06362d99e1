-- ===== src/Server/Rounds/Ticking.antt =====
-- server/game/basic_match.cpp: a tick changes nobody's place.
use argentum_online_taller_g.Prelude.{
  ℕ, suc, ◌≡◌, refl, ◌∙◌, Bool, true, false, some, List, [], ◌∷◌, length, Option-cases, inl, inr,
  if◌then◌else◌, lookup, insert, arith,
}
use argentum_online_taller_g.Protocol.Updates.{GameUpdate}
use argentum_online_taller_g.Server.State.{Match, MatchCommand, Server}
use argentum_online_taller_g.Server.Exec.{set_conn, pushed}
use argentum_online_taller_g.Server.Matches
use argentum_online_taller_g.Server.Ticks.{
  route, route_all, execute_all, tick_match, tick-execute_all,
}
use argentum_online_taller_g.Server.Seats.{room_of, SameSeats, SameSeats-refl, SameSeats-trans}
use argentum_online_taller_g.Server.Quiet.{pushed_lem, insert_lem}

module _ {W Save : Type 0} where
  -- Only the queues of connections change.
  record IsStill (s t : Server W Save) : Type 0 where
    seats : SameSeats s t
    matches : t.matches ≡ s.matches

  IsStill-refl : (s : Server W Save) → IsStill s s
  IsStill-refl s = record { seats = SameSeats-refl s; matches = refl }

  IsStill-trans : (s t u : Server W Save) → IsStill s t → IsStill t u → IsStill s u
  IsStill-trans s t u x y = record {
    seats = SameSeats-trans s t u x.seats y.seats;
    matches = y.matches ∙ x.matches;
  }

  pushed-IsStill :
      (c : ℕ) (u : GameUpdate) (s : Server W Save) → IsStill s (set_conn c (pushed u (s.conns c)) s)
  unfolding set_conn
  pushed-IsStill c u s = record { seats = pushed_lem c u s; matches = refl }

  broadcast-IsStill :
      (u : GameUpdate) (cs : List ℕ) (s : Server W Save) → IsStill s (Matches.broadcast u cs s)
  unfolding Matches.broadcast
  broadcast-IsStill u [] s = IsStill-refl s
  broadcast-IsStill u (c ∷ cs) s =
      let t = set_conn c (pushed u (s.conns c)) s in
      IsStill-trans s t (Matches.broadcast u cs t) (pushed-IsStill c u s) (broadcast-IsStill u cs t)

  if-IsStill :
      (q : Bool) (s t u : Server W Save)
      → IsStill s t
      → IsStill s u
      → IsStill s (if q then t else u)
  if-IsStill true s t u x y = x
  if-IsStill false s t u x y = y

  send_update_to_player-IsStill :
      (i : ℕ) (u : GameUpdate) (cs : List ℕ) (s : Server W Save)
      → IsStill s (Matches.send_update_to_player i u cs s)
  unfolding Matches.send_update_to_player
  send_update_to_player-IsStill i u [] s = IsStill-refl s
  send_update_to_player-IsStill i u (c ∷ cs) s =
      if-IsStill _ s _ _ (pushed-IsStill c u s) (send_update_to_player-IsStill i u cs s)

  route_all-IsStill :
      (us : List GameUpdate) (cs : List ℕ) (s : Server W Save) → IsStill s (route_all us cs s)
  unfolding route_all route
  route_all-IsStill [] cs s = IsStill-refl s
  route_all-IsStill (u ∷ us) cs s =
      IsStill-trans s (route u cs s) (route_all us cs (route u cs s))
        (if-IsStill _ s _ _ (broadcast-IsStill u cs s) (send_update_to_player-IsStill _ u cs s))
        (route_all-IsStill us cs (route u cs s))

  module _ (execute : MatchCommand Save → W → List GameUpdate × W) where
    execute_all-IsStill :
        (cmds : List (MatchCommand Save)) (cs : List ℕ) (w : W) (s : Server W Save)
        → IsStill s (execute_all execute cmds cs w s).1
    unfolding execute_all
    execute_all-IsStill [] cs w s = IsStill-refl s
    execute_all-IsStill (cmd ∷ cmds) cs w s =
        let t = route_all (execute cmd w).0 cs s in
        IsStill-trans s t (execute_all execute cmds cs (execute cmd w).1 t).1
          (route_all-IsStill (execute cmd w).0 cs s)
          (execute_all-IsStill cmds cs (execute cmd w).1 t)

    pub tick_match-SameSeats : (i : ℕ) (s : Server W Save) → SameSeats s (tick_match execute i s)
    unfolding tick_match room_of
    tick_match-SameSeats i s = elim (Option-cases (lookup i s.matches)) [
      | inl n ↦ rw (n, tick_match) (SameSeats-refl s)
      | inr (m, e) ↦
          let done = execute_all execute m.command_queue.q m.players m.world s in
          let still : IsStill s done.1 =
            execute_all-IsStill m.command_queue.q m.players m.world s in
          let n : Match W Save = record m {
            command_queue = record m.command_queue { q = [] };
            world = done.0;
          } in
          let here : lookup i done.1.matches ≡ some m = rw still.matches e in
          rw
            (
              e,
              tick-execute_all execute (suc (length m.command_queue.q)) m s (omega arith),
              tick_match,
            )
            (SameSeats-trans s done.1 (record done.1 { matches = insert i n done.1.matches })
              still.seats (insert_lem i m n done.1 here refl))
    ]
