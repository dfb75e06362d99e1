-- ===== src/Server/Rounds.antt =====
-- server/server.cpp and server/receiver_thread.cpp: what the calls that move a player do to the
-- places.
mod Joining
mod Leaving
mod Ticking
mod Opening
mod Handlers
mod Loop
pub mod Reach
use mathlib.Core.Option.{some-injective}
use argentum_online_taller_g.Prelude.{
  ℕ, suc, ◌+◌, ◌%◌, ◌^◌, ◌≤◌, ◌<◌, ◌≡◌, ◌≢◌, refl, sym, ◌∙◌, ap, subst, Bool, true, false, ◌&&◌,
  ◌||◌, Option, none, some, List, [], ◌∷◌, ◌++◌, length, ◌==◌, ==_iff, leb, Bool-cases,
  Option-cases, inl, inr, if◌then◌else◌, lookup, insert, member, remove_member,
  member-remove_member, lookup-insert, length-append, Bytes, arith,
}
use argentum_online_taller_g.Queue.{close}
use argentum_online_taller_g.Server.State.{
  new_connection, PlayerConnection, ConnState, connected, authenticated, in_match, disconnecting,
  Worlds, Match, Server,
}
use argentum_online_taller_g.Server.Exec.{set_conn}
use argentum_online_taller_g.Server.Matches
use argentum_online_taller_g.Server.Lobby
use argentum_online_taller_g.Server.Lobby.{is_in_match}
use argentum_online_taller_g.Server.Receiver.{set_state, set_current_match_id}
use argentum_online_taller_g.Server.Seats.{
  Room, Unique, IsRoom, is_inside, holds, same_places, room, room_of, maybe_room, IsSeated,
  SameSeats, SameSeats-refl, SameSeats-IsSeated,
}
use argentum_online_taller_g.Server.Quiet.{broadcast_lem}
use argentum_online_taller_g.Server.Moves.{
  member-append, append-Unique, remove-Unique, length-remove_member, move-IsSeated,
}

module _ {W Save : Type 0} where
  -- The place that a connection is given.
  abbrev pub seat : ℕ → ConnState → ℕ → Server W Save → Server W Save
  seat c st match_id s = set_state c st (set_current_match_id c match_id s)

  pub seat_others :
      (c d match_id : ℕ) (st : ConnState) (s : Server W Save)
      → (d == c) ≡ false
      → (seat c st match_id s).conns d ≡ s.conns d
  unfolding set_state set_current_match_id set_conn
  seat_others c d match_id st s n = rw n refl

  pub seat_mine :
      (c i match_id : ℕ) (st : ConnState) (s : Server W Save)
      → is_inside i ((seat c st match_id s).conns c) ≡ (is_in_match st && match_id == i)
  unfolding set_state set_current_match_id set_conn is_inside
  seat_mine c i match_id st s = rw ((==_iff c c).1 refl) refl

  pub room-insert :
      (i match_id : ℕ) (n : Match W Save) (s : Server W Save)
      → maybe_room (lookup i (insert match_id n s.matches))
        ≡ (if match_id == i then some (room_of n) else room i s)
  unfolding room maybe_room
  room-insert i match_id n s = elim (Bool-cases (match_id == i)) [
    | inl t ↦ rw (lookup-insert i match_id n s.matches, t) refl
    | inr f ↦ rw (lookup-insert i match_id n s.matches, f) refl
  ]

  pub seat_rooms :
      (c i match_id : ℕ) (st : ConnState) (s : Server W Save)
      → room i (seat c st match_id s) ≡ room i s
  unfolding set_state set_current_match_id set_conn room
  seat_rooms c i match_id st s = refl
