-- ===== src/Server/Rounds/Leaving.antt =====
-- server/server.cpp and server/game/basic_match.cpp: a player that leaves a match.
use argentum_online_taller_g.Prelude.{
  ℕ, suc, ◌+◌, ◌%◌, ◌≡◌, refl, sym, ◌∙◌, ap, true, false, Option, none, some, length, ◌==◌, ==_iff,
  Bool-cases, Option-cases, inl, inr, if◌then◌else◌, lookup, insert, member, remove_member,
  member-remove_member, Bytes, arith,
}
use argentum_online_taller_g.Server.State.{in_match, Worlds, Match, Server}
use argentum_online_taller_g.Server.Matches
use argentum_online_taller_g.Server.Lobby
use argentum_online_taller_g.Server.Lobby.{is_in_match}
use argentum_online_taller_g.Server.Seats.{
  Room, IsRoom, is_inside, holds, room, room_of, maybe_room, IsSeated, SameSeats, SameSeats-refl,
}
use argentum_online_taller_g.Server.Quiet.{broadcast_lem}
use argentum_online_taller_g.Server.Moves.{remove-Unique, length-remove_member, move-IsSeated}
use argentum_online_taller_g.Server.Rounds.{room-insert}

abbrev left_room : ℕ → Room → Room
left_room c r = record r {
  players = remove_member c r.players;
  current_players = (r.current_players + 255) % 256;
}

left_room-IsRoom :
    (c : ℕ) (r : Room) → IsRoom r → member c r.players ≡ true → IsRoom (left_room c r)
left_room-IsRoom c r h present =
    let fewer : suc (length (remove_member c r.players)) ≡ length r.players =
      length-remove_member c r.players present h.unique in
    record {
      counted = ground (arith, h.counted, h.small, h.fits, fewer);
      fits = ground (arith, h.fits, fewer);
      small = h.small;
      unique = remove-Unique c r.players h.unique;
    }

module _ {W Save : Type 0} where
  -- What a player that leaves does to the places, before it has another one.
  pub record Leaves (c : ℕ) (s v : Server W Save) : Type 0 where
    pub was : Room
    pub found : room (s.conns c).current_match_id s ≡ some was
    pub present : member c was.players ≡ true
    pub rooms :
        (i : ℕ)
        → room i v
          ≡ (if (s.conns c).current_match_id == i then some (left_room c was) else room i s)
    pub inside : (d i : ℕ) → is_inside i (v.conns d) ≡ is_inside i (s.conns d)

  announce_leaving_lem :
      (o : Option (ℕ × Bytes × ℕ)) (m : Match W Save) (s : Server W Save)
      → SameSeats s (Lobby.announce_leaving o m s)
  unfolding Lobby.announce_leaving Matches.broadcast_update_to_all
  announce_leaving_lem none m s = SameSeats-refl s
  announce_leaving_lem (some (pid, name, clan_id)) m s = broadcast_lem _ m.players s

  same_inside :
      (s t : Server W Save)
      → SameSeats s t
      → (d i : ℕ) → is_inside i (t.conns d) ≡ is_inside i (s.conns d)
  unfolding is_inside
  same_inside s t q d i = rw (q.state d, q.match_id d) refl

  pub leave_match_lem :
      (worlds : Worlds W Save) (c : ℕ) (s : Server W Save)
      → IsSeated s
      → (s.conns c).state ≡ in_match
      → Leaves c s (Lobby.leave_match worlds c s)
  unfolding room maybe_room room_of is_inside holds is_in_match Lobby.leave_match
      Matches.remove_player
  leave_match_lem worlds c s h st =
      let id = (s.conns c).current_match_id in
      let held : holds c (room id s) ≡ true =
        sym (h.agrees c id) ∙ rw (st, (==_iff id id).1 refl) refl in
      elim (Option-cases (lookup id s.matches)) [
        | inl n ↦
            let nobody : holds c (room id s) ≡ false = rw n refl in
            ground (arith, sym held ∙ nobody)
        | inr (m, e) ↦
            let t = Lobby.announce_leaving (worlds.get_player (s.conns c).player_id m.world) m s in
            let quiet : SameSeats s t =
              announce_leaving_lem (worlds.get_player (s.conns c).player_id m.world) m s in
            let n = Matches.remove_player worlds c (s.conns c).player_id m in
            let found : room id s ≡ some (room_of m) = rw e refl in
            let left : Lobby.leave_match worlds c s ≡ record t { matches = insert id n s.matches } =
              rw (not_none id held, e, Lobby.leave_match) refl in
            record {
              was = room_of m;
              found = found;
              present = sym (ap (holds c) found) ∙ held;
              rooms = λ i. ap (room i) left ∙ room-insert i id n s;
              inside = λ d i. ap (λ x. is_inside i (x.conns d)) left ∙ same_inside s t quiet d i;
            }
      ]
    where
      not_none : (id : ℕ) → holds c (room id s) ≡ true → (id == 0) ≡ false
      not_none id held = elim (Bool-cases (id == 0)) [
        | inl z ↦ ground (
          arith,
          sym held ∙ ap (λ i. holds c (room i s)) ((==_iff id 0).0 z) ∙ ap (holds c) h.no_zero,
        )
        | inr f ↦ f
      ]

  -- A player that has left, with a place outside of every match.
  pub leave-IsSeated :
      (c : ℕ) (s v t : Server W Save)
      → IsSeated s
      → Leaves c s v
      → (s.conns c).state ≡ in_match
      → ((i : ℕ) → room i t ≡ room i v)
      → ((d i : ℕ) → (d == c) ≡ false → is_inside i (t.conns d) ≡ is_inside i (v.conns d))
      → ((i : ℕ) → is_inside i (t.conns c) ≡ false)
      → IsSeated t
  unfolding is_inside is_in_match
  leave-IsSeated c s v t h l st rooms others mine =
      let id = (s.conns c).current_match_id in
      move-IsSeated s t c id l.was (left_room c l.was) l.found (λ i. rooms i ∙ l.rooms i)
        (λ d i x. others d i x ∙ l.inside d i) (λ i. mine i ∙ absent i)
        (λ d x. member-remove_member d c l.was.players ∙ ground (arith, x))
        (left_room-IsRoom c l.was (h.sound id l.was l.found) l.present) h
    where
      absent :
          (i : ℕ)
          → false ≡ (
              if (s.conns c).current_match_id == i
              then member c (remove_member c l.was.players)
              else holds c (room i s))
      absent i = elim (Bool-cases ((s.conns c).current_match_id == i)) [
        | inl x ↦ rw (x, member-remove_member c c l.was.players, (==_iff c c).1 refl) refl
        | inr f ↦ rw f (sym (sym (h.agrees c i) ∙ rw (st, f) refl))
      ]
